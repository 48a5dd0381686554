-- ===== src/Stream/Channels.antt =====
-- Over which channel the requests of `WatchStream::try_connect` go.
use memory_archive.Prelude.{All, ◌≡◌, refl, sym, ap, Bool, Option, some, List, [], ◌∷◌, ◌++◌}
use memory_archive.Stream.Connect.{Connected, is_fatal, tag, or_next, try_each, negotiate}
use memory_archive.Stream.{no_transport, transport_plan, transport, auth, unsupported}
use memory_archive.Prelude.Result.{ok, err}
use memory_archive.Text.{Str}
use memory_archive.Stream.{
  Transport, normalize_addr, choose_trust, check_version, watch_token, subscribed, CcEndpoint,
  ConnectFailure, Channel, Wire, Sent, opened, asked_identity, asked_watch, Attempt, ◌>>=◌, ensure,
  send, try_connect,
}
use memory_archive.Stream.Sends.{
  Sends, Sends-bind, Sends-ensure, Sends-send, choose_trust-Sends, pass_gate-Sends,
  watch_token-Sends, subscribed-Sends,
}

-- A request over the channel.
abbrev Over : Channel → Sent → Type 0
Over channel (opened other) = ⊥
Over channel (asked_identity other token) = other ≡ channel
Over channel (asked_watch other token) = other ≡ channel

-- Each request goes over the channel that was opened last before it.
abbrev pub Following : Option Channel → List Sent → Type 0
Following current [] = Unit
Following current (opened channel ∷ sent) = Following (some channel) sent
Following current (asked_identity channel token ∷ sent) =
    (current ≡ some channel) × Following current sent
Following current (asked_watch channel token ∷ sent) =
    (current ≡ some channel) × Following current sent

Over-Following :
    (channel : Channel) (sent : List Sent) → All (Over channel) sent → Following (some channel) sent
Over-Following channel [] h = tt
Over-Following channel (opened other ∷ sent) h = absurd h.0
Over-Following channel (asked_identity other token ∷ sent) h =
    (ap some (sym h.0), Over-Following channel sent h.1)
Over-Following channel (asked_watch other token ∷ sent) h =
    (ap some (sym h.0), Over-Following channel sent h.1)

pub Following-append :
    (current : Option Channel) (sent later : List Sent)
    → Following current sent
    → ((next : Option Channel) → Following next later)
    → Following current (sent ++ later)
Following-append current [] later h k = k current
Following-append current (opened channel ∷ sent) later h k =
    Following-append (some channel) sent later h k
Following-append current (asked_identity channel token ∷ sent) later h k =
    (h.0, Following-append current sent later h.1 k)
Following-append current (asked_watch channel token ∷ sent) later h k =
    (h.0, Following-append current sent later h.1 k)

-- An attempt that opens a channel before its requests, whatever was opened before it.
pub record Opens {A : Type 0} (m : Attempt A) : Type 0 where
  pub opens : (current : Option Channel) → Following current m.0

module _ {A B : Type 0} where
  quiet-Opens :
      (m : Attempt A) (f : A → Attempt B)
      → Sends (λ s. ⊥) m
      → ((a : A) → Opens (f a))
      → Opens (m >>= f)
  unfolding ◌>>=◌
  quiet-Opens ([], ok a) f quiet h = record { opens = (h a).opens }
  quiet-Opens ([], err e) f quiet h = record { opens = λ current. tt }
  quiet-Opens (s ∷ sent, ok a) f quiet h = absurd quiet.sends.0
  quiet-Opens (s ∷ sent, err e) f quiet h = absurd quiet.sends.0

send-Opens :
    {B : Type 0} (channel : Channel) (f : Unit {0} → Attempt B)
    → Sends (Over channel) (f tt)
    → Opens (send (opened channel) >>= f)
unfolding ◌>>=◌
send-Opens channel f h = record { opens = λ current. Over-Following channel (f tt).0 h.sends }

module _ {S : Type 0} (wire : Wire S) (cc : CcEndpoint) where
  check_version-Over :
      (channel : Channel) (allowed : Bool)
      → Sends (Over channel) (check_version wire cc channel allowed)
  unfolding check_version
  check_version-Over channel allowed =
      Sends-bind (send _) _ (Sends-send (asked_identity channel _) refl)
        λ _ _. pass_gate-Sends wire cc _ _

  pub try_connect-Opens : (t : Transport) → Opens (try_connect wire cc t)
  unfolding try_connect
  try_connect-Opens t = quiet-Opens (ensure _ _) _ (Sends-ensure _ _) λ _.
      quiet-Opens (choose_trust wire cc t) _ (choose_trust-Sends wire cc t) λ trust.
        quiet-Opens (ensure _ _) _ (Sends-ensure _ _) λ _.
          (let channel : Channel = record { uri = normalize_addr cc.addr t; trust = trust } in
            send-Opens channel _ (
              Sends-bind (ensure _ _) _ (Sends-ensure _ _) λ _ _.
                Sends-bind (check_version wire cc channel _) _ (check_version-Over channel _) λ v _.
                  Sends-bind (watch_token wire cc _) _ (watch_token-Sends wire cc _) λ token _.
                    Sends-bind (send _) _ (Sends-send (asked_watch channel token) refl) λ _ _.
                      Sends-bind (subscribed wire cc _) _ (subscribed-Sends wire cc _)
                        λ _ _. record { sends = tt }))

  or_next-Opens :
      (t : Transport) (m : Attempt (S × Str)) (rest : ConnectFailure → Attempt (Connected S))
      → Opens m
      → ((e : ConnectFailure) → Opens (rest e))
      → Opens (or_next (tag t m) rest)
  unfolding is_fatal
  or_next-Opens t (sent, ok c) rest h k = record { opens = h.opens }
  or_next-Opens t (sent, err (transport e)) rest h k = record {
    opens = λ current.
        Following-append current sent (rest (transport e)).0 (h.opens current)
          (k (transport e)).opens;
  }
  or_next-Opens t (sent, err auth) rest h k = record { opens = h.opens }
  or_next-Opens t (sent, err (unsupported message)) rest h k = record { opens = h.opens }

  try_each-Opens :
      (last : ConnectFailure) (plan : List Transport) → Opens (try_each wire cc last plan)
  unfolding try_each
  try_each-Opens last [] = record { opens = λ current. tt }
  try_each-Opens last (t ∷ plan) =
      or_next-Opens t (try_connect wire cc t) _ (try_connect-Opens t) λ e. try_each-Opens e plan

  pub negotiate-Opens : Opens (negotiate wire cc)
  unfolding negotiate
  negotiate-Opens = try_each-Opens (transport no_transport) (transport_plan cc.security)
