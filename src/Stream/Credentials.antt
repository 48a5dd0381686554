-- ===== src/Stream/Credentials.antt =====
-- What a connection may send: the token only over TLS or in the clear by the operator's own
-- choice, the platform's roots only where no CA is pinned, each transport only where the policy
-- has it.
use memory_archive.Prelude.{
  leb, Bool-cases, is_empty, All, All-append, ℕ, zero, suc, ◌+◌, ◌≡◌, refl, subst, ◌⊎◌, inl, inr,
  Bool, true, false, ◌||◌, Option, none, some, List, [], ◌∷◌, arith,
}
use memory_archive.Stream.Channels.{Following, negotiate-Opens}
use memory_archive.Prelude.Result.{ok, err}
use memory_archive.Text.{Str, codes, strip_prefix-append}
use memory_archive.Text.Search.{starts_with}
use memory_archive.Stream.{
  scheme, bare_addr, Channel, require_value, choose_trust, header_or_none, watch_token, subscribed,
  CcSecurity, auto, strict, legacy, Transport, tls, plaintext, transport_plan, normalize_addr,
  CcEndpoint, ConnectFailure, transport, auth, unsupported, Trust, no_tls, enabled_roots,
  ca_certificate, Wire, Sent, opened, asked_identity, asked_watch, Attempt, ◌>>=◌, ensure, send,
  credentials_allowed, bearer, check_version, try_connect,
}
use memory_archive.Stream.Sends.{
  Sends, Sends-bind, Sends-ensure, Sends-send, choose_trust-Sends, pass_gate-Sends,
  watch_token-Sends, subscribed-Sends,
}
use memory_archive.Stream.Connect.{
  is_fatal, Connected, tag, or_next, try_each, negotiate, max_attempts, max_rounds, Try, Report,
  retry, connect_from, connect,
}

-- the transports of a policy
abbrev pub permits : CcSecurity → Transport → Bool
permits strict plaintext = false
permits legacy tls = false
permits _ _ = true

-- The scheme by which tonic speaks TLS, or does not.
abbrev pub scheme_of : Trust → Str
scheme_of no_tls = codes "http://"
scheme_of _ = codes "https://"

-- A token goes over a channel whose URI begins with `https://`; in the clear it is for `legacy`
-- alone.
abbrev pub MayCarry : CcSecurity → (uri : Str) → Option Str → Type 0
MayCarry security uri none = Unit
MayCarry security uri (some token) =
    (starts_with (codes "https://") uri ≡ true) ⊎ (security ≡ legacy)

-- A TLS channel trusts the platform's roots only if no CA is configured.
abbrev pub MayTrust : CcEndpoint → Trust → Type 0
MayTrust cc no_tls = permits cc.security plaintext ≡ true
MayTrust cc enabled_roots = (permits cc.security tls ≡ true) × (is_empty cc.tls_ca ≡ true)
MayTrust cc (ca_certificate pem) = (permits cc.security tls ≡ true) × (is_empty cc.tls_ca ≡ false)

-- The URI of a channel has the scheme that its trust asks for.
abbrev pub MayOpen : CcEndpoint → Channel → Type 0
MayOpen cc channel =
    MayTrust cc channel.trust × (starts_with (scheme_of channel.trust) channel.uri ≡ true)

abbrev pub MaySend : CcEndpoint → Sent → Type 0
MaySend cc (opened channel) = MayOpen cc channel
MaySend cc (asked_identity channel token) =
    MayOpen cc channel × MayCarry cc.security channel.uri token
MaySend cc (asked_watch channel token) = MayOpen cc channel × MayCarry cc.security channel.uri token

plan_permitted : (s : CcSecurity) → All (λ t. permits s t ≡ true) (transport_plan s)
unfolding transport_plan
plan_permitted auto = (refl, (refl, tt))
plan_permitted strict = (refl, tt)
plan_permitted legacy = (refl, tt)

module _ {S : Type 0} (wire : Wire S) (cc : CcEndpoint) where
  abbrev Good : {A : Type 0} → Attempt A → Type 0
  Good m = Sends (MaySend cc) m

  choose_trust-MayTrust :
      (t : Transport) {trust : Trust}
      → permits cc.security t ≡ true
      → (choose_trust wire cc t).1 ≡ ok trust
      → MayTrust cc trust
  unfolding choose_trust
  choose_trust-MayTrust plaintext p h = ground arith
  choose_trust-MayTrust tls p h = ground arith

  normalize_addr-scheme : (t : Transport) → starts_with (scheme t) (normalize_addr cc.addr t) ≡ true
  unfolding normalize_addr starts_with
  normalize_addr-scheme t = rw (strip_prefix-append (scheme t) (bare_addr cc.addr)) refl

  choose_trust-scheme :
      (t : Transport) {trust : Trust}
      → (choose_trust wire cc t).1 ≡ ok trust
      → scheme t ≡ scheme_of trust
  unfolding choose_trust scheme
  choose_trust-scheme plaintext h = ground arith
  choose_trust-scheme tls h = ground arith

  -- What `try_connect` opens.
  choose_trust-MayOpen :
      (t : Transport) (trust : Trust)
      → permits cc.security t ≡ true
      → (choose_trust wire cc t).1 ≡ ok trust
      → MayOpen cc (record { uri = normalize_addr cc.addr t; trust = trust })
  choose_trust-MayOpen t trust p h = (
    choose_trust-MayTrust t p h,
    subst (λ s. starts_with s (normalize_addr cc.addr t) ≡ true) (choose_trust-scheme t h)
        (normalize_addr-scheme t),
  )

  tls-MayCarry :
      (uri : Str) (o : Option Str)
      → starts_with (codes "https://") uri ≡ true
      → MayCarry cc.security uri o
  tls-MayCarry uri none h = tt
  tls-MayCarry uri (some token) h = inl h

  bearer_plaintext :
      (s : CcSecurity) (uri : Str)
      → cc.security ≡ s
      → MayCarry cc.security uri (bearer wire cc (credentials_allowed s plaintext))
  unfolding bearer credentials_allowed
  bearer_plaintext auto uri e = tt
  bearer_plaintext strict uri e = tt
  bearer_plaintext legacy uri e = elim (Bool-cases (is_empty cc.token)) [
    | inl blank ↦ rw blank tt
    | inr set ↦ rw set (inr e)
  ]

  -- A token is bound for a request only where it may travel.
  bearer-MayCarry :
      (t : Transport)
      → MayCarry cc.security
          (normalize_addr cc.addr t)
          (bearer wire cc (credentials_allowed cc.security t))
  bearer-MayCarry tls =
      tls-MayCarry (normalize_addr cc.addr tls) _ (unfold scheme in normalize_addr-scheme tls)
  bearer-MayCarry plaintext = bearer_plaintext cc.security (normalize_addr cc.addr plaintext) refl

  header_or_none-MayCarry :
      (uri : Str) (o : Option Str)
      → MayCarry cc.security uri o
      → MayCarry cc.security uri (header_or_none wire cc o)
  unfolding header_or_none
  header_or_none-MayCarry uri none h = tt
  header_or_none-MayCarry uri (some value) h = elim (Bool-cases (wire.is_header_value value)) [
    | inl valid ↦ rw valid h
    | inr invalid ↦ rw invalid tt
  ]

  check_version-Good :
      (t : Transport) (trust : Trust)
      → MayOpen cc (record { uri = normalize_addr cc.addr t; trust = trust })
      → Good (
          check_version wire cc
            (record { uri = normalize_addr cc.addr t; trust = trust })
            (credentials_allowed cc.security t))
  unfolding check_version
  check_version-Good t trust p =
      Sends-bind (send _) _
        (Sends-send (asked_identity _ _) (p, header_or_none-MayCarry _ _ (bearer-MayCarry t)))
        λ _ _. pass_gate-Sends wire cc _ _

  require_value_same :
      (o : Option Str) {token : Option Str} → (require_value wire cc o).1 ≡ ok token → o ≡ token
  unfolding require_value ◌>>=◌
  require_value_same none h = ground arith
  require_value_same (some value) h = ground arith

  watch_token-MayCarry :
      (t : Transport) (token : Option Str)
      → (watch_token wire cc (credentials_allowed cc.security t)).1 ≡ ok token
      → MayCarry cc.security (normalize_addr cc.addr t) token
  unfolding watch_token
  watch_token-MayCarry t token h =
      subst (MayCarry cc.security (normalize_addr cc.addr t)) (require_value_same _ h)
        (bearer-MayCarry t)

  try_connect-Good : (t : Transport) → permits cc.security t ≡ true → Good (try_connect wire cc t)
  unfolding try_connect
  try_connect-Good t p = Sends-bind (ensure _ _) _ (Sends-ensure _ _) λ _ _.
      Sends-bind (choose_trust wire cc t) _ (choose_trust-Sends wire cc t) λ trust trusted.
        Sends-bind (ensure _ _) _ (Sends-ensure _ _) λ _ _.
          (let open_ok = choose_trust-MayOpen t trust p trusted in
            Sends-bind (send _) _ (Sends-send (opened _) open_ok) λ _ _.
              Sends-bind (ensure _ _) _ (Sends-ensure _ _) λ _ _.
                Sends-bind (check_version wire cc _ _) _ (check_version-Good t trust open_ok) λ v _.
                  Sends-bind (watch_token wire cc _) _ (watch_token-Sends wire cc _) λ token e.
                    Sends-bind (send _) _
                      (Sends-send (asked_watch _ token) (open_ok, watch_token-MayCarry t token e))
                      λ _ _.
                        Sends-bind (subscribed wire cc _) _ (subscribed-Sends wire cc _)
                          λ _ _. record { sends = tt })

  or_next-Good :
      (t : Transport) (m : Attempt (S × Str)) (rest : ConnectFailure → Attempt (Connected S))
      → Good m
      → ((e : ConnectFailure) → Good (rest e))
      → Good (or_next (tag t m) rest)
  unfolding is_fatal
  or_next-Good t (sent, ok c) rest h k = record { sends = h.sends }
  or_next-Good t (sent, err (transport e)) rest h k = record {
    sends = All-append (MaySend cc) sent (rest (transport e)).0 h.sends (k (transport e)).sends;
  }
  or_next-Good t (sent, err auth) rest h k = record { sends = h.sends }
  or_next-Good t (sent, err (unsupported message)) rest h k = record { sends = h.sends }

  try_each-Good :
      (last : ConnectFailure) (plan : List Transport)
      → All (λ t. permits cc.security t ≡ true) plan
      → Good (try_each wire cc last plan)
  unfolding try_each
  try_each-Good last [] h = record { sends = tt }
  try_each-Good last (t ∷ plan) h =
      or_next-Good t (try_connect wire cc t) _ (try_connect-Good t h.0)
        λ e. try_each-Good e plan h.1

  negotiate-Good : Good (negotiate wire cc)
  unfolding negotiate
  negotiate-Good = try_each-Good _ _ (plan_permitted cc.security)

module _ {S : Type 0} (wires : ℕ → Wire S) (cc : CcEndpoint) where
  abbrev IsSent : List Sent → Type 0
  IsSent sent = All (MaySend cc) sent × Following none sent

  abbrev AllSent : List Try → Type 0
  AllSent = All (λ t. IsSent t.sent)

  retry-AllSent :
      (attempt : ℕ) (m : Attempt (Connected S)) (later : Report S)
      → IsSent m.0
      → AllSent later.0
      → AllSent (retry wires cc attempt m later).0
  retry-AllSent attempt (sent, ok c) later h k = (h, tt)
  retry-AllSent attempt (sent, err e) (tries, r) h k =
      elim (Bool-cases (is_fatal e || leb max_attempts attempt)) [
        | inl last ↦ rw last (h, tt)
        | inr again ↦ rw again (h, k)
      ]

  connect_from-AllSent : (rounds attempt : ℕ) → AllSent (connect_from wires cc rounds attempt).0
  unfolding connect_from
  connect_from-AllSent zero attempt = tt
  connect_from-AllSent (suc rounds) attempt =
      retry-AllSent attempt (negotiate (wires attempt) cc)
        (connect_from wires cc rounds (attempt + 1))
        ((negotiate-Good (wires attempt) cc).sends, (negotiate-Opens (wires attempt) cc).opens none)
        (connect_from-AllSent rounds (attempt + 1))

  -- In all the attempts of a `connect`, whatever the servers do: each request goes over the channel
  -- that was opened last before it in the attempt; it carries a token only if that channel's URI
  -- begins with https://, or under `legacy`; a channel's URI begins with https:// if a trust is set
  -- for it and with http:// if none is; the platform's roots are trusted only if no CA is configured,
  -- and a CA only if one is; under `strict` no channel is in the clear, and under `legacy` none has
  -- TLS.
  pub connect-MaySend :
      All (λ t. All (MaySend cc) t.sent × Following none t.sent) (connect wires cc).0
  unfolding connect
  connect-MaySend = connect_from-AllSent max_rounds 1
