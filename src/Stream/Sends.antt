-- ===== src/Stream/Sends.antt =====
-- What an attempt sends, by the way it is put together.
use memory_archive.Prelude.{
  All, All-append, ◌≡◌, refl, Bool, true, false, Option, none, some, arith,
}
use memory_archive.Prelude.Result.{Result, ok, err}
use memory_archive.Text.{Str}
use memory_archive.Compat.{Compat}
use memory_archive.Stream.{
  require_value, choose_trust, pass_gate, watch_token, subscribed, Transport, tls, plaintext,
  CcEndpoint, TransportError, Code, credentials, other, Wire, Sent, Attempt, ◌>>=◌, ensure, send,
  bearer,
}

-- All that an attempt sends is allowed, whether it ends well or not.
pub record Sends {A : Type 0} (P : Sent → Type 0) (m : Attempt A) : Type 0 where
  pub sends : All P m.0

module _ {A B : Type 0} {P : Sent → Type 0} where
  pub Sends-bind :
      (m : Attempt A) (f : A → Attempt B)
      → Sends P m
      → ((a : A) → m.1 ≡ ok a → Sends P (f a))
      → Sends P (m >>= f)
  unfolding ◌>>=◌
  Sends-bind (sent, ok a) f hm hf = record {
    sends = All-append P sent (f a).0 hm.sends (hf a refl).sends;
  }
  Sends-bind (sent, err e) f hm hf = record { sends = hm.sends }

module _ {P : Sent → Type 0} where
  pub Sends-ensure : (b : Bool) (e : TransportError) → Sends P (ensure b e)
  Sends-ensure true e = record { sends = tt }
  Sends-ensure false e = record { sends = tt }

  pub Sends-send : (s : Sent) → P s → Sends P (send s)
  Sends-send s h = record { sends = (h, tt) }

-- The steps that send nothing meet every condition.
module _ {S : Type 0} (wire : Wire S) (cc : CcEndpoint) {P : Sent → Type 0} where
  pub choose_trust-Sends : (t : Transport) → Sends P (choose_trust wire cc t)
  unfolding choose_trust
  choose_trust-Sends tls = ground arith
  choose_trust-Sends plaintext = record { sends = tt }

  pub pass_gate-Sends : (verdict : Compat) (o : Option Str) → Sends P (pass_gate wire cc verdict o)
  unfolding pass_gate
  pass_gate-Sends verdict none = record { sends = tt }
  pass_gate-Sends verdict (some message) = ground arith

  pub require_value-Sends : (o : Option Str) → Sends P (require_value wire cc o)
  unfolding require_value
  require_value-Sends none = record { sends = tt }
  require_value-Sends (some value) =
      Sends-bind (ensure _ _) _ (Sends-ensure _ _) λ _ _. record { sends = tt }

  pub watch_token-Sends : (b : Bool) → Sends P (watch_token wire cc b)
  unfolding watch_token
  watch_token-Sends b = require_value-Sends (bearer wire cc b)

  pub subscribed-Sends : (r : Result Code S) → Sends P (subscribed wire cc r)
  unfolding subscribed
  subscribed-Sends (ok s) = record { sends = tt }
  subscribed-Sends (err credentials) = record { sends = tt }
  subscribed-Sends (err other) = record { sends = tt }
