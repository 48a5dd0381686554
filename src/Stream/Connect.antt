-- ===== src/Stream/Connect.antt =====
-- `WatchStream::negotiate` and `WatchStream::connect` of ma-core/src/capture/stream.rs: the
-- transports that the policy permits, safest first, and the retries with their delays. Each
-- attempt meets its own `Wire`: the server may change between two of them.
use Prim.Native.Nat.{min}
use memory_archive.Prelude.{
  leb, if◌then◌else◌, ℕ, zero, suc, ◌+◌, ◌-◌, ◌*◌, ◌%◌, ◌^◌, Bool, true, false, ◌||◌, Option, none,
  some, List, [], ◌∷◌, ◌++◌,
}
use memory_archive.Prelude.Result.{Result, ok, err}
use memory_archive.Text.{Str}
use memory_archive.Stream.{
  no_transport, Transport, transport_plan, CcEndpoint, ConnectFailure, transport, auth, unsupported,
  Wire, Sent, Attempt, fail, try_connect,
}

-- the failures that another transport, or another try, cannot help
unfoldable pub is_fatal : ConnectFailure → Bool
is_fatal (transport e) = false
is_fatal auth = true
is_fatal (unsupported message) = true

abbrev pub Connected : Type 0 → Type 0
Connected S = S × Transport × Str

abbrev pub tag : {S : Type 0} → Transport → Attempt (S × Str) → Attempt (Connected S)
tag t (sent, ok (stream, server_version)) = (sent, ok (stream, t, server_version))
tag t (sent, err e) = (sent, err e)

-- the loop's body: go on with `rest` unless the attempt settled the matter
abbrev pub or_next :
    {S : Type 0}
    → Attempt (Connected S)
    → (ConnectFailure → Attempt (Connected S))
    → Attempt (Connected S)
or_next (sent, ok c) rest = (sent, ok c)
or_next (sent, err e) rest =
    if is_fatal e then (sent, err e) else (let (later, r) = rest e in (sent ++ later, r))

module _ {S : Type 0} (wire : Wire S) (cc : CcEndpoint) where
  unfoldable pub try_each : ConnectFailure → List Transport → Attempt (Connected S)
  try_each last [] = fail last
  try_each last (t ∷ plan) = or_next (tag t (try_connect wire cc t)) (λ e. try_each e plan)

  unfoldable pub negotiate : Attempt (Connected S)
  unfolding try_each
  negotiate = try_each (transport no_transport) (transport_plan cc.security)

abbrev pub max_attempts : ℕ
max_attempts = 10

-- a bound on the rounds of `connect` that the source does not have
abbrev pub max_rounds : ℕ
max_rounds = 20

abbrev pub base_delay_ms : ℕ
base_delay_ms = 500

abbrev pub max_delay_ms : ℕ
max_delay_ms = 30000

-- Exponential backoff before the attempt after this one. `1 << (attempt - 1)` is a shift of a
-- 64-bit number.
unfoldable pub delay_ms : ℕ → ℕ
delay_ms attempt = min (base_delay_ms * 2 ^ (attempt - 1) % 2 ^ 64) max_delay_ms

-- One attempt that `connect` made, and the pause after it.
pub record Try : Type 0 where
  pub sent : List Sent
  pub slept : Option ℕ

abbrev pub Report : Type 0 → Type 0
Report S = List Try × Result ConnectFailure (Connected S)

module _ {S : Type 0} (wires : ℕ → Wire S) (cc : CcEndpoint) where
  abbrev pub retry : ℕ → Attempt (Connected S) → Report S → Report S
  retry attempt (sent, ok c) later = (record { sent = sent; slept = none } ∷ [], ok c)
  retry attempt (sent, err e) (tries, r) =
      if is_fatal e || leb max_attempts attempt
      then (record { sent = sent; slept = none } ∷ [], err e)
      else (record { sent = sent; slept = some (delay_ms attempt) } ∷ tries, r)

  -- `attempt` is the number of this round; `rounds` bounds the rounds after it.
  unfoldable pub connect_from : (rounds attempt : ℕ) → Report S
  unfolding is_fatal delay_ms
  connect_from zero attempt = ([], err (transport no_transport))
  connect_from (suc rounds) attempt =
      let later = connect_from rounds (attempt + 1) in
      retry attempt (negotiate (wires attempt) cc) later

  -- `WatchStream::connect`: the loop ends itself, by its test of `max_attempts`, before the rounds
  -- run out.
  unfoldable pub connect : Report S
  unfolding connect_from
  connect = connect_from max_rounds 1
