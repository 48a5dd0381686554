-- ===== src/Stream/Backoff.antt =====
-- How often `WatchStream::connect` tries, and how long it waits between two tries.
use memory_archive.Prelude.{
  leb, Bool-cases, length, ℕ, zero, suc, ◌+◌, ◌≤◌, ◌<◌, ◌≡◌, refl, sym, ap, subst, ◌||◌, ◌∙◌, inl,
  inr, true, Option, none, some, List, [], ◌∷◌, map, arith,
}
use memory_archive.Prelude.Result.{Result, ok, err}
use memory_archive.Stream.{
  CcEndpoint, TransportError, ConnectFailure, transport, auth, unsupported, Wire, Sent, Attempt,
}
use memory_archive.Stream.Connect.{
  is_fatal, Connected, negotiate, max_attempts, delay_ms, Try, Report, retry, connect_from, connect,
}

-- The pauses of `n` tries from number `attempt` on: a delay after each but the last.
abbrev schedule : ℕ → ℕ → List (Option ℕ)
schedule zero attempt = []
schedule (suc zero) attempt = none ∷ []
schedule (suc (suc n)) attempt = some (delay_ms attempt) ∷ schedule (suc n) (attempt + 1)

abbrev pub slept : Try → Option ℕ
slept t = t.slept

-- What `rounds` rounds from number `attempt` on report.
record Paced {S : Type 0} (rounds attempt : ℕ) (r : Report S) : Type 0 where
  once : 0 < length r.0
  within : length r.0 ≤ rounds
  pauses : map slept r.0 ≡ schedule (length r.0) attempt
  exhausted : (e : TransportError) → r.1 ≡ err (transport e) → length r.0 ≡ rounds

module _ {S : Type 0} (wires : ℕ → Wire S) (cc : CcEndpoint) where
  last-Paced :
      (rounds attempt : ℕ) (sent : List Sent) (r : Result ConnectFailure (Connected S))
      → ((e : TransportError) → r ≡ err (transport e) → rounds ≡ 0)
      → Paced (suc rounds) attempt (record { sent = sent; slept = none } ∷ [], r)
  last-Paced rounds attempt sent r h = record {
    once = omega arith;
    within = omega arith;
    pauses = refl;
    exhausted = λ e p. omega (arith, h e p);
  }

  again-Paced :
      (rounds attempt : ℕ) (sent : List Sent) (tries : List Try)
      (r : Result ConnectFailure (Connected S))
      → Paced rounds (attempt + 1) (tries, r)
      → Paced
          (suc rounds)
          attempt
          (record { sent = sent; slept = some (delay_ms attempt) } ∷ tries, r)
  again-Paced rounds attempt sent [] r h = absurd (omega (arith, h.once))
  again-Paced rounds attempt sent (t ∷ tries) r h = record {
    once = omega arith;
    within = omega (arith, h.within);
    pauses = ap (λ ps. some (delay_ms attempt) ∷ ps) h.pauses;
    exhausted = λ e p. omega (arith, h.exhausted e p);
  }

  retry-Paced :
      (rounds attempt : ℕ) (m : Attempt (Connected S)) (later : Report S)
      → rounds + attempt ≡ max_attempts
      → (0 < rounds → Paced rounds (attempt + 1) later)
      → Paced (suc rounds) attempt (retry wires cc attempt m later)
  unfolding is_fatal
  retry-Paced rounds attempt (sent, ok c) later total h =
      last-Paced rounds attempt sent (ok c) λ e p. absurd (ground arith)
  retry-Paced rounds attempt (sent, err auth) later total h =
      last-Paced rounds attempt sent (err auth) λ e p. absurd (ground arith)
  retry-Paced rounds attempt (sent, err (unsupported message)) later total h =
      last-Paced rounds attempt sent (err (unsupported message)) λ e p. absurd (ground arith)
  retry-Paced rounds attempt (sent, err (transport e)) (tries, r) total h =
      elim (Bool-cases (leb max_attempts attempt)) [
        | inl last ↦
            rw last (last-Paced rounds attempt sent (err (transport e)) (λ _ _. ground arith))
        | inr more ↦ rw more (again-Paced rounds attempt sent tries r (h (ground arith)))
      ]

  connect_from-Paced :
      (rounds attempt : ℕ)
      → 0 < rounds
      → rounds + attempt ≡ max_attempts + 1
      → Paced rounds attempt (connect_from wires cc rounds attempt)
  unfolding connect_from
  connect_from-Paced zero attempt some_left total = absurd (omega arith)
  connect_from-Paced (suc rounds) attempt some_left total =
      retry-Paced rounds attempt (negotiate (wires attempt) cc)
        (connect_from wires cc rounds (attempt + 1)) (omega arith)
        (λ left. connect_from-Paced rounds (attempt + 1) left (omega arith))

  last_same :
      (attempt : ℕ) (m : Attempt (Connected S)) (later other : Report S)
      → max_attempts ≤ attempt
      → retry wires cc attempt m later ≡ retry wires cc attempt m other
  last_same attempt (sent, ok c) later other h = refl
  last_same attempt (sent, err e) (tries, r) (tries', r') h =
      let last : (is_fatal e || leb max_attempts attempt) ≡ true = ground arith in rw last refl

  -- The test of `max_attempts` ends the loop: rounds beyond it are not made.
  connect_from-enough :
      (n rounds attempt : ℕ)
      → 0 < n
      → n ≤ rounds
      → n + attempt ≡ max_attempts + 1
      → connect_from wires cc rounds attempt ≡ connect_from wires cc n attempt
  unfolding connect_from
  connect_from-enough zero rounds attempt some_left more total = absurd (omega arith)
  connect_from-enough (suc n) zero attempt some_left more total = absurd (omega arith)
  connect_from-enough (suc zero) (suc rounds) attempt some_left more total =
      last_same attempt (negotiate (wires attempt) cc) (connect_from wires cc rounds (attempt + 1))
        (connect_from wires cc 0 (attempt + 1)) (omega arith)
  connect_from-enough (suc (suc n)) (suc rounds) attempt some_left more total =
      ap (retry wires cc attempt (negotiate (wires attempt) cc))
        (connect_from-enough (suc n) rounds (attempt + 1) (omega arith) (omega arith) (omega arith))

  connect-ten : connect wires cc ≡ connect_from wires cc 10 1
  unfolding connect
  connect-ten = connect_from-enough 10 20 1 (omega arith) (omega arith) (omega arith)

  connect-Paced : Paced max_attempts 1 (connect wires cc)
  connect-Paced =
      subst (Paced max_attempts 1) (sym connect-ten)
        (connect_from-Paced 10 1 (omega arith) (omega arith))

  -- However many rounds of the loop are allowed, from ten on, it makes the same one to ten tries,
  -- whatever the servers do, and ends with the same result: it ends by its own test.
  pub connect_tries :
      (rounds : ℕ)
      → 10 ≤ rounds
      → (connect_from wires cc rounds 1 ≡ connect wires cc)
        × (0 < length (connect wires cc).0)
        × (length (connect wires cc).0 ≤ 10)
  connect_tries rounds enough = (
    connect_from-enough 10 rounds 1 (omega arith) enough (omega arith) ∙ sym connect-ten,
    connect-Paced.once,
    connect-Paced.within,
  )

  -- When `connect` gives up on a transport failure it has made ten tries, with pauses of 0.5, 1, 2,
  -- 4, 8 and 16 seconds and then three of 30 seconds between them, and none after the last.
  pub connect_pauses :
      (e : TransportError)
      → (connect wires cc).1 ≡ err (transport e)
      → map slept (connect wires cc).0
        ≡ some 500
          ∷ some 1000
          ∷ some 2000
          ∷ some 4000
          ∷ some 8000
          ∷ some 16000
          ∷ some 30000
          ∷ some 30000
          ∷ some 30000
          ∷ none
          ∷ []
  unfolding delay_ms
  connect_pauses e p = connect-Paced.pauses ∙ ap (λ n. schedule n 1) (connect-Paced.exhausted e p)
