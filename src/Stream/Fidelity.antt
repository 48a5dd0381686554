-- ===== src/Stream/Fidelity.antt =====
-- What `WatchStream::next_event` gives the recorder: never a heartbeat, and without the operator's
-- override never an event of an agent that is known to store a damaged record.
use memory_archive.Prelude.{
  Bool-cases, is_some, is_empty, ◌≡◌, refl, sym, ap, subst, ◌∙◌, ◌⊎◌, inl, inr, Bool, true, false,
  not, ◌&&◌, Option, none, some, List, [], ◌∷◌, arith,
}
use memory_archive.Text.{Str, str_eq, str_eq_iff}
use memory_archive.Text.Trim.{trim}
use memory_archive.Event.{CommandEvent}
use memory_archive.Compat.{evaluate_agent, agent_refusal}
use memory_archive.Stream.Watch.{
  Message, elapsed, closed, failed, arrived, WatchStream, gate, check_agent, Next, deliver,
  next_event,
}

-- An agent version that the gate does not refuse.
abbrev pub Accepted : Str → Type 0
Accepted found = agent_refusal (evaluate_agent found) ≡ none

-- What holds between two calls of `next_event`.
abbrev pub Checked : WatchStream → Type 0
Checked ws =
    (ws.allow_unsupported ≡ false)
    × ((ws.checked_agent_version ≡ []) ⊎ Accepted ws.checked_agent_version)

-- An event that may be recorded.
abbrev pub Trusted : CommandEvent → Type 0
Trusted event =
    (event.is_heartbeat ≡ false) × ((trim event.agent_version ≡ []) ⊎ Accepted event.agent_version)

-- What a call promises, by what it returns.
abbrev pub Promise : Next → Type 0
Promise (ws, none, rest) = is_some ws.disconnect_reason ≡ true
Promise (ws, some event, rest) = Checked ws × Trusted event

-- A version that the gate does not look at: it is blank, or it was evaluated before.
abbrev Skipped : WatchStream → Str → Type 0
Skipped ws found =
    (not (is_empty (trim found)) && not (str_eq found ws.checked_agent_version)) ≡ false

is_empty-eq_nil : (s : Str) → is_empty s ≡ true → s ≡ []
is_empty-eq_nil [] h = refl
is_empty-eq_nil (c ∷ s) h = absurd (ground arith)

trim-nil : trim [] ≡ []
unfolding trim
trim-nil = refl

Skipped-Accepted :
    (ws : WatchStream) (found : Str)
    → Checked ws
    → Skipped ws found
    → (trim found ≡ []) ⊎ Accepted found
Skipped-Accepted ws found h skipped = elim (Bool-cases (is_empty (trim found))) [
  | inl blank ↦ inl (is_empty-eq_nil (trim found) blank)
  | inr solid ↦
      let same : found ≡ ws.checked_agent_version =
        (str_eq_iff found ws.checked_agent_version).0 (ground arith) in
      elim h.1 [
        | inl unset ↦ inl (ap trim (same ∙ unset) ∙ trim-nil)
        | inr accepted ↦ inr (subst Accepted (sym same) accepted)
      ]
]

gate_passed :
    (ws : WatchStream) (o : Option Str)
    → ws.allow_unsupported ≡ false
    → (gate ws o).1 ≡ true
    → (o ≡ none) × ((gate ws o).0 ≡ ws)
unfolding gate
gate_passed ws none strictly go = (refl, refl)
gate_passed ws (some message) strictly go = ground arith

check_agent-Checked :
    (ws : WatchStream) (found : Str)
    → Checked ws
    → (check_agent ws found).1 ≡ true
    → Checked (check_agent ws found).0 × ((trim found ≡ []) ⊎ Accepted found)
unfolding check_agent
check_agent-Checked ws found h go =
    elim (Bool-cases (not (is_empty (trim found)) && not (str_eq found ws.checked_agent_version))) [
      | inl evaluated ↦
          let (accepted, same) =
            gate_passed (record ws { checked_agent_version = found })
              (agent_refusal (evaluate_agent found)) h.0 (rw (evaluated, check_agent) at go) in
          rw evaluated (subst Checked (sym same) (h.0, inr accepted), inr accepted)
      | inr skipped ↦ rw skipped (h, Skipped-Accepted ws found h skipped)
    ]

-- A stream that the gate ends has its reason.
check_agent_ended :
    (ws : WatchStream) (found : Str)
    → (check_agent ws found).1 ≡ false
    → is_some (check_agent ws found).0.disconnect_reason ≡ true
unfolding check_agent gate
check_agent_ended ws found h = ground arith

deliver-Promise :
    (event : CommandEvent) (rest : List Message) (later : Next) (ws : WatchStream) (go : Bool)
    → (go ≡ true → Checked ws × ((trim event.agent_version ≡ []) ⊎ Accepted event.agent_version))
    → (go ≡ false → is_some ws.disconnect_reason ≡ true)
    → (go ≡ true → Promise later)
    → Promise (deliver event rest later (ws, go))
deliver-Promise event rest later ws false passed ended next = ended refl
deliver-Promise event rest later ws true passed ended next = elim (Bool-cases event.is_heartbeat) [
  | inl beat ↦ rw beat (next refl)
  | inr real ↦ rw real ((passed refl).0, (refl, (passed refl).1))
]

-- From a stream whose last evaluated agent version was accepted, without the override: a returned
-- event is no heartbeat, its agent version is blank or accepted by the fidelity gate, and the same
-- holds of the stream for the next call; where no event is returned the reason is set. The call
-- returns on every sequence of messages.
pub next_event-Promise :
    (ws : WatchStream) (messages : List Message) → Checked ws → Promise (next_event ws messages)
unfolding next_event
next_event-Promise ws [] h = refl
next_event-Promise ws (elapsed ∷ rest) h = refl
next_event-Promise ws (failed status ∷ rest) h = refl
next_event-Promise ws (closed ∷ rest) h = refl
next_event-Promise ws (arrived event ∷ rest) h =
    deliver-Promise event rest (next_event (check_agent ws event.agent_version).0 rest)
      (check_agent ws event.agent_version).0 (check_agent ws event.agent_version).1
      (check_agent-Checked ws event.agent_version h) (check_agent_ended ws event.agent_version)
      λ go.
        next_event-Promise (check_agent ws event.agent_version).0 rest
          (check_agent-Checked ws event.agent_version h go).0
