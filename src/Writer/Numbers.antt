-- ===== src/Writer/Numbers.antt =====
-- The step numbers that `write_event` of ma-core/src/capture/writer.rs gives.
use memory_archive.Text.{Str, codes}
use memory_archive.Prelude.{
  ◌%◌, ◌^◌, ◌<◌, sym, subst, unwrap_or, ap, ◌∙◌, Option-cases, ℕ, ◌≡◌, inl, inr, true, false,
  if◌then◌else◌, length, suc, ◌+◌, ◌≤◌, refl, ◌⊎◌, Bool, Option, none, some, List, [], ◌∷◌, arith,
}
use memory_archive.Event.{CommandEvent}
use memory_archive.Writer.{
  appended, Files, Session, Done, and_then, World, buffer_jsonl, write_local, write_cloud,
  buffer_cc_command, append_line, row, with_writer, buffer_raw, buffer_converted, append_json,
  step_if, write_event,
}
use memory_archive.Convert.Commands.{to_cc_command}

abbrev pub Counts : ℕ → Done → Type 0
Counts n d = d.0.writer.step_counter ≡ n

pub and_then-Counts :
    (n : ℕ) (d : Done) (next : Session → Done)
    → Counts n d
    → ((s : Session) → s.writer.step_counter ≡ n → Counts n (next s))
    → Counts n (and_then d next)
and_then-Counts n (s, true) next h f = f s h
and_then-Counts n (s, false) next h f = h

appended-Counts :
    (n : ℕ) (opens headed lined : Bool) (s : Session) (opened header whole : Files)
    → s.writer.step_counter ≡ n
    → Counts n (appended opens headed lined s opened header whole)
appended-Counts n false headed lined s opened header whole h = h
appended-Counts n true false lined s opened header whole h = h
appended-Counts n true true false s opened header whole h = h
appended-Counts n true true true s opened header whole h = h

pub if-Counts :
    (n : ℕ) (b : Bool) (x y : Done) → Counts n x → Counts n y → Counts n (if b then x else y)
if-Counts n true x y h k = h
if-Counts n false x y h k = k

-- The step that a call returns, if it returns one.
abbrev pub IsStep : ℕ → Session × Option ℕ → Type 0
IsStep n r = (r.0.writer.step_counter ≡ n) × ((r.1 ≡ none) ⊎ (r.1 ≡ some n))

step_if-IsStep : (n : ℕ) (d : Done) → Counts n d → IsStep n (step_if n d)
step_if-IsStep n (s, true) h = (h, inr refl)
step_if-IsStep n (s, false) h = (h, inl refl)

module _ (world : World) where
  buffer_jsonl-Counts :
      (n : ℕ) (event : CommandEvent) (s : Session)
      → s.writer.step_counter ≡ n
      → Counts n (buffer_jsonl world event s)
  unfolding buffer_jsonl
  buffer_jsonl-Counts n event s h = elim (Option-cases (world.event_json event)) [
    | inl e ↦ rw e h
    | inr (json, e) ↦ rw e h
  ]

  buffer_cc_command-Counts :
      (n step : ℕ) (event : CommandEvent) (s : Session)
      → s.writer.step_counter ≡ n
      → Counts n (buffer_cc_command world step event s)
  unfolding buffer_cc_command
  buffer_cc_command-Counts n step event s h =
      elim (Option-cases (world.entry_json step event.os_type (to_cc_command event))) [
        | inl e ↦ rw e h
        | inr (json, e) ↦ rw e h
      ]

  append_line-Counts :
      (n : ℕ) (name line : Str) (s : Session)
      → s.writer.step_counter ≡ n
      → Counts n (append_line world name line s)
  unfolding append_line
  append_line-Counts n name line s h = appended-Counts n (world.opens name) _ _ s _ _ _ h

  append_json-Counts :
      (n : ℕ) (name : Str) (s : Session) (o : Option Str)
      → s.writer.step_counter ≡ n
      → Counts n (append_json world name s o)
  append_json-Counts n name s none h = h
  append_json-Counts n name s (some json) h = append_line-Counts n name _ s h

  write_local-Counts :
      (n step : ℕ) (event : CommandEvent) (text : Str) (s : Session)
      → s.writer.step_counter ≡ n
      → Counts n (write_local world step event text s)
  unfolding write_local
  write_local-Counts n step event text s h =
      let raw = append_line world (codes "raw_input.md") (row step event event.raw_command) s in
      let converted = append_line world (codes "converted_input.md") (row step event text) in
      let jsonl : Session → Done =
        λ t. append_json world (codes "actuation_commands.json") t (world.event_json event) in
      let command : Session → Done = λ t.
        append_json world (codes "cc_commands.json") t
          (world.entry_json step event.os_type (to_cc_command event)) in
      and_then-Counts n (and_then (and_then raw converted) jsonl) command
        (and_then-Counts n (and_then raw converted) jsonl
          (and_then-Counts n raw converted (append_line-Counts n _ _ s h)
            (append_line-Counts n _ _))
          (λ t k. append_json-Counts n _ t (world.event_json event) k))
        (λ t k.
          append_json-Counts n _ t (world.entry_json step event.os_type (to_cc_command event)) k)

  write_cloud-Counts :
      (n step : ℕ) (event : CommandEvent) (text : Str) (s : Session)
      → s.writer.step_counter ≡ n
      → Counts n (write_cloud world step event text s)
  unfolding write_cloud
  write_cloud-Counts n step event text s h =
      let buffered =
        buffer_converted world step event text (buffer_raw world step event s.writer) in
      and_then-Counts n (buffer_jsonl world event (with_writer s buffered))
        (buffer_cc_command world step event)
        (buffer_jsonl-Counts n event (with_writer s buffered)
          (unfold buffer_converted buffer_raw in h))
        (buffer_cc_command-Counts n step event)

  pub write_event-IsStep :
      (event : CommandEvent) (text : Str) (s : Session)
      → IsStep ((s.writer.step_counter + 1) % 2 ^ 32) (write_event world event text s)
  unfolding write_event
  write_event-IsStep event text s =
      let n = (s.writer.step_counter + 1) % 2 ^ 32 in
      let counted = with_writer s (record s.writer { step_counter = n }) in
      step_if-IsStep n _ (
        if-Counts n s.writer.is_cloud_primary (write_cloud world n event text counted)
          (write_local world n event text counted) (write_cloud-Counts n n event text counted refl)
          (write_local-Counts n n event text counted refl))

-- The calls of a session: each meets its own world.
abbrev pub Call : Type 0
Call = World × CommandEvent × Str

abbrev pub issued : Option ℕ → List ℕ → List ℕ
issued none steps = steps
issued (some step) steps = step ∷ steps

-- The session after the calls, and the steps that they returned.
pub write_all : List Call → Session → Session × List ℕ
write_all [] s = (s, [])
write_all ((world, event, text) ∷ calls) s =
    let (t, step) = write_event world event text s in
    let (u, steps) = write_all calls t in (u, issued step steps)

-- Each number is greater than the one before it, from a first bound to a last.
abbrev pub Ascends : (low high : ℕ) → List ℕ → Type 0
Ascends low high [] = low ≤ high
Ascends low high (step ∷ steps) = (low < step) × Ascends step high steps

Ascends-lower :
    (low mid high : ℕ) (steps : List ℕ)
    → low ≤ mid
    → Ascends mid high steps
    → Ascends low high steps
Ascends-lower low mid high [] h a = omega arith
Ascends-lower low mid high (step ∷ steps) h a = (omega arith, a.1)

issued-Ascends :
    (low high : ℕ) (step : Option ℕ) (steps : List ℕ)
    → (step ≡ none) ⊎ (step ≡ some (low + 1))
    → Ascends (low + 1) high steps
    → Ascends low high (issued step steps)
issued-Ascends low high none steps h a = Ascends-lower low (low + 1) high steps (omega arith) a
issued-Ascends low high (some step) steps h a =
    let e : step ≡ low + 1 = elim h [
      | inl e ↦ absurd (ground arith)
      | inr e ↦ ap (unwrap_or 0) e
    ] in
    (omega arith, subst (λ k. Ascends k high steps) (sym e) a)

-- As long as the counter does not overflow its 32 bits, the steps that a session's calls return
-- ascend, above the counter before them and up to the counter after them, which has grown by one
-- for every call, also for one that failed.
pub write_all-Ascends :
    (calls : List Call) (s : Session)
    → s.writer.step_counter + length calls < 2 ^ 32
    → ((write_all calls s).0.writer.step_counter ≡ s.writer.step_counter + length calls)
      × Ascends s.writer.step_counter (s.writer.step_counter + length calls) (write_all calls s).1
unfolding write_all
write_all-Ascends [] s h = (omega arith, omega arith)
write_all-Ascends ((world, event, text) ∷ calls) s h =
    let low = s.writer.step_counter in
    let one = write_event world event text s in
    let later = write_all calls one.0 in
    let small : (low + 1) % 2 ^ 32 ≡ low + 1 = omega arith in
    let is_step : IsStep (low + 1) one =
      subst (λ n. IsStep n one) small (write_event-IsStep world event text s) in
    let rest = write_all-Ascends calls one.0 (omega (arith, is_step.0)) in
    let ascends : Ascends (low + 1) (low + 1 + length calls) later.1 =
      subst (λ n. Ascends n (n + length calls) later.1) is_step.0 rest.1 in
    (
      rest.0 ∙ omega (arith, is_step.0),
      issued-Ascends low (low + suc (length calls)) one.1 later.1 is_step.1
          (subst (λ n. Ascends (low + 1) n later.1) (omega arith) ascends),
    )
