-- ===== src/State/Steps.antt =====
-- The steps of a capture, of ma-core/src/capture/session_state.rs, under the calls of the watch
-- loop.
use memory_archive.Prelude.{
  Bool-cases, is_empty, inl, inr, not, ◌&&◌, append_assoc, length-append, ◌≤◌, ap, sym, ◌∙◌, refl,
  ◌==◌, length, ℕ, ◌+◌, ◌^◌, ◌<◌, ◌≡◌, List, [], ◌∷◌, ◌++◌, append-nil, arith,
}
use memory_archive.State.{
  record_agent_version, StepEntry, CaptureState, append_step, Frame, update_first,
  update_step_image, append_skipped_fetch, update_kafka_position, Change, append, image, skipped,
  version, position, change, changes, appended_ids, ids,
}
use memory_archive.Text.{Str}

update_first-ids :
    (step_id : ℕ) (frame : Frame) (entries : List StepEntry)
    → ids (update_first step_id frame entries) ≡ ids entries
unfolding update_first
update_first-ids step_id frame [] = refl
update_first-ids step_id frame (entry ∷ entries) = elim (Bool-cases (entry.step_id == step_id)) [
  | inl found ↦ rw found refl
  | inr other ↦
      rw other (ap (λ rest. entry.step_id ∷ rest) (update_first-ids step_id frame entries))
]

ids-append : (xs ys : List StepEntry) → ids (xs ++ ys) ≡ ids xs ++ ids ys
ids-append [] ys = refl
ids-append (x ∷ xs) ys = ap (λ rest. x.step_id ∷ rest) (ids-append xs ys)

length-ids : (xs : List StepEntry) → length (ids xs) ≡ length xs
length-ids [] = refl
length-ids (x ∷ xs) = omega (arith, length-ids xs)

-- The numbers that a call appends, and how the count of steps follows it.
abbrev one_id : Change → List ℕ
one_id c = appended_ids (c ∷ [])

record Keeps (c : Change) (s t : CaptureState) : Type 0 where
  listed : ids t.steps ≡ ids s.steps ++ one_id c
  counted : t.total_steps ≡ s.total_steps + length (one_id c)

record_agent_version-steps :
    (v : Str) (s : CaptureState)
    → ((record_agent_version v s).steps ≡ s.steps)
      × ((record_agent_version v s).total_steps ≡ s.total_steps)
unfolding record_agent_version
record_agent_version-steps v s =
    elim (Bool-cases (is_empty s.actuation_agent_version && not (is_empty v))) [
      | inl first ↦ rw first (refl, refl)
      | inr known ↦ rw known (refl, refl)
    ]

change-Keeps : (c : Change) (s : CaptureState) → s.total_steps + 1 < 2 ^ 32 → Keeps c s (change c s)
unfolding change append_step update_step_image append_skipped_fetch update_kafka_position
change-Keeps (append step) s h = record {
  listed = ids-append s.steps (step ∷ []);
  counted = omega arith;
}
change-Keeps (image step_id frame) s h = record {
  listed = update_first-ids step_id frame s.steps ∙ sym (append-nil (ids s.steps));
  counted = omega arith;
}
change-Keeps (skipped step_id reason) s h = record {
  listed = sym (append-nil (ids s.steps));
  counted = omega arith;
}
change-Keeps (position partition offset) s h = record {
  listed = sym (append-nil (ids s.steps));
  counted = omega arith;
}
change-Keeps (version v) s h =
    let (same_steps, same_total) = record_agent_version-steps v s in
    record {
      listed = ap ids same_steps ∙ sym (append-nil (ids s.steps));
      counted = same_total ∙ omega arith;
    }

one_id-short : (c : Change) → length (one_id c) ≤ 1
one_id-short (append step) = omega arith
one_id-short (image step_id frame) = omega arith
one_id-short (skipped step_id reason) = omega arith
one_id-short (version v) = omega arith
one_id-short (position partition offset) = omega arith

appended_ids-cons :
    (c : Change) (cs : List Change) → appended_ids (c ∷ cs) ≡ one_id c ++ appended_ids cs
appended_ids-cons (append step) cs = refl
appended_ids-cons (image step_id frame) cs = refl
appended_ids-cons (skipped step_id reason) cs = refl
appended_ids-cons (version v) cs = refl
appended_ids-cons (position partition offset) cs = refl

-- Over any calls of the watch loop that do not overflow the counter of 32 bits, the steps keep
-- their numbers and their order, each appended step comes behind them, and `total_steps` counts
-- them: images, skipped fetches and provenance add and lose none.
pub changes-ids :
    (cs : List Change) (s : CaptureState)
    → s.total_steps ≡ length s.steps
    → s.total_steps + length cs < 2 ^ 32
    → (ids (changes cs s).steps ≡ ids s.steps ++ appended_ids cs)
      × ((changes cs s).total_steps ≡ length (changes cs s).steps)
unfolding changes
changes-ids [] s e h = (sym (append-nil (ids s.steps)), e)
changes-ids (c ∷ cs) s e h =
    let t = change c s in
    let k = change-Keeps c s (omega arith) in
    let counts : t.total_steps ≡ length t.steps = omega (
      arith,
      k.counted,
      ap length k.listed,
      length-append (ids s.steps) (one_id c),
      length-ids s.steps,
      length-ids t.steps,
    ) in
    let rest = changes-ids cs t counts (omega (arith, k.counted, one_id-short c)) in
    (
      rest.0
          ∙ ap (λ xs. xs ++ appended_ids cs) k.listed
          ∙ append_assoc (ids s.steps) (one_id c) (appended_ids cs)
          ∙ ap (λ xs. ids s.steps ++ xs) (sym (appended_ids-cons c cs)),
      rest.1,
    )
