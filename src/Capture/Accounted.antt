-- ===== src/Capture/Accounted.antt =====
-- The metadata that the watch loop of ma-core/src/capture/mod.rs keeps, over any events.
use memory_archive.Prelude.{
  if◌then◌else◌, Bool-cases, length, unwrap_or, is_some, is_empty, All, length-append, All-append,
  ℤ, ℕ, ◌+◌, ◌%◌, ◌^◌, ◌≤◌, ◌<◌, ◌≡◌, refl, sym, ap, subst, ◌∙◌, inl, inr, Bool, true, false, not,
  ◌&&◌, Option, none, some, List, [], ◌∷◌, ◌++◌, map, append-nil, arith,
}
use mathlib.Core.List.{map-append}
use memory_archive.Convert.Lines.{to_human_readable}
use memory_archive.Text.{Str, codes, str_eq}
use memory_archive.Writer
use memory_archive.Writer.{
  pipe, is_break, cell_char, md_cell, pad4, failed_prefix, row, Files, set_file, CommandWriter,
  Session, Done, and_then, World, with_writer, cloud_path, appended, step_if, buffer_raw,
  buffer_converted, buffer_line, buffer_jsonl, buffer_cc_command, append_line, append_json,
  write_local, write_cloud, write_event, put, flush_to_cloud, array_of_lines, put_array,
  finalise_jsonl_buf_cloud, finalise_jsonl_file, finalise,
}
use memory_archive.Writer.Numbers.{IsStep, write_event-IsStep}
use memory_archive.State.{
  StepEntry, CaptureState, record_agent_version, append_step, Frame, with_frame, update_step_image,
  append_skipped_fetch, update_kafka_position,
}
use memory_archive.Capture.{
  StepImageResult, Settings, Turn, Loop, emit_file_written, emit_optional, emit_command_files,
  with_position, step_entry, skip_reason, request_reasoning, illustrate, with_vision, with_click,
  recorded, take_turn, take_turns,
}
use memory_archive.Capture.Pending.{
  step_of, pending, pending-append, update_first-last, IsShown, Numbered, Numbered-append,
  Numbered-weaken, Numbered-below,
}
use memory_archive.Capture.Unchanged.{
  Same, Same-trans, emit_file_written-Same, emit_optional-Same, emit_command_files-Same,
  flush_if_due-Same, with_click-Same, request_reasoning-Same,
}

-- The steps of the metadata are numbered upwards to at most the recorder's counter, `total_steps`
-- counts them, and each has a path to its frame or is listed as skipped, once.
pub record IsAccounted (counter : ℕ) (s : CaptureState) : Type 0 where
  pub numbered : Numbered 0 counter s.steps
  pub counted : s.total_steps ≡ length s.steps
  pub bounded : s.total_steps ≤ counter
  pub shown : All IsShown s.steps
  pub listed : pending s.steps ≡ map step_of s.skipped_image_fetches

-- A new step, shown or listed as skipped.
module _ (counter : ℕ) (s : CaptureState) (entry : StepEntry) (a : IsAccounted counter s)
    (newer : counter < entry.step_id) (small : counter + 1 < 2 ^ 32) where
  one_more : (e : StepEntry) → (s.total_steps + 1) % 2 ^ 32 ≡ length (s.steps ++ e ∷ [])
  one_more e = omega (arith, a.bounded, a.counted, small, length-append s.steps (e ∷ []))

  skipped-IsAccounted :
      (reason : Str)
      → entry.image_fetched ≡ false
      → entry.image_path ≡ none
      → IsAccounted entry.step_id (append_skipped_fetch entry.step_id reason (append_step entry s))
  unfolding append_skipped_fetch append_step pending
  skipped-IsAccounted reason hidden no_path = record {
    numbered = Numbered-append 0 counter s.steps entry a.numbered newer;
    counted = one_more entry;
    bounded = omega (arith, a.bounded, newer, small);
    shown = All-append IsShown s.steps (entry ∷ []) a.shown (hidden ∙ sym (ap is_some no_path), tt);
    listed =
        pending-append s.steps (entry ∷ [])
        ∙ rw (a.listed, hidden) refl
        ∙ sym (
            map-append step_of s.skipped_image_fetches
              (record { step_id = entry.step_id; reason = reason } ∷ []));
  }

  shown-IsAccounted :
      (frame : Frame)
      → IsAccounted entry.step_id (update_step_image entry.step_id frame (append_step entry s))
  unfolding update_step_image append_step pending
  shown-IsAccounted frame =
      let e =
        update_first-last s.steps entry frame
          (Numbered-below 0 counter entry.step_id s.steps a.numbered newer) in
      record {
        numbered =
            rw e (Numbered-append 0 counter s.steps (with_frame frame entry) a.numbered newer);
        counted = rw e (one_more (with_frame frame entry));
        bounded = omega (arith, a.bounded, newer, small);
        shown = rw e (All-append IsShown s.steps (with_frame frame entry ∷ []) a.shown (refl, tt));
        listed = rw e (
            pending-append s.steps (with_frame frame entry ∷ [])
            ∙ append-nil (pending s.steps)
            ∙ a.listed);
      }

-- What follows from the state and the counter alone.
abbrev Accounts : Loop → Type 0
Accounts l = IsAccounted l.recorder.writer.step_counter l.state

Same-Accounts : {l m : Loop} → Same l m → Accounts l → Accounts m
Same-Accounts {l} {m} same a =
    subst (λ s. IsAccounted m.recorder.writer.step_counter s) (sym same.state)
      (subst (λ c. IsAccounted c l.state) (sym same.counter) a)

versioned-IsAccounted :
    (v : Str) (counter : ℕ) (s : CaptureState)
    → IsAccounted counter s
    → IsAccounted counter (record_agent_version v s)
unfolding record_agent_version
versioned-IsAccounted v counter s a =
    elim (Bool-cases (is_empty s.actuation_agent_version && not (is_empty v))) [
      | inl e ↦ rw e (record {
        numbered = a.numbered;
        counted = a.counted;
        bounded = a.bounded;
        shown = a.shown;
        listed = a.listed;
      })
      | inr e ↦ rw e a
    ]

positioned-IsAccounted :
    (partition offset : Option ℤ) (counter : ℕ) (s : CaptureState)
    → IsAccounted counter s
    → IsAccounted counter (with_position partition offset s)
unfolding with_position update_kafka_position
positioned-IsAccounted (some partition) (some offset) counter s a = record {
  numbered = a.numbered;
  counted = a.counted;
  bounded = a.bounded;
  shown = a.shown;
  listed = a.listed;
}
positioned-IsAccounted (some partition) none counter s a = a
positioned-IsAccounted none offset counter s a = a

later-IsAccounted :
    (counter higher : ℕ) (s : CaptureState)
    → counter ≤ higher
    → IsAccounted counter s
    → IsAccounted higher s
later-IsAccounted counter higher s h a = record {
  numbered = Numbered-weaken 0 counter higher s.steps a.numbered h;
  counted = a.counted;
  bounded = omega (arith, a.bounded, h);
  shown = a.shown;
  listed = a.listed;
}

if-Accounts : (b : Bool) (m n : Loop) → Accounts m → Accounts n → Accounts (if b then m else n)
if-Accounts true m n p q = p
if-Accounts false m n p q = q

taken_branch : (b : Bool) (m n : Loop) → b ≡ true → Accounts m → Accounts (if b then m else n)
taken_branch true m n e p = p
taken_branch false m n e p = cc

if-counter :
    (b : Bool) (m n : Loop) {k : ℕ}
    → m.recorder.writer.step_counter ≡ k
    → n.recorder.writer.step_counter ≡ k
    → (if b then m else n).recorder.writer.step_counter ≡ k
if-counter true m n p q = p
if-counter false m n p q = q

if-at_most :
    (b : Bool) (m n : Loop) (k : ℕ)
    → m.recorder.writer.step_counter ≤ k
    → n.recorder.writer.step_counter ≤ k
    → (if b then m else n).recorder.writer.step_counter ≤ k
if-at_most true m n k p q = p
if-at_most false m n k p q = q

no_wrap : (c : ℕ) → c + 1 < 2 ^ 32 → (c + 1) % 2 ^ 32 ≡ c + 1
no_wrap c h = omega arith

module _ (set : Settings) (t : Turn) where
  -- The loop after the vision pipeline, for a step that was just appended.
  illustrate-Accounts :
      (text : Str) (found : Option StepImageResult) (l : Loop) (s : CaptureState) (counter step : ℕ)
      → IsAccounted counter s
      → counter < step
      → counter + 1 < 2 ^ 32
      → l.recorder.writer.step_counter ≡ step
      → l.state ≡ append_step (step_entry step t.event text) s
      → Accounts (illustrate set t step text found l)
  unfolding illustrate step_entry
  illustrate-Accounts text none l s counter step a newer small c e =
      let entry = step_entry step t.event text in
      let reason = skip_reason set t.event in
      subst (λ n. IsAccounted n (append_skipped_fetch step reason l.state)) (sym c)
        (subst (λ st. IsAccounted step (append_skipped_fetch step reason st)) (sym e)
          (skipped-IsAccounted counter s entry a newer small reason refl refl))
  illustrate-Accounts text (some result) l s counter step a newer small c e =
      let entry = step_entry step t.event text in
      let frame = result.frame in
      let asked = request_reasoning set t step text result l in
      let same = request_reasoning-Same set t step text result l in
      let given = record asked { state = update_step_image step frame asked.state } in
      let base =
        subst (λ n. IsAccounted n (update_step_image step frame asked.state))
          (sym (same.counter ∙ c))
          (subst (λ st. IsAccounted step (update_step_image step frame st)) (sym (same.state ∙ e))
            (shown-IsAccounted counter s entry a newer small frame)) in
      let at = emit_file_written frame.image_path given in
      let before = emit_optional frame.before_image_path at in
      Same-Accounts
        (Same-trans (emit_file_written-Same frame.image_path given) (
          Same-trans (emit_optional-Same frame.before_image_path at)
            (emit_optional-Same frame.after_image_path before)))
        base

  -- The loop after the recorder was called for an event.
  recorded-Accounts :
      (text : Str) (ran : Session × Option ℕ) (l : Loop) (n : ℕ)
      → set.has_vision ≡ true
      → l.recorder.writer.step_counter < n
      → l.recorder.writer.step_counter + 1 < 2 ^ 32
      → IsStep n ran
      → Accounts l
      → Accounts (recorded set t text ran l)
  unfolding recorded with_vision
  recorded-Accounts text (recorder, none) l n seen newer small ran a =
      subst (λ c. IsAccounted c l.state) (sym ran.0)
        (later-IsAccounted l.recorder.writer.step_counter n l.state (omega arith) a)
  recorded-Accounts text (recorder, some step) l n seen newer small ran a =
      let at_step : step ≡ n = elim ran.1 [ inl e ↦ cc | inr e ↦ ap (unwrap_or 0) e ] in
      let called = record l { recorder = recorder } in
      let written = emit_command_files called in
      let same = emit_command_files-Same called in
      let entry = step_entry step t.event text in
      let appended_to = record written { state = append_step entry written.state } in
      let clicked = with_click set t appended_to in
      let click = with_click-Same set t appended_to in
      Same-Accounts (flush_if_due-Same set t _) (
        taken_branch set.has_vision _ _ seen (
          illustrate-Accounts text (t.vision t.event step clicked.last_click) clicked l.state
            l.recorder.writer.step_counter step a (omega (arith, at_step, newer)) small
            (click.counter ∙ same.counter ∙ ran.0 ∙ sym at_step)
            (click.state ∙ ap (append_step entry) same.state)))

  take_turn-Accounts :
      (l : Loop)
      → set.has_vision ≡ true
      → l.recorder.writer.step_counter + 1 < 2 ^ 32
      → Accounts l
      → Accounts (take_turn set t l)
  unfolding take_turn
  take_turn-Accounts l seen small a =
      let counter = l.recorder.writer.step_counter in
      let versioned = record_agent_version t.event.agent_version l.state in
      let av = versioned-IsAccounted t.event.agent_version counter l.state a in
      let text = to_human_readable set.to_uppercase t.event in
      let placed = record l { state = with_position t.kafka_partition t.kafka_offset versioned } in
      let ran = Writer.write_event t.world t.event text l.recorder in
      if-Accounts (str_eq t.event.action_type (codes "position")) _ _ av (
        recorded-Accounts text ran placed (counter + 1) seen (omega arith) small
          (subst (λ n. IsStep n ran) (no_wrap counter small)
            (write_event-IsStep t.world t.event text l.recorder))
          (positioned-IsAccounted t.kafka_partition t.kafka_offset counter versioned av))

module _ (set : Settings) (t : Turn) where
  illustrate-counter :
      (step : ℕ) (text : Str) (found : Option StepImageResult) (l : Loop)
      → (illustrate set t step text found l).recorder.writer.step_counter
        ≡ l.recorder.writer.step_counter
  unfolding illustrate
  illustrate-counter step text none l = refl
  illustrate-counter step text (some result) l =
      let asked = request_reasoning set t step text result l in
      let given = record asked { state = update_step_image step result.frame asked.state } in
      let at = emit_file_written result.frame.image_path given in
      let before = emit_optional result.frame.before_image_path at in
      (emit_optional-Same result.frame.after_image_path before).counter
      ∙ (emit_optional-Same result.frame.before_image_path at).counter
      ∙ (emit_file_written-Same result.frame.image_path given).counter
      ∙ (request_reasoning-Same set t step text result l).counter

  with_vision-counter :
      (step : ℕ) (text : Str) (l : Loop)
      → (with_vision set t step text l).recorder.writer.step_counter
        ≡ l.recorder.writer.step_counter
  unfolding with_vision
  with_vision-counter step text l =
      if-counter set.has_vision _ _ (illustrate-counter step text _ l) refl

  recorded-counter :
      (text : Str) (ran : Session × Option ℕ) (l : Loop) (n : ℕ)
      → IsStep n ran
      → (recorded set t text ran l).recorder.writer.step_counter ≡ n
  unfolding recorded
  recorded-counter text (recorder, none) l n ran = ran.0
  recorded-counter text (recorder, some step) l n ran =
      let called = record l { recorder = recorder } in
      let written = emit_command_files called in
      let listed = record written {
        state = append_step (step_entry step t.event text) written.state;
      } in
      (flush_if_due-Same set t _).counter
      ∙ with_vision-counter step text _
      ∙ (with_click-Same set t listed).counter
      ∙ (emit_command_files-Same called).counter
      ∙ ran.0

  take_turn-counter :
      (l : Loop)
      → l.recorder.writer.step_counter + 1 < 2 ^ 32
      → (take_turn set t l).recorder.writer.step_counter ≤ l.recorder.writer.step_counter + 1
  unfolding take_turn
  take_turn-counter l small =
      let counter = l.recorder.writer.step_counter in
      let text = to_human_readable set.to_uppercase t.event in
      let ran = Writer.write_event t.world t.event text l.recorder in
      if-at_most (str_eq t.event.action_type (codes "position")) _ _ (counter + 1) (omega arith) (
        omega (
          arith,
          recorded-counter text ran _ (counter + 1) (
              subst (λ n. IsStep n ran) (no_wrap counter small)
                (write_event-IsStep t.world t.event text l.recorder)),
        ))

-- With the vision pipeline on, and as long as the recorder's counter does not overflow its 32 bits,
-- the steps of the metadata stay numbered upwards to at most the counter, `total_steps` counts
-- them, and each has a path to its frame or stands once, in order, in the list of skipped fetches.
pub take_turns-IsAccounted :
    (set : Settings) (turns : List Turn) (l : Loop)
    → set.has_vision ≡ true
    → l.recorder.writer.step_counter + length turns < 2 ^ 32
    → IsAccounted l.recorder.writer.step_counter l.state
    → IsAccounted
        (take_turns set turns l).recorder.writer.step_counter
        (take_turns set turns l).state
unfolding take_turns
take_turns-IsAccounted set [] l seen small a = a
take_turns-IsAccounted set (t ∷ turns) l seen small a =
    take_turns-IsAccounted set turns (take_turn set t l) seen
      (omega (arith, small, take_turn-counter set t l (omega arith)))
      (take_turn-Accounts set t l seen (omega arith) a)
