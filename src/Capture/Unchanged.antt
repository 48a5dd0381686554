-- ===== src/Capture/Unchanged.antt =====
-- What the watch loop of ma-core/src/capture/mod.rs does behind a step without touching the metadata in
-- memory or the recorder's counter: messages, flushes and the last click.
use memory_archive.Prelude.{
  if◌then◌else◌, Bool-cases, ℕ, ◌+◌, ◌%◌, ◌^◌, ◌≡◌, refl, ◌∙◌, inl, inr, Bool, true, false, not,
  ◌&&◌, Option, none, some,
}
use memory_archive.Text.{Str, codes, str_eq}
use memory_archive.Writer
use memory_archive.Writer.{
  pipe, is_break, cell_char, md_cell, pad4, failed_prefix, row, Files, set_file, CommandWriter,
  Session, Done, and_then, World, with_writer, cloud_path, appended, step_if, buffer_raw,
  buffer_converted, buffer_line, buffer_jsonl, buffer_cc_command, append_line, append_json,
  write_local, write_cloud, write_event, put, flush_to_cloud, array_of_lines, put_array,
  finalise_jsonl_buf_cloud, finalise_jsonl_file, finalise,
}
use memory_archive.Writer.Numbers.{Counts, and_then-Counts, if-Counts}
use memory_archive.Capture.{
  StepImageResult, Settings, Turn, Loop, is_cloud_primary, emit_file_written, emit_optional,
  emit_command_files, request_reasoning, with_click, is_due, flushed, flush_if_due,
}

-- What a step of the loop may do to the parts that the properties read.
pub record Same (l m : Loop) : Type 0 where
  pub state : m.state ≡ l.state
  pub counter : m.recorder.writer.step_counter ≡ l.recorder.writer.step_counter

pub Same-trans : {l m n : Loop} → Same l m → Same m n → Same l n
Same-trans p q = record { state = q.state ∙ p.state; counter = q.counter ∙ p.counter }

if-Same : {l m n : Loop} (b : Bool) → Same l m → Same l n → Same l (if b then m else n)
if-Same true p q = p
if-Same false p q = q

kept :
    {l : Loop} (m : Loop)
    → m.state ≡ l.state
    → m.recorder.writer.step_counter ≡ l.recorder.writer.step_counter
    → Same l m
kept m s c = record { state = s; counter = c }

pub emit_file_written-Same : (rel : Str) (l : Loop) → Same l (emit_file_written rel l)
unfolding emit_file_written
emit_file_written-Same rel l = elim (Bool-cases (is_cloud_primary l)) [
  | inl e ↦ rw e (record { state = refl; counter = refl })
  | inr e ↦ rw e (record { state = refl; counter = refl })
]

pub emit_optional-Same : (rel : Option Str) (l : Loop) → Same l (emit_optional rel l)
emit_optional-Same none l = record { state = refl; counter = refl }
emit_optional-Same (some rel) l = emit_file_written-Same rel l

pub emit_command_files-Same : (l : Loop) → Same l (emit_command_files l)
unfolding emit_command_files
emit_command_files-Same l = Same-trans (emit_file_written-Same _ l) (
    Same-trans (emit_file_written-Same _ _)
      (Same-trans (emit_file_written-Same _ _) (emit_file_written-Same _ _)))

put-Counts :
    (world : World) (n : ℕ) (path text : Str) (s : Session)
    → s.writer.step_counter ≡ n
    → Counts n (Writer.put world path text s)
unfolding put
put-Counts world n path text s h = if-Counts n (world.puts path) _ _ h h

flush_to_cloud-Counts :
    (world : World) (n : ℕ) (s : Session)
    → s.writer.step_counter ≡ n
    → Counts n (Writer.flush_to_cloud world s)
unfolding flush_to_cloud
flush_to_cloud-Counts world n s h =
    let first =
      Writer.put world (cloud_path s.writer (codes "commands/raw_input.md")) s.writer.raw_input_buf
        s in
    let second =
      Writer.put world (cloud_path s.writer (codes "commands/converted_input.md"))
        s.writer.converted_input_buf in
    let third =
      Writer.put world (cloud_path s.writer (codes "commands/actuation_commands.json"))
        s.writer.actuation_buf in
    let fourth =
      Writer.put world (cloud_path s.writer (codes "commands/cc_commands.json")) s.writer.cc_buf in
    if-Counts n (not s.writer.is_cloud_primary) _ _ h (
      and_then-Counts n (and_then (and_then first second) third) fourth
        (and_then-Counts n (and_then first second) third
          (and_then-Counts n first second (put-Counts world n _ _ s h) (put-Counts world n _ _))
          (put-Counts world n _ _))
        (put-Counts world n _ _))

module _ (set : Settings) (t : Turn) where
  flushed-Same : (l : Loop) → Same l (flushed set t l)
  unfolding flushed
  flushed-Same l =
      if-Same (is_cloud_primary l)
        (record {
          state = refl;
          counter = flush_to_cloud-Counts t.world l.recorder.writer.step_counter l.recorder refl;
        })
        (record { state = refl; counter = refl })

  metadata_flushed-Same :
      (l : Loop) → Same l (flushed set t (emit_file_written (codes "metadata.json") l))
  metadata_flushed-Same l = Same-trans (emit_file_written-Same _ l) (flushed-Same _)

  pub flush_if_due-Same : (l : Loop) → Same l (flush_if_due set t l)
  unfolding flush_if_due
  flush_if_due-Same l =
      let stored = record l { steps_since_flush = 0; metadata_file = some l.state } in
      let later = record l { steps_since_flush = (l.steps_since_flush + 1) % 2 ^ 32 } in
      if-Same (is_due set t l)
        (if-Same t.flushes (Same-trans (kept stored refl refl) (metadata_flushed-Same stored))
          (record { state = refl; counter = refl }))
        (Same-trans (kept later refl refl) (metadata_flushed-Same later))

  pub with_click-Same : (l : Loop) → Same l (with_click set t l)
  unfolding with_click
  with_click-Same l =
      if-Same (str_eq t.event.action_type (codes "mouse") && t.event.success)
        (record { state = refl; counter = refl }) (record { state = refl; counter = refl })

  pub request_reasoning-Same :
      (step : ℕ) (text : Str) (result : StepImageResult) (l : Loop)
      → Same l (request_reasoning set t step text result l)
  unfolding request_reasoning
  request_reasoning-Same step text result l =
      if-Same (set.is_automated && not t.degraded) (record { state = refl; counter = refl })
        (record { state = refl; counter = refl })
