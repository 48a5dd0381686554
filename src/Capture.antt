-- ===== src/Capture.antt =====
-- The watch loop of ma-core/src/capture/mod.rs from its first event on: what one event leaves in the
-- recorder, in the metadata and in the messages that are offered to the client.
pub mod Pending
pub mod Unchanged
pub mod Accounted
pub mod Ending
pub mod Agrees
use memory_archive.Prelude.{
  leb, if◌then◌else◌, length, ℤ, ℕ, zero, suc, ◌+◌, ◌-◌, ◌%◌, ◌^◌, Bool, true, false, not, ◌&&◌,
  ◌||◌, Option, none, some, List, [], ◌∷◌, ◌++◌, map,
}
use memory_archive.Text.{Str, codes, str_eq}
use memory_archive.Event.{CommandEvent}
use memory_archive.Fidelity.{inspect}
use memory_archive.Convert.Lines.{to_human_readable}
use memory_archive.Writer
use memory_archive.Writer.{Session, World}
use memory_archive.State.{
  StepEntry, CaptureState, record_agent_version, append_step, Frame, update_step_image,
  append_skipped_fetch, update_kafka_position, set_in_progress,
}
use memory_archive.Vision.{FetchDecision, skip, fetch_at, fetch_after, decide}

-- What the vision pipeline returns for a step.
pub record StepImageResult : Type 0 where
  pub frame : Frame
  pub at_frame_bytes : List ℕ
  pub before_frame_bytes : List ℕ
  pub after_frame_bytes : List ℕ

pub record ContextStep : Type 0 where
  pub step_id : ℕ
  pub converted_command : Str
  pub reasoning : Str

pub record StepReady : Type 0 where
  pub step_id : ℕ
  pub action_type : Str
  pub action_subtype : Str
  pub converted_command : Str
  pub at_frame_bytes : List ℕ
  pub before_frame_bytes : List ℕ
  pub after_frame_bytes : List ℕ
  pub context_steps : List ContextStep

-- The messages that the loop offers to the client's queue, which may drop them.
pub data Push : Type 0 where
  session_started : Push
  file_written : Str → Push
  step_ready_for_reasoning : StepReady → Push
  session_disconnected : Str → Push

-- What is fixed while a session is captured.
pub record Settings : Type 0 where
  pub to_uppercase : Str → Str
  pub session_id : Str
  pub is_automated : Bool
  pub has_vision : Bool
  pub context_window_steps : ℕ
  pub press_fetch_delay_ms : ℕ
  pub type_fetch_delay_ms : ℕ
  pub flush_interval : ℕ

-- One event with what it meets outside: the files, the vision pipeline, whether the session's
-- reasoning is degraded, and whether a flush of the metadata succeeds.
pub record Turn : Type 0 where
  pub event : CommandEvent
  pub kafka_partition : Option ℤ
  pub kafka_offset : Option ℤ
  pub world : World
  pub vision : CommandEvent → ℕ → Option (ℤ × ℤ) → Option StepImageResult
  pub degraded : Bool
  pub flushes : Bool

-- `metadata_file` is the metadata as it was last written, to the disk or to the cloud.
pub record Loop : Type 0 where
  pub recorder : Session
  pub state : CaptureState
  pub last_click : Option (ℤ × ℤ)
  pub steps_since_flush : ℕ
  pub metadata_file : Option CaptureState
  pub pushed : List Push

abbrev pub is_cloud_primary : Loop → Bool
is_cloud_primary l = l.recorder.writer.is_cloud_primary

abbrev pub push : Push → Loop → Loop
push message l = record l { pushed = l.pushed ++ message ∷ [] }

unfoldable pub emit_file_written : Str → Loop → Loop
emit_file_written rel l = if is_cloud_primary l then l else push (file_written rel) l

abbrev pub emit_optional : Option Str → Loop → Loop
emit_optional none l = l
emit_optional (some rel) l = emit_file_written rel l

unfoldable pub emit_command_files : Loop → Loop
emit_command_files l = emit_file_written (codes "commands/cc_commands.json") (
    emit_file_written (codes "commands/actuation_commands.json") (
      emit_file_written (codes "commands/converted_input.md")
        (emit_file_written (codes "commands/raw_input.md") l)))

drop : ℕ → List StepEntry → List StepEntry
drop zero steps = steps
drop (suc n) [] = []
drop (suc n) (step ∷ steps) = drop n steps

abbrev context_step : StepEntry → ContextStep
context_step s = record {
  step_id = s.step_id;
  converted_command = s.action_type ++ b'/' ∷ s.action_subtype;
  reasoning = [];
}

-- the last steps, as many as are asked for
unfoldable pub recent_steps_context : ℕ → CaptureState → List ContextStep
unfolding drop
recent_steps_context n s = map context_step (drop (length s.steps - n) s.steps)

unfoldable pub with_position : Option ℤ → Option ℤ → CaptureState → CaptureState
with_position (some partition) (some offset) s = update_kafka_position partition offset s
with_position _ _ s = s

unfoldable pub step_entry : ℕ → CommandEvent → Str → StepEntry
step_entry step event converted = record {
  step_id = step;
  timestamp = event.timestamp;
  action_type = event.action_type;
  action_subtype = event.action_subtype;
  image_path = none;
  image_fetched = false;
  marked = false;
  before_image_path = none;
  after_image_path = none;
  raw_command = event.raw_command;
  converted_command = converted;
  record_suspect = inspect event;
}

abbrev pub is_skip : FetchDecision → Bool
is_skip (skip reason) = true
is_skip (fetch_at marked) = false
is_skip (fetch_after delay) = false

unfoldable pub skip_reason : Settings → CommandEvent → Str
skip_reason set event =
    if not event.success
    then codes "command failed"
    else if is_skip (decide event set.press_fetch_delay_ms set.type_fetch_delay_ms)
    then codes "action type does not trigger fetch"
    else codes "fetch failed"

module _ (set : Settings) (t : Turn) where
  unfoldable pub ready_message : ℕ → Str → StepImageResult → Loop → Push
  ready_message step converted result l = step_ready_for_reasoning (record {
    step_id = step;
    action_type = t.event.action_type;
    action_subtype = t.event.action_subtype;
    converted_command = converted;
    at_frame_bytes = result.at_frame_bytes;
    before_frame_bytes = result.before_frame_bytes;
    after_frame_bytes = result.after_frame_bytes;
    context_steps = recent_steps_context set.context_window_steps l.state;
  })

  unfoldable pub request_reasoning : ℕ → Str → StepImageResult → Loop → Loop
  request_reasoning step converted result l =
      if set.is_automated && not t.degraded
      then push (ready_message step converted result l) l
      else l

  -- The outcome of the vision pipeline for a step.
  unfoldable pub illustrate : ℕ → Str → Option StepImageResult → Loop → Loop
  illustrate step converted none l = record l {
    state = append_skipped_fetch step (skip_reason set t.event) l.state;
  }
  illustrate step converted (some result) l =
      let asked = request_reasoning step converted result l in
      let shown = record asked { state = update_step_image step result.frame asked.state } in
      emit_optional result.frame.after_image_path (
        emit_optional result.frame.before_image_path
          (emit_file_written result.frame.image_path shown))

  unfoldable pub with_vision : ℕ → Str → Loop → Loop
  with_vision step converted l =
      if set.has_vision then illustrate step converted (t.vision t.event step l.last_click) l else l

  unfoldable pub with_click : Loop → Loop
  with_click l =
      if str_eq t.event.action_type (codes "mouse") && t.event.success
      then record l { last_click = some (t.event.mouse_x, t.event.mouse_y) }
      else l

  -- `flush_if_due`, and what follows unless it fails.
  abbrev pub is_due : Loop → Bool
  is_due l = not (is_cloud_primary l) || leb set.flush_interval ((l.steps_since_flush + 1) % 2 ^ 32)

  unfoldable pub flushed : Loop → Loop
  flushed l =
      if is_cloud_primary l
      then record l { recorder = (Writer.flush_to_cloud t.world l.recorder).0 }
      else l

  unfoldable pub flush_if_due : Loop → Loop
  flush_if_due l =
      let reset = record l { steps_since_flush = 0 } in
      let stored = record reset { metadata_file = some l.state } in
      let later = record l { steps_since_flush = (l.steps_since_flush + 1) % 2 ^ 32 } in
      let metadata = codes "metadata.json" in
      if is_due l
      then (if t.flushes then flushed (emit_file_written metadata stored) else reset)
      else flushed (emit_file_written metadata later)

  unfoldable pub recorded : Str → Session × Option ℕ → Loop → Loop
  recorded converted (recorder, none) l = record l { recorder = recorder }
  recorded converted (recorder, some step) l =
      let written = emit_command_files (record l { recorder = recorder }) in
      let listed = record written {
        state = append_step (step_entry step t.event converted) written.state;
      } in
      flush_if_due (with_vision step converted (with_click listed))

  unfoldable pub take_turn : Loop → Loop
  take_turn l =
      let event = t.event in
      let versioned = record_agent_version event.agent_version l.state in
      if str_eq event.action_type (codes "position")
      then record l { state = versioned }
      else let converted = to_human_readable set.to_uppercase event in
        recorded converted (Writer.write_event t.world event converted l.recorder)
          (record l { state = with_position t.kafka_partition t.kafka_offset versioned })

unfoldable pub take_turns : Settings → List Turn → Loop → Loop
take_turns set [] l = l
take_turns set (t ∷ turns) l = take_turns set turns (take_turn set t l)

-- What the loop announces before its first event.
unfoldable pub started : Settings → (flushes : Bool) → Loop → Loop
started set flushes l =
    let capturing = record l { state = set_in_progress (codes "capturing") l.state } in
    let stored =
      if flushes then record capturing { metadata_file = some capturing.state } else capturing in
    if set.is_automated then push session_started stored else stored
