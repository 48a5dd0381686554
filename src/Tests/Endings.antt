-- ===== src/Tests/Endings.antt =====
-- Inputs for the watch loop of ma-core/src/capture/mod.rs, its endings, and the removal of a memory
-- of ma-core/src/session/mod.rs.
use memory_archive.Prelude.{
  if◌then◌else◌, ◌≡◌, refl, true, false, none, some, List, [], ◌∷◌, ◌++◌, arith,
}
use memory_archive.Text.{codes, str_eq}
use memory_archive.Event.{CommandEvent}
use memory_archive.Stream.Watch.{silence_timeout}
use memory_archive.SessionDir.{
  incomplete_suffix, Dirs, Removal, remove_dir, purge_candidate, purge_memory_dir,
}
use memory_archive.SessionDir.Owned.{Owns, Left, purge_memory_dir-owned}
use memory_archive.Registry.Schema.{incomplete}
use memory_archive.Registry.Redis.Reference.{store}
use memory_archive.Registry.Coherence.{Implements, set_status}
use memory_archive.Capture.{
  StepImageResult, ContextStep, StepReady, Push, session_started, file_written,
  step_ready_for_reasoning, session_disconnected, Settings, Turn, Loop, is_cloud_primary, push,
  emit_file_written, emit_optional, emit_command_files, recent_steps_context, with_position,
  step_entry, is_skip, skip_reason, ready_message, request_reasoning, illustrate, with_vision,
  with_click, is_due, flushed, flush_if_due, recorded, take_turn, take_turns, started,
}
use memory_archive.Capture.Accounted.{IsAccounted, take_turns-IsAccounted}
use memory_archive.Capture.Ending.{disconnected, Outside, finish}
use memory_archive.Capture.Agrees.{status_of_file, finish-agrees}
use memory_archive.Tests.Sessions.{same, empty, nobody, empty-Implements}
use memory_archive.Tests.Steps.{fresh, frame}
use memory_archive.Tests.Writing.{failed_press, calm, in_cloud}

abbrev settings : Settings
settings = record {
  to_uppercase = same;
  session_id = codes "s1";
  is_automated = true;
  has_vision = true;
  context_window_steps = 5;
  press_fetch_delay_ms = 0;
  type_fetch_delay_ms = 0;
  flush_interval = 1;
}

abbrev press_event : CommandEvent
press_event = record failed_press { success = true }

abbrev turn : CommandEvent → Turn
turn event = record {
  event = event;
  kafka_partition = none;
  kafka_offset = none;
  world = calm;
  vision = λ e step click.
      if e.success
      then some (record {
        frame = frame;
        at_frame_bytes = [];
        before_frame_bytes = [];
        after_frame_bytes = [];
      })
      else none;
  degraded = false;
  flushes = true;
}

abbrev begin : Loop
begin = record {
  recorder = in_cloud;
  state = fresh;
  last_click = none;
  steps_since_flush = 0;
  metadata_file = some fresh;
  pushed = [];
}

abbrev turns : List Turn
turns = turn press_event ∷ turn failed_press ∷ []

take_turns-IsAccounted_example :
    IsAccounted
      (take_turns settings turns begin).recorder.writer.step_counter
      (take_turns settings turns begin).state
unfolding memory_archive.Capture.Pending.pending
take_turns-IsAccounted_example =
    take_turns-IsAccounted settings turns begin refl (omega arith) (record {
      numbered = omega arith;
      counted = refl;
      bounded = omega arith;
      shown = tt;
      listed = refl;
    })

abbrev outside : Outside
outside = record {
  now = codes "2026-01-01";
  world = calm;
  paths = record {
    split_path = λ path. some (codes "memories", path);
    join_path = λ parent name. parent ++ b'/' ∷ name;
    renames = λ from to. true;
  };
  memory_dir = codes "take";
  flushes = true;
  rewrites = true;
  was_degraded = false;
}

finish-agrees_example :
    Implements
      (finish store settings outside (disconnected (some silence_timeout)) begin empty).1
      (set_status (codes "s1") (some incomplete) nobody)
    × (status_of_file
          (finish store settings outside
            (disconnected (some silence_timeout))
            begin
            empty).0.metadata_file
        ≡ some (codes "incomplete"))
finish-agrees_example =
    finish-agrees settings outside (disconnected (some silence_timeout)) begin empty nobody
      empty-Implements refl refl refl

-- The path of the first session now holds the memory of the second; the first one's is beside it,
-- with its frames.
abbrev removal : Removal
removal = record { session_id_in = λ raw. some raw; removes = λ path. true }

abbrev dirs : Dirs
dirs path =
    if str_eq path (codes "take")
    then some (some (codes "s2"))
    else if str_eq path (codes "take (incomplete)")
    then some (some (codes "s1"))
    else if str_eq path (codes "take (incomplete)/vision/frames")
    then some none
    else none

abbrev purged : Dirs
purged = remove_dir (codes "take (incomplete)") dirs

ran : purge_memory_dir removal (codes "take") (codes "s1") dirs ≡ some (purged, true)
unfolding purge_memory_dir purge_candidate str_eq
ran = refl

frames_gone : purged (codes "take (incomplete)/vision/frames") ≡ none
unfolding remove_dir str_eq memory_archive.Text.Search.starts_with memory_archive.Text.strip_prefix
frames_gone = refl

purge_memory_dir-owned_example :
    Left removal (codes "s1") (codes "take") (codes "take (incomplete)/vision/frames") dirs purged
    × (¬ Owns removal (codes "s1") (purged (codes "take")))
    × (¬ Owns removal (codes "s1") (purged (codes "take" ++ incomplete_suffix)))
purge_memory_dir-owned_example =
    purge_memory_dir-owned removal (codes "s1") (codes "take")
      (codes "take (incomplete)/vision/frames") dirs ran
