-- ===== src/State.antt =====
-- The metadata of a capture in memory, of ma-core/src/capture/session_state.rs and
-- ma-core/src/session/metadata.rs: the steps, the fetches that were skipped, and the provenance
-- that the watch loop records. Fields that none of the operations below reads or sets are left out.
pub mod Steps
use memory_archive.Prelude.{
  ◌==◌, if◌then◌else◌, is_empty, ℤ, ℕ, ◌+◌, ◌%◌, ◌^◌, Bool, true, not, ◌&&◌, Option, none, some,
  List, [], ◌∷◌, ◌++◌, map,
}
use memory_archive.Text.{Str, codes}
use memory_archive.Fidelity.{RecordSuspect}

pub record StepEntry : Type 0 where
  pub step_id : ℕ
  pub timestamp : Str
  pub action_type : Str
  pub action_subtype : Str
  pub image_path : Option Str
  pub image_fetched : Bool
  pub marked : Bool
  pub before_image_path : Option Str
  pub after_image_path : Option Str
  pub raw_command : Str
  pub converted_command : Str
  pub record_suspect : Option RecordSuspect

pub record SkippedFetch : Type 0 where
  pub step_id : ℕ
  pub reason : Str

pub record CaptureState : Type 0 where
  pub status : Str
  pub completed_at : Option Str
  pub in_progress : Option Str
  pub actuation_agent_version : Str
  pub total_steps : ℕ
  pub steps : List StepEntry
  pub skipped_image_fetches : List SkippedFetch
  pub kafka_position : Option (ℤ × ℤ)

-- Only the first version that is not empty is kept.
unfoldable pub record_agent_version : Str → CaptureState → CaptureState
record_agent_version version s =
    if is_empty s.actuation_agent_version && not (is_empty version)
    then record s { actuation_agent_version = version }
    else s

-- `total_steps` is a `u32`.
unfoldable pub append_step : StepEntry → CaptureState → CaptureState
append_step step s = record s {
  total_steps = (s.total_steps + 1) % 2 ^ 32;
  steps = s.steps ++ step ∷ [];
}

-- what a frame adds to a step
pub record Frame : Type 0 where
  pub image_path : Str
  pub marked : Bool
  pub before_image_path : Option Str
  pub after_image_path : Option Str

abbrev pub with_frame : Frame → StepEntry → StepEntry
with_frame frame entry = record entry {
  image_path = some frame.image_path;
  image_fetched = true;
  marked = frame.marked;
  before_image_path = frame.before_image_path;
  after_image_path = frame.after_image_path;
}

-- `iter_mut().find`: the first entry with the number
unfoldable pub update_first : ℕ → Frame → List StepEntry → List StepEntry
update_first step_id frame [] = []
update_first step_id frame (entry ∷ entries) =
    let rest = update_first step_id frame entries in
    if entry.step_id == step_id then with_frame frame entry ∷ entries else entry ∷ rest

unfoldable pub update_step_image : ℕ → Frame → CaptureState → CaptureState
update_step_image step_id frame s = record s { steps = update_first step_id frame s.steps }

unfoldable pub append_skipped_fetch : ℕ → Str → CaptureState → CaptureState
append_skipped_fetch step_id reason s = record s {
  skipped_image_fetches =
      s.skipped_image_fetches ++ record { step_id = step_id; reason = reason } ∷ [];
}

unfoldable pub update_kafka_position : ℤ → ℤ → CaptureState → CaptureState
update_kafka_position partition offset s = record s { kafka_position = some (partition, offset) }

-- with the time of the call
unfoldable pub mark_complete : Str → CaptureState → CaptureState
mark_complete now s = record s { status = codes "complete"; completed_at = some now }

unfoldable pub mark_incomplete : CaptureState → CaptureState
mark_incomplete s = record s { status = codes "incomplete" }

unfoldable pub set_in_progress : Str → CaptureState → CaptureState
set_in_progress value s = record s { in_progress = some value }

unfoldable pub clear_in_progress : CaptureState → CaptureState
clear_in_progress s = record s { in_progress = none }

-- The calls that the watch loop makes on the state.
pub data Change : Type 0 where
  append : StepEntry → Change
  image : ℕ → Frame → Change
  skipped : ℕ → Str → Change
  version : Str → Change
  position : ℤ → ℤ → Change

unfoldable pub change : Change → CaptureState → CaptureState
change (append step) s = append_step step s
change (image step_id frame) s = update_step_image step_id frame s
change (skipped step_id reason) s = append_skipped_fetch step_id reason s
change (version v) s = record_agent_version v s
change (position partition offset) s = update_kafka_position partition offset s

unfoldable pub changes : List Change → CaptureState → CaptureState
unfolding change
changes [] s = s
changes (c ∷ cs) s = changes cs (change c s)

-- the numbers of the steps that the calls append
abbrev pub appended_ids : List Change → List ℕ
appended_ids [] = []
appended_ids (append step ∷ cs) = step.step_id ∷ appended_ids cs
appended_ids (image step_id frame ∷ cs) = appended_ids cs
appended_ids (skipped step_id reason ∷ cs) = appended_ids cs
appended_ids (version v ∷ cs) = appended_ids cs
appended_ids (position partition offset ∷ cs) = appended_ids cs

abbrev pub step_id_of : StepEntry → ℕ
step_id_of entry = entry.step_id

abbrev pub ids : List StepEntry → List ℕ
ids entries = map step_id_of entries
