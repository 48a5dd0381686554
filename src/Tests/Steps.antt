-- ===== src/Tests/Steps.antt =====
-- Inputs for the metadata of a capture.
use memory_archive.Prelude.{
  length, ℕ, ◌≡◌, refl, true, false, none, some, List, [], ◌∷◌, ◌++◌, arith,
}
use memory_archive.Text.{codes}
use memory_archive.State.{
  StepEntry, CaptureState, Frame, Change, append, image, skipped, version, changes, appended_ids,
  ids,
}
use memory_archive.State.Steps.{changes-ids}

abbrev pub fresh : CaptureState
fresh = record {
  status = codes "active";
  completed_at = none;
  in_progress = some (codes "capturing");
  actuation_agent_version = [];
  total_steps = 0;
  steps = [];
  skipped_image_fetches = [];
  kafka_position = none;
}

abbrev pub entry : ℕ → StepEntry
entry n = record {
  step_id = n;
  timestamp = [];
  action_type = codes "mouse";
  action_subtype = codes "left";
  image_path = none;
  image_fetched = false;
  marked = false;
  before_image_path = none;
  after_image_path = none;
  raw_command = [];
  converted_command = [];
  record_suspect = none;
}

abbrev pub frame : Frame
frame = record {
  image_path = codes "vision/frames/2.png";
  marked = true;
  before_image_path = none;
  after_image_path = none;
}

-- The second event was not written, so its number is missing.
abbrev calls : List Change
calls =
    version (codes "1.3.0")
    ∷ append (entry 1)
    ∷ skipped 1 (codes "fetch failed")
    ∷ append (entry 3)
    ∷ image 3 frame
    ∷ []

changes-ids_example :
    (ids (changes calls fresh).steps ≡ [] ++ appended_ids calls)
    × ((changes calls fresh).total_steps ≡ length (changes calls fresh).steps)
changes-ids_example = changes-ids calls fresh refl (omega arith)
