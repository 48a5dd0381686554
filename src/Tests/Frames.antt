-- ===== src/Tests/Frames.antt =====
-- Inputs for the choice of a frame.
use memory_archive.Prelude.{false, pos, ◌≡◌, ◌↔◌, true}
use memory_archive.Text.{codes}
use memory_archive.Event.{CommandEvent}
use memory_archive.Vision.{fetch_at, decide, decide_marks}

abbrev click : CommandEvent
click = record {
  agent_version = codes "1.3.0";
  os_type = codes "LINUX";
  timestamp = codes "2026-07-22T10:00:00.000Z";
  raw_command = codes "Left-clicked at X=3, Y=4";
  action_type = codes "mouse";
  action_subtype = codes "left";
  success = true;
  mouse_x = pos 3;
  mouse_y = pos 4;
  position_captured = true;
  is_heartbeat = false;
}

decide_marks_example : (decide click 300 500 ≡ fetch_at true) ↔ (
    (click.success ≡ true) × (click.action_type ≡ codes "mouse") × (click.position_captured ≡ true))
decide_marks_example = decide_marks click 300 500
