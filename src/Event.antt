-- ===== src/Event.antt =====
-- The `CommandEvent` of ma-proto/proto/control_center.proto, less the fields that ma-core only
-- passes on: session_id, agent_id, is_here_command, error_message, execution_time_ms, agent_alive.
use memory_archive.Prelude.{ℤ, Bool}
use memory_archive.Text.{Str}

pub record CommandEvent : Type 0 where
  pub agent_version : Str
  pub os_type : Str
  pub timestamp : Str
  pub raw_command : Str
  pub action_type : Str
  pub action_subtype : Str
  pub success : Bool
  pub mouse_x : ℤ
  pub mouse_y : ℤ
  pub position_captured : Bool
  pub is_heartbeat : Bool
