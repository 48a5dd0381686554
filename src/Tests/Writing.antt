-- ===== src/Tests/Writing.antt =====
-- Inputs for the command files of ma-core/src/capture/writer.rs.
use memory_archive.Prelude.{
  pos, ◌+◌, ◌≡◌, refl, true, false, none, some, List, [], ◌∷◌, ◌++◌, arith,
}
use memory_archive.Text.{concat, Str, codes}
use memory_archive.Event.{CommandEvent}
use memory_archive.Writer.{
  md_cell, pad4, row, Session, World, put, flush_to_cloud, finalise_jsonl_buf_cloud, finalise,
}
use memory_archive.Writer.Cells.{fold_breaks, read_cell, Unbroken, read_cell-md_cell}
use memory_archive.Writer.Finalised.{actuation, finalise-stored}
use memory_archive.Writer.Numbers.{Call, write_all, Ascends, write_all-Ascends}

abbrev piped : Str
piped = codes "ls | wc \\|"

read_cell-md_cell_example :
    Unbroken false (md_cell piped) × (read_cell (md_cell piped) ≡ fold_breaks piped)
read_cell-md_cell_example = read_cell-md_cell piped

abbrev pub failed_press : CommandEvent
failed_press = record {
  agent_version = codes "1.3.0";
  os_type = codes "LINUX";
  timestamp = codes "2026-07-22T10:00:00.000Z";
  raw_command = codes "Pressed: a";
  action_type = codes "keyboard";
  action_subtype = codes "press";
  success = false;
  mouse_x = pos 0;
  mouse_y = pos 0;
  position_captured = false;
  is_heartbeat = false;
}

abbrev same : Str → Str
same s = s

abbrev pub calm : World
calm = record {
  now = codes "2026-07-22 10:00:00 UTC";
  event_json = λ event. some (codes "{}");
  entry_json = λ step os command. some command;
  value_json = λ line. some line;
  array_json = λ values. some (codes "[" ++ concat values ++ codes "]");
  opens = λ name. true;
  reads = λ name. true;
  writes = λ name text. true;
  puts = λ path. true;
}

abbrev pub in_cloud : Session
in_cloud = record {
  writer = record {
    step_counter = 1;
    is_cloud_primary = true;
    memory_name = codes "take";
    raw_input_buf = [];
    converted_input_buf = [];
    actuation_buf = codes "{}";
    cc_buf = codes "{}";
    raw_header_written = false;
    converted_header_written = false;
  };
  disk = λ name. none;
  storage = λ path. none;
}

in_cloud-finalised : finalise calm in_cloud ≡ ((finalise calm in_cloud).0, true)
unfolding finalise finalise_jsonl_buf_cloud flush_to_cloud put memory_archive.Text.Trim.trim
    memory_archive.Text.is_whitespace memory_archive.Writer.array_of_lines
    memory_archive.Text.split_char memory_archive.Text.Search.strip_suffix
    memory_archive.Text.strip_prefix
in_cloud-finalised = refl

finalise-stored_example :
    (finalise calm in_cloud).0.storage (actuation in_cloud.writer)
    ≡ some in_cloud.writer.actuation_buf
finalise-stored_example =
    finalise-stored calm in_cloud (finalise calm in_cloud).0 refl in_cloud-finalised

abbrev two_calls : List Call
two_calls = (calm, failed_press, codes "x") ∷ (calm, failed_press, codes "y") ∷ []

write_all-Ascends_example :
    ((write_all two_calls in_cloud).0.writer.step_counter ≡ 1 + 2)
    × Ascends 1 (1 + 2) (write_all two_calls in_cloud).1
write_all-Ascends_example = write_all-Ascends two_calls in_cloud (omega arith)
