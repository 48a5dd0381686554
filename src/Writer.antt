-- ===== src/Writer.antt =====
-- ma-core/src/capture/writer.rs: the four command files of a session, in buffers that are put into
-- the cloud (`is_cloud_primary`) or on the local disk. The JSON library, the clock, the file
-- system and the storage backend are parameters.
pub mod Cells
pub mod Numbers
pub mod Finalised
use memory_archive.Prelude.{
  map, List, is_empty, ◌%◌, ◌^◌, ◌==◌, if◌then◌else◌, length, unwrap_or, is_some, ℕ, zero, suc, ◌+◌,
  ◌-◌, Bool, true, false, not, ◌||◌, Option, none, some, [], ◌∷◌, ◌++◌,
}
use memory_archive.Text.Trim.{trim}
use memory_archive.Text.Search.{strip_suffix}
use memory_archive.Text.{split_char, Str, codes, concat, str_eq}
use memory_archive.Text.Decimal.{show_nat}
use memory_archive.Event.{CommandEvent}
use memory_archive.Convert.Commands.{to_cc_command}

abbrev pub pipe : ℕ
pipe = 0x7C

abbrev pub is_break : ℕ → Bool
is_break c = c == 10 || c == 13

-- What the loop of `md_cell` pushes for one character.
abbrev pub cell_char : ℕ → Str → Str
cell_char c rest =
    if c == pipe then 0x5C ∷ pipe ∷ rest else if is_break c then b' ' ∷ rest else c ∷ rest

unfoldable pub md_cell : Str → Str
md_cell [] = []
md_cell (c ∷ text) = cell_char c (md_cell text)

-- `{:>4}`
spaces : ℕ → Str
spaces zero = []
spaces (suc n) = b' ' ∷ spaces n

unfoldable pub pad4 : ℕ → Str
unfolding spaces
pad4 n = spaces (4 - length (show_nat n)) ++ show_nat n

unfoldable pub failed_prefix : CommandEvent → Str
failed_prefix event = if not event.success then codes "[FAILED] " else []

-- One row of a table.
unfoldable pub row : ℕ → CommandEvent → Str → Str
row step event text =
    codes "| "
    ++ (pad4 step
        ++ (codes " | "
            ++ (event.timestamp
                ++ (codes " | "
                    ++ (failed_prefix event ++ (md_cell text ++ (codes " |" ++ 10 ∷ [])))))))

raw_header : Str → Str
raw_header now = concat (
    codes "# Raw Input"
    ∷ (10 ∷ 10 ∷ [])
    ∷ codes "_Generated by Memory Archive — "
    ∷ now
    ∷ codes "_"
    ∷ (10 ∷ 10 ∷ [])
    ∷ codes "| Step | Timestamp | Command |"
    ∷ (10 ∷ [])
    ∷ codes "|------|-----------|----------|"
    ∷ (10 ∷ [])
    ∷ [])

converted_header : Str → Str
converted_header now = concat (
    codes "# Converted Input"
    ∷ (10 ∷ 10 ∷ [])
    ∷ codes "_Generated by Memory Archive — "
    ∷ now
    ∷ codes "_"
    ∷ (10 ∷ 10 ∷ [])
    ∷ codes "| Step | Timestamp | Action |"
    ∷ (10 ∷ [])
    ∷ codes "|------|-----------|--------|"
    ∷ (10 ∷ [])
    ∷ [])

-- The files on disk by their names below `commands`, and the objects in the storage by their paths.
abbrev pub Files : Type 0
Files = Str → Option Str

abbrev pub set_file : Str → Str → Files → Files
set_file name text files other = if str_eq other name then some text else files other

pub record CommandWriter : Type 0 where
  pub step_counter : ℕ
  pub is_cloud_primary : Bool
  pub memory_name : Str
  pub raw_input_buf : Str
  pub converted_input_buf : Str
  pub actuation_buf : Str
  pub cc_buf : Str
  pub raw_header_written : Bool
  pub converted_header_written : Bool

-- The writer with what is outside of it.
pub record Session : Type 0 where
  pub writer : CommandWriter
  pub disk : Files
  pub storage : Files

-- What an operation leaves, and whether it returned `Ok`.
abbrev pub Done : Type 0
Done = Session × Bool

abbrev pub and_then : Done → (Session → Done) → Done
and_then (s, true) next = next s
and_then (s, false) next = (s, false)

-- serde_json, the clock, the file system and the storage backend, as one call meets them
pub record World : Type 0 where
  pub now : Str
  pub event_json : CommandEvent → Option Str
  pub entry_json : (step_id : ℕ) (os command : Str) → Option Str
  pub value_json : Str → Option Str
  pub array_json : List Str → Option Str
  pub opens : Str → Bool
  pub reads : Str → Bool
  pub writes : (name text : Str) → Bool
  pub puts : Str → Bool

abbrev pub with_writer : Session → CommandWriter → Session
with_writer s w = record s { writer = w }

unfoldable pub cloud_path : CommandWriter → Str → Str
cloud_path w relative = w.memory_name ++ b'/' ∷ relative

-- How far an append comes, by whether the file opens, its header is written, and the line is; with
-- the disk at each point.
abbrev pub appended : (opens headed lined : Bool) → Session → (opened header whole : Files) → Done
appended false headed lined s opened header whole = (s, false)
appended true false lined s opened header whole = (record s { disk = opened }, false)
appended true true false s opened header whole = (record s { disk = header }, false)
appended true true true s opened header whole = (record s { disk = whole }, true)

-- `write_event`: the session after it, and the step if it returned one.
abbrev pub step_if : ℕ → Done → Session × Option ℕ
step_if step (s, true) = (s, some step)
step_if step (s, false) = (s, none)

-- The `\r` before a line's `\n` is no part of the line; the last piece has no `\n`.
abbrev pub ended_lines : List Str → List Str
ended_lines [] = []
ended_lines (last ∷ []) = last ∷ []
ended_lines (line ∷ next ∷ pieces) =
    unwrap_or line (strip_suffix (13 ∷ []) line) ∷ ended_lines (next ∷ pieces)

-- `str::lines`, with the empty piece that may end it
unfoldable pub lines_of : Str → List Str
lines_of text = ended_lines (split_char 10 text)

module _ (world : World) where
  unfoldable pub buffer_raw : ℕ → CommandEvent → CommandWriter → CommandWriter
  unfolding raw_header
  buffer_raw step event w =
      let header = if w.raw_header_written then [] else raw_header world.now in
      record w {
        raw_input_buf = w.raw_input_buf ++ header ++ row step event event.raw_command;
        raw_header_written = true;
      }

  unfoldable pub buffer_converted : ℕ → CommandEvent → Str → CommandWriter → CommandWriter
  unfolding converted_header
  buffer_converted step event converted w =
      let header = if w.converted_header_written then [] else converted_header world.now in
      record w {
        converted_input_buf = w.converted_input_buf ++ header ++ row step event converted;
        converted_header_written = true;
      }

  abbrev pub buffer_line : Session → (Str → CommandWriter) → Option Str → Done
  buffer_line s extended none = (s, false)
  buffer_line s extended (some json) = (with_writer s (extended (json ++ 10 ∷ [])), true)

  unfoldable pub buffer_jsonl : CommandEvent → Session → Done
  buffer_jsonl event s =
      let w = s.writer in
      buffer_line s (λ line. record w { actuation_buf = w.actuation_buf ++ line })
        (world.event_json event)

  unfoldable pub buffer_cc_command : ℕ → CommandEvent → Session → Done
  buffer_cc_command step event s =
      let w = s.writer in
      buffer_line s (λ line. record w { cc_buf = w.cc_buf ++ line })
        (world.entry_json step event.os_type (to_cc_command event))

  header_of : Str → Str
  unfolding raw_header converted_header
  header_of name =
      if str_eq name (codes "raw_input.md")
      then raw_header world.now
      else if str_eq name (codes "converted_input.md")
      then converted_header world.now
      else []

  -- `append_line`: a file that does not exist is created, with its header.
  unfoldable pub append_line : Str → Str → Session → Done
  unfolding header_of
  append_line name line s =
      let before = unwrap_or [] (s.disk name) in
      let header = if is_some (s.disk name) then [] else header_of name in
      appended (world.opens name) (is_empty header || world.writes name header)
        (world.writes name line) s (set_file name before s.disk)
        (set_file name (before ++ header) s.disk) (set_file name (before ++ header ++ line) s.disk)

  abbrev pub append_json : Str → Session → Option Str → Done
  append_json name s none = (s, false)
  append_json name s (some json) = append_line name (json ++ 10 ∷ []) s

  unfoldable pub write_local : ℕ → CommandEvent → Str → Session → Done
  write_local step event converted s =
      and_then
        (and_then
          (and_then (append_line (codes "raw_input.md") (row step event event.raw_command) s)
            (append_line (codes "converted_input.md") (row step event converted)))
          (λ t. append_json (codes "actuation_commands.json") t (world.event_json event)))
        (λ t.
          append_json (codes "cc_commands.json") t
            (world.entry_json step event.os_type (to_cc_command event)))

  unfoldable pub write_cloud : ℕ → CommandEvent → Str → Session → Done
  write_cloud step event converted s =
      let buffered = buffer_converted step event converted (buffer_raw step event s.writer) in
      and_then (buffer_jsonl event (with_writer s buffered)) (buffer_cc_command step event)

  -- `write_event`
  unfoldable pub write_event : CommandEvent → Str → Session → Session × Option ℕ
  write_event event converted s =
      let step = (s.writer.step_counter + 1) % 2 ^ 32 in
      let counted = with_writer s (record s.writer { step_counter = step }) in
      step_if step (
        if s.writer.is_cloud_primary
        then write_cloud step event converted counted
        else write_local step event converted counted)

  -- `storage.put`
  unfoldable pub put : Str → Str → Session → Done
  put path text s =
      if world.puts path
      then (record s { storage = set_file path text s.storage }, true)
      else (s, false)

  unfoldable pub flush_to_cloud : Session → Done
  flush_to_cloud s =
      let w = s.writer in
      if not w.is_cloud_primary
      then (s, true)
      else and_then
          (and_then
            (and_then (put (cloud_path w (codes "commands/raw_input.md")) w.raw_input_buf s)
              (put (cloud_path w (codes "commands/converted_input.md")) w.converted_input_buf))
            (put (cloud_path w (codes "commands/actuation_commands.json")) w.actuation_buf))
          (put (cloud_path w (codes "commands/cc_commands.json")) w.cc_buf)

  -- `collect` of the values of the lines that are not blank; the first that is no JSON ends it
  collect_values : List Str → Option (List Str)
  collect_values [] = some []
  collect_values (line ∷ lines) =
      let values = collect_values lines in
      if is_empty (trim line) then values else elim (world.value_json line) [
        | none ↦ none
        | some value ↦ elim values [ none ↦ none | some rest ↦ some (value ∷ rest) ]
      ]

  abbrev print_values : Option (List Str) → Option Str
  print_values none = none
  print_values (some values) = world.array_json values

  -- The lines of a file as a JSON array.
  unfoldable pub array_of_lines : Str → Option Str
  unfolding collect_values lines_of
  array_of_lines raw = print_values (collect_values (lines_of raw))

  abbrev array_of_buffer : Str → Option Str
  array_of_buffer buf = if is_empty (trim buf) then world.array_json [] else array_of_lines buf

  abbrev pub put_array : Str → Session → Option Str → Done
  put_array path s none = (s, false)
  put_array path s (some json) = put path json s

  unfoldable pub finalise_jsonl_buf_cloud : Str → Str → Session → Done
  finalise_jsonl_buf_cloud filename buf s =
      put_array (cloud_path s.writer (codes "commands/" ++ filename)) s (array_of_buffer buf)

  -- the new text goes to a temporary file, which is then renamed
  abbrev replace_file : Str → Session → Option Str → Done
  replace_file name s none = (s, false)
  replace_file name s (some json) =
      if world.writes name json
      then (record s { disk = set_file name json s.disk }, true)
      else (s, false)

  abbrev array_of : Str → Option Str → Option Str
  array_of name none = some (codes "[]" ++ 10 ∷ [])
  array_of name (some raw) = if world.reads name then array_of_lines raw else none

  unfoldable pub finalise_jsonl_file : Str → Session → Done
  finalise_jsonl_file name s = replace_file name s (array_of name (s.disk name))

  unfoldable pub finalise : Session → Done
  finalise s =
      let w = s.writer in
      if w.is_cloud_primary
      then and_then
          (and_then (finalise_jsonl_buf_cloud (codes "actuation_commands.json") w.actuation_buf s)
            (finalise_jsonl_buf_cloud (codes "cc_commands.json") w.cc_buf))
          flush_to_cloud
      else and_then (finalise_jsonl_file (codes "actuation_commands.json") s)
          (finalise_jsonl_file (codes "cc_commands.json"))
