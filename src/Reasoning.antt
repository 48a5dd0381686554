-- ===== src/Reasoning.antt =====
-- The entries of reasoning.jsonl, of ma-core/src/session/reasoning.rs: one for each step, built from
-- what a model reported, and put into the file of a session by writing a new file in its place.
-- serde_json, the clock and the outcomes of the file operations are parameters.
pub mod Upsert
use memory_archive.Prelude.{
  ltb, ◌==◌, if◌then◌else◌, is_empty, ℕ, Bool, true, false, not, Option, none, some, List, [], ◌∷◌,
  ◌++◌, map,
}
use memory_archive.Text.{Str}
use memory_archive.Text.Trim.{trim}
use memory_archive.Writer.{lines_of}
use memory_archive.State.{StepEntry}

pub record ReasoningEntry (Real Json : Type 0) : Type 0 where
  pub step_id : ℕ
  pub timestamp_action : Str
  pub timestamp_annotated : Str
  pub action_type : Str
  pub action_subtype : Str
  pub raw_command : Str
  pub converted_command : Str
  pub image_path : Option Str
  pub reasoning : Str
  pub skipped : Bool
  pub source : Str
  pub provider : Option Str
  pub model_id : Option Str
  pub api_version : Option Str
  pub input_tokens : Option ℕ
  pub output_tokens : Option ℕ
  pub latency_ms : Option ℕ
  pub action_intent : Option Str
  pub confidence : Option Real
  pub keyboard_visual_annotation : Option Json

pub record AutomatedReasoning (Real Json : Type 0) : Type 0 where
  pub reasoning : Str
  pub source : Str
  pub provider : Option Str
  pub model_id : Option Str
  pub api_version : Option Str
  pub input_tokens : Option ℕ
  pub output_tokens : Option ℕ
  pub latency_ms : Option ℕ
  pub action_intent : Option Str
  pub confidence : Option Real
  pub keyboard_visual_annotation : Option Json

-- with the time of the call
unfoldable pub build_automated_entry :
    {Real Json : Type 0} → Str → StepEntry → AutomatedReasoning Real Json → ReasoningEntry Real Json
build_automated_entry now step model = record {
  step_id = step.step_id;
  timestamp_action = step.timestamp;
  timestamp_annotated = now;
  action_type = step.action_type;
  action_subtype = step.action_subtype;
  raw_command = step.raw_command;
  converted_command = step.converted_command;
  image_path = step.image_path;
  reasoning = model.reasoning;
  skipped = false;
  source = model.source;
  provider = model.provider;
  model_id = model.model_id;
  api_version = model.api_version;
  input_tokens = model.input_tokens;
  output_tokens = model.output_tokens;
  latency_ms = model.latency_ms;
  action_intent = model.action_intent;
  confidence = model.confidence;
  keyboard_visual_annotation = model.keyboard_visual_annotation;
}

-- serde_json on an entry, with its numbers and its values
pub record Serde : Type 1 where
  pub Real : Type 0
  pub Json : Type 0
  pub to_string : ReasoningEntry Real Json → Option Str
  pub from_str : Str → Option (ReasoningEntry Real Json)

-- reasoning.jsonl and the file that is renamed to it
pub record Disk : Type 0 where
  pub jsonl : Option Str
  pub tmp : Option Str

-- Which file operations of a call succeed, and what a write that fails leaves of its file.
pub record Io : Type 0 where
  pub creates_dir : Bool
  pub reads : Bool
  pub writes : Bool
  pub renames : Bool
  pub torn : Option Str

-- The text of an entry as a line; nothing for one that is empty or could not be made.
abbrev pub text_line : Option Str → Str
text_line none = []
text_line (some text) = if is_empty text then [] else text ++ 10 ∷ []

-- The new content is written beside the file and renamed to it.
abbrev pub replace : Io → Str → Disk → Disk × Bool
replace io content disk =
    if io.writes
    then (if io.renames
        then (record { jsonl = some content; tmp = none }, true)
        else (record disk { tmp = some content }, false))
    else (record disk { tmp = io.torn }, false)

module _ (serde : Serde) where
  abbrev pub Entry : Type 0
  Entry = ReasoningEntry serde.Real serde.Json

  -- The map by step, as the list of its values in the order of their keys.
  unfoldable pub insert : Entry → List Entry → List Entry
  insert e [] = e ∷ []
  insert e (x ∷ xs) =
      let rest = insert e xs in
      if x.step_id == e.step_id
      then e ∷ xs
      else (if ltb e.step_id x.step_id then e ∷ x ∷ xs else x ∷ rest)

  -- A line that is blank or malformed is skipped.
  abbrev pub entry_of : Str → Option Entry
  entry_of line = if is_empty line then none else serde.from_str line

  abbrev pub insert_parsed : Option Entry → List Entry → List Entry
  insert_parsed none entries = entries
  insert_parsed (some e) entries = insert e entries

  unfoldable pub insert_lines : List Str → List Entry → List Entry
  insert_lines [] entries = entries
  insert_lines (line ∷ lines) entries =
      insert_lines lines (insert_parsed (entry_of (trim line)) entries)

  unfoldable pub read_entries : Str → List Entry
  read_entries raw = insert_lines (lines_of raw) []

  unfoldable pub content : List Entry → Str
  content [] = []
  content (e ∷ entries) = text_line (serde.to_string e) ++ content entries

  abbrev pub existing : Io → Option Str → Option (List Entry)
  existing io none = some []
  existing io (some raw) = if io.reads then some (read_entries raw) else none

  abbrev pub write_entries : Io → Entry → Option (List Entry) → Disk → Disk × Bool
  write_entries io e none disk = (disk, false)
  write_entries io e (some entries) disk = replace io (content (insert e entries)) disk

  -- with whether it succeeds
  unfoldable pub upsert_entry : Io → Entry → Disk → Disk × Bool
  upsert_entry io e disk =
      if io.creates_dir then write_entries io e (existing io disk.jsonl) disk else (disk, false)
