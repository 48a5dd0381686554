-- ===== src/Tests/Reasoned.antt =====
-- Inputs for the entries of reasoning.jsonl.
use memory_archive.Prelude.{
  ◌==◌, if◌then◌else◌, All, ℕ, ◌≡◌, refl, true, ◌&&◌, Option, none, some, [], ◌∷◌,
}
use memory_archive.Text.{is_whitespace, Str, codes, split_char, strip_prefix}
use memory_archive.Text.Trim.{trim, trim_start, trim_end}
use memory_archive.Text.Search.{strip_suffix}
use memory_archive.Writer.{lines_of}
use memory_archive.Reasoning.{
  ReasoningEntry, AutomatedReasoning, Serde, Disk, Io, build_automated_entry, insert, insert_lines,
  read_entries, content, upsert_entry,
}
use memory_archive.Reasoning.Upsert.{entry_for, entries_in, Prints, upsert_entry-latest}
use memory_archive.Tests.Steps.{entry}

abbrev reported : AutomatedReasoning Unit Unit
reported = record {
  reasoning = codes "opens the menu";
  source = codes "model";
  provider = none;
  model_id = none;
  api_version = none;
  input_tokens = some 900;
  output_tokens = some 40;
  latency_ms = none;
  action_intent = none;
  confidence = none;
  keyboard_visual_annotation = none;
}

abbrev noted : ℕ → ReasoningEntry Unit Unit
unfolding build_automated_entry
noted n = build_automated_entry (codes "2026-01-01T00:00:00Z") (entry n) reported

-- a printer that writes the step's number as one character between braces
abbrev read_noted : Str → Option (ReasoningEntry Unit Unit)
read_noted (open_brace ∷ n ∷ close_brace ∷ []) = some (noted n)
read_noted text = none

abbrev braces : Serde
braces = record {
  Real = Unit;
  Json = Unit;
  to_string = λ e. some (b'{' ∷ e.step_id ∷ b'}' ∷ []);
  from_str = read_noted;
}

abbrev smooth : Io
smooth = record { creates_dir = true; reads = true; writes = true; renames = true; torn = none }

-- two entries, out of order, and a malformed line between them
abbrev held : Disk
held = record { jsonl = some (codes "{C}\n broken \n{A}\n"); tmp = none }

abbrev left : Disk
left = record { jsonl = some (codes "{A}\n{B}\n{C}\n"); tmp = none }

upserted : upsert_entry braces smooth (noted 66) held ≡ (left, true)
unfolding upsert_entry insert content read_entries insert_lines lines_of split_char strip_suffix
    trim trim_start trim_end strip_prefix is_whitespace noted
upserted = refl

held-Prints : All (Prints braces) (entries_in braces held.jsonl)
unfolding insert read_entries insert_lines lines_of split_char strip_suffix trim trim_start trim_end
    strip_prefix is_whitespace noted
held-Prints = (
  (_, refl, (refl, (refl, (refl, tt))), refl, refl, refl, refl),
  ((_, refl, (refl, (refl, (refl, tt))), refl, refl, refl, refl), tt),
)

noted-Prints : Prints braces (noted 66)
unfolding strip_suffix trim trim_start trim_end strip_prefix is_whitespace noted
noted-Prints = (_, refl, (refl, (refl, (refl, tt))), refl, refl, refl, refl)

upsert_entry-latest_example : entry_for braces 65 (entries_in braces left.jsonl) ≡ (
    if true && (66 == 65)
    then some (noted 66)
    else entry_for braces 65 (entries_in braces held.jsonl))
unfolding noted
upsert_entry-latest_example =
    upsert_entry-latest braces smooth 65 (noted 66) held held-Prints noted-Prints upserted
