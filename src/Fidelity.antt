-- ===== src/Fidelity.antt =====
-- ma-core/src/capture/fidelity.rs: the check that flags a typed command whose stored copy looks
-- cut short. The notes that it attaches stand in the child Notes.
mod Notes
pub mod Quotes
pub mod Escapes
pub mod Signals
use memory_archive.Prelude.{
  ◌==◌, if◌then◌else◌, is_empty, ℕ, zero, suc, ◌+◌, ◌%◌, Bool, true, false, not, ◌&&◌, ◌||◌, Option,
  none, some, [], ◌∷◌,
}
use memory_archive.Text.{Str, codes, str_eq, is_whitespace, strip_prefix}
use memory_archive.Event.{CommandEvent}
use Notes.{dangling_escape_detail, double_quote_detail, single_quote_detail, note_of}
use mathlib.Core.List.{reverse}

abbrev pub backslash : ℕ
backslash = 0x5C

abbrev pub double_quote : ℕ
double_quote = 0x22

abbrev pub single_quote : ℕ
single_quote = 0x27

-- The two variables of the loop of `unescaped_quote_count` after one character.
abbrev pub next_count : (quote count backslashes ch : ℕ) → ℕ
next_count quote count backslashes ch =
    if ch == backslash
    then count
    else if ch == quote && backslashes % 2 == 0
    then count + 1
    else count

abbrev pub next_run : (backslashes ch : ℕ) → ℕ
next_run backslashes ch = if ch == backslash then backslashes + 1 else 0

unfoldable pub count_quotes : (quote count backslashes : ℕ) → Str → ℕ
count_quotes quote count backslashes [] = count
count_quotes quote count backslashes (ch ∷ text) =
    count_quotes quote (next_count quote count backslashes ch) (next_run backslashes ch) text

unfoldable pub unescaped_quote_count : Str → ℕ → ℕ
unfolding count_quotes
unescaped_quote_count text quote = count_quotes quote 0 0 text

-- `take_while(|c| *c == '\\').count()`
unfoldable pub backslash_run : Str → ℕ
backslash_run [] = 0
backslash_run (ch ∷ text) = if ch == backslash then suc (backslash_run text) else 0

-- `Iterator::nth`
unfoldable pub nth : ℕ → Str → Option ℕ
nth n [] = none
nth zero (ch ∷ text) = some ch
nth (suc n) (ch ∷ text) = nth n text

preceded_by_space : Option ℕ → Bool
preceded_by_space none = true
preceded_by_space (some prev) = is_whitespace prev

-- The same on the characters from the last one on.
unfoldable pub begins_with_lone_escape : Str → Bool
unfolding backslash_run nth preceded_by_space
begins_with_lone_escape chars =
    let run = backslash_run chars in
    if run % 2 == 0 || run == 0 then false else preceded_by_space (nth run chars)

unfoldable pub ends_with_lone_escape : Str → Bool
unfolding begins_with_lone_escape
ends_with_lone_escape text = begins_with_lone_escape (reverse text)

pub record RecordSuspect : Type 0 where
  pub check : Str
  pub note : Str

abbrev suspect : Str → Str → RecordSuspect
suspect check detail = record { check = check; note = note_of detail }

-- the three signals, strongest first
unfoldable pub inspect_text : Str → Option RecordSuspect
inspect_text text =
    if ends_with_lone_escape text
    then some (suspect (codes "dangling-escape") dangling_escape_detail)
    else if unescaped_quote_count text double_quote % 2 == 1
    then some (suspect (codes "unbalanced-double-quote") double_quote_detail)
    else if unescaped_quote_count text single_quote % 2 == 1
    then some (suspect (codes "unbalanced-single-quote") single_quote_detail)
    else none

-- `strip_prefix("Typed: ")?`, and nothing to say of an empty text
abbrev inspect_typed : Option Str → Option RecordSuspect
inspect_typed none = none
inspect_typed (some text) = if is_empty text then none else inspect_text text

unfoldable pub inspect : CommandEvent → Option RecordSuspect
inspect event =
    if not (str_eq event.action_type (codes "keyboard"))
      || not (str_eq event.action_subtype (codes "type"))
    then none
    else inspect_typed (strip_prefix (codes "Typed: ") event.raw_command)
