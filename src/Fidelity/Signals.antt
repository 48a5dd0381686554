-- ===== src/Fidelity/Signals.antt =====
-- What `inspect` flags: exactly which typed texts, and the shapes that a cut leaves.
use mathlib.Core.List.{reverse-append}
use memory_archive.Prelude.{
  [], ◌∷◌, Option-cases, is_some, is_empty, ℕ, ◌+◌, ◌*◌, ◌%◌, ◌≡◌, refl, ap, ◌∙◌, ◌↔◌, ◌⊎◌, inl,
  inr, true, false, some, ◌++◌, arith,
}
use memory_archive.Text.{
  is_whitespace, Str, codes, str_eq, strip_prefix, str_eq_iff, strip_prefix-append,
  strip_prefix-eq_some,
}
use memory_archive.Event.{CommandEvent}
use memory_archive.Fidelity.{
  backslash, is_whitespace, double_quote_detail, begins_with_lone_escape, dangling_escape_detail,
  suspect, double_quote, single_quote, unescaped_quote_count, ends_with_lone_escape, RecordSuspect,
  inspect_text, inspect,
}
use memory_archive.Fidelity.Quotes.{
  live_quotes-append, flag_after, live_quotes, unescaped_quote_count-live,
}
use memory_archive.Fidelity.Escapes.{backslashes, EndsBlank, ends_with_lone_escape_iff}

-- A keyboard event that typed `text`.
pub record IsTyped (event : CommandEvent) (text : Str) : Type 0 where
  pub action_type : event.action_type ≡ codes "keyboard"
  pub action_subtype : event.action_subtype ≡ codes "type"
  pub raw_command : event.raw_command ≡ codes "Typed: " ++ text
  pub nonempty : is_empty text ≡ false

inspect-typed :
    (event : CommandEvent) (text : Str) → IsTyped event text → inspect event ≡ inspect_text text
unfolding inspect
inspect-typed event text h =
    let keyboard : str_eq event.action_type (codes "keyboard") ≡ true =
      (str_eq_iff event.action_type (codes "keyboard")).1 h.action_type in
    let type : str_eq event.action_subtype (codes "type") ≡ true =
      (str_eq_iff event.action_subtype (codes "type")).1 h.action_subtype in
    let stripped : strip_prefix (codes "Typed: ") event.raw_command ≡ some text =
      ap (strip_prefix (codes "Typed: ")) h.raw_command
      ∙ strip_prefix-append (codes "Typed: ") text in
    rw keyboard (rw type (rw stripped (rw h.nonempty)))

-- Only a typed text is ever flagged.
pub inspect-IsTyped :
    (event : CommandEvent) (s : RecordSuspect)
    → inspect event ≡ some s
    → (text : Str) × IsTyped event text
unfolding inspect
inspect-IsTyped event s h = elim (Option-cases (strip_prefix (codes "Typed: ") event.raw_command)) [
  | inl absent ↦ absurd (ground arith)
  | inr (text, stripped) ↦ (
    text,
    record {
      action_type = (str_eq_iff event.action_type (codes "keyboard")).0 (ground arith);
      action_subtype = (str_eq_iff event.action_subtype (codes "type")).0 (ground arith);
      raw_command = strip_prefix-eq_some (codes "Typed: ") event.raw_command stripped;
      nonempty = ground arith;
    },
  )
]

-- The three signals, by their descriptions.
abbrev pub LooksCut : Str → Type 0
LooksCut text =
    ((k : ℕ) × (pre : Str) × (text ≡ pre ++ backslashes (k * 2 + 1)) × EndsBlank pre)
    ⊎ (live_quotes double_quote false text % 2 ≡ 1)
    ⊎ (live_quotes single_quote false text % 2 ≡ 1)

doubles_live :
    (text : Str) → unescaped_quote_count text double_quote ≡ live_quotes double_quote false text
doubles_live text = unescaped_quote_count-live text double_quote (omega arith)

singles_live :
    (text : Str) → unescaped_quote_count text single_quote ≡ live_quotes single_quote false text
singles_live text = unescaped_quote_count-live text single_quote (omega arith)

inspect_text_iff :
    (text : Str)
    → (is_some (inspect_text text) ≡ true) ↔ (
        (ends_with_lone_escape text ≡ true)
        ⊎ (unescaped_quote_count text double_quote % 2 ≡ 1)
        ⊎ (unescaped_quote_count text single_quote % 2 ≡ 1))
unfolding inspect_text
inspect_text_iff text = (λ h. ground arith, λ h. ground arith)

-- A typed text is flagged exactly when it ends in an odd number of backslashes that follow nothing
-- or a space, or has an odd number of live double quotes, or of live single quotes; a quote is
-- live if no backslash that is itself live escapes it.
pub inspect_iff :
    (event : CommandEvent) (text : Str)
    → IsTyped event text
    → (is_some (inspect event) ≡ true) ↔ LooksCut text
inspect_iff event text h = rw (inspect-typed event text h) (
    rw (← doubles_live text) (
      rw (← singles_live text) (
        λ e. elim ((inspect_text_iff text).0 e) [
          | inl lone ↦ inl ((ends_with_lone_escape_iff text).0 lone)
          | inr quotes ↦ inr quotes
        ],
        λ cut. (inspect_text_iff text).1 (elim cut [
          | inl lone ↦ inl ((ends_with_lone_escape_iff text).1 lone)
          | inr quotes ↦ inr quotes
        ]),
      )))

lone_first :
    (text : Str)
    → ends_with_lone_escape text ≡ true
    → (s : RecordSuspect) × (inspect_text text ≡ some s) × (s.check ≡ codes "dangling-escape")
unfolding inspect_text
lone_first text h = (suspect (codes "dangling-escape") dangling_escape_detail, rw h, refl)

-- The check of a flag.
abbrev pub FlaggedAs : CommandEvent → Str → Type 0
FlaggedAs event check = (s : RecordSuspect) × (inspect event ≡ some s) × (s.check ≡ check)

quote_ends : (text : Str) → ends_with_lone_escape (text ++ double_quote ∷ []) ≡ false
unfolding ends_with_lone_escape begins_with_lone_escape
quote_ends text = rw (reverse-append text (double_quote ∷ [])) refl

escape_ends : (text : Str) → ends_with_lone_escape (text ++ 0x20 ∷ backslash ∷ []) ≡ true
unfolding ends_with_lone_escape begins_with_lone_escape is_whitespace
escape_ends text = rw (reverse-append text (0x20 ∷ backslash ∷ [])) refl

open_quote :
    (text : Str)
    → flag_after false text ≡ false
    → live_quotes double_quote false text % 2 ≡ 0
    → unescaped_quote_count (text ++ double_quote ∷ []) double_quote % 2 ≡ 1
unfolding live_quotes
open_quote text flag even =
    rw (doubles_live (text ++ double_quote ∷ []))
      (rw (live_quotes-append double_quote false text (double_quote ∷ [])) (rw flag (omega arith)))

double_second :
    (text : Str)
    → ends_with_lone_escape text ≡ false
    → unescaped_quote_count text double_quote % 2 ≡ 1
    → (s : RecordSuspect) × (inspect_text text ≡ some s)
      × (s.check ≡ codes "unbalanced-double-quote")
unfolding inspect_text
double_second text h odd =
    (suspect (codes "unbalanced-double-quote") double_quote_detail, ground arith, refl)

-- Whatever was typed before the cut, a copy that ends in a space and a backslash is flagged as
-- `dangling-escape`.
pub cut_at_escape :
    (event : CommandEvent) (text : Str)
    → IsTyped event (text ++ 0x20 ∷ backslash ∷ [])
    → FlaggedAs event (codes "dangling-escape")
cut_at_escape event text h =
    let (s, flagged, slug) = lone_first (text ++ 0x20 ∷ backslash ∷ []) (escape_ends text) in
    (s, inspect-typed event _ h ∙ flagged, slug)

-- A copy that is cut behind a double quote which is not escaped and opens a pair is flagged as
-- `unbalanced-double-quote`.
pub cut_at_quote :
    (event : CommandEvent) (text : Str)
    → IsTyped event (text ++ double_quote ∷ [])
    → flag_after false text ≡ false
    → live_quotes double_quote false text % 2 ≡ 0
    → FlaggedAs event (codes "unbalanced-double-quote")
cut_at_quote event text h flag even =
    let (s, flagged, slug) =
      double_second (text ++ double_quote ∷ []) (quote_ends text) (open_quote text flag even) in
    (s, inspect-typed event _ h ∙ flagged, slug)
