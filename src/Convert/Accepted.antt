-- ===== src/Convert/Accepted.antt =====
-- What ma-core/src/convert/mod.rs lets through to the records: the keys of a `press` command, and
-- the label of a verb.
use memory_archive.Prelude.{
  ℕ, Bool, Option, none, some, is_some, if◌then◌else◌, ◌==◌, ◌||◌, ==_iff, leb, &&-eq_true,
  Bool-cases, unwrap_or, is_empty, all, All, String, ◌≡◌, refl, ◌⊎◌, inl, inr, true, false, not,
  ◌&&◌, List, [], ◌∷◌, ◌++◌, arith,
}
use memory_archive.Text.{
  Str, codes, str_eq, is_ascii_digit, is_ascii_alphanumeric, len_utf8, len, strip_prefix,
}
use memory_archive.Text.Search.{one_of, lookup, strip_suffix, ends_with}
use memory_archive.Event.{CommandEvent}
use memory_archive.Convert.{
  split_subtype_symbols, split_mouse_modifiers, max_subtype_len, is_label_char, safe_subtype,
}
use memory_archive.Convert.Drag.{
  scan_notches, max_drag_points, DragScan, path, too_long, absent, scan_drag_path,
}
use memory_archive.Convert.Keys.{cc_keys, normalize_key, is_chord_mark, is_modifier_combo}
use memory_archive.Text.Suffix.{ends_with-split, ends_with-append}
use memory_archive.Convert.Lines.{
  modifiers_of, prefix_of, count_text, verb_line, drag_or_verb, convert_mouse, drag_line, verbs,
  action_label, coords_text,
}
use memory_archive.Convert.Commands.{press_command}
use memory_archive.Text.Decimal.{show_nat}

-- Every arm has a label of this kind.
abbrev LabelsAre : (Str → Type 0) → List (List String × String) → Type 0
LabelsAre P = All (λ arm. P (codes arm.1))

lookup-LabelsAre :
    (P : Str → Type 0) (arms : List (List String × String)) (s other : Str)
    → LabelsAre P arms
    → P other
    → P (unwrap_or other (lookup arms s))
unfolding lookup
lookup-LabelsAre P [] s other h o = o
lookup-LabelsAre P ((names, label) ∷ arms) s other h o = elim (Bool-cases (one_of names s)) [
  | inl same ↦ rw same h.0
  | inr further ↦ rw further (lookup-LabelsAre P arms s other h.1 o)
]

abbrev one_in : ℕ → Str → Bool
one_in c [] = false
one_in c (d ∷ ds) = c == d || one_in c ds

-- Control-Center's form of a key: a name in braces, or a key behind the mark of a modifier, as
-- text or as macOS writes it.
abbrev pub in_form : Str → Bool
in_form [] = false
in_form (c ∷ key) = one_in c (codes "^+!#{⌘⌃⇧⌥")

is_modifier_combo-in_form : (key : Str) → is_modifier_combo key ≡ in_form key
unfolding is_modifier_combo is_chord_mark
is_modifier_combo-in_form [] = refl
is_modifier_combo-in_form (c ∷ key) = ground arith

-- A name in braces.
abbrev braced : Str → Bool
braced [] = false
braced (c ∷ s) = c == b'{' && ends_with (b'}' ∷ []) s

abbrev IsBraced : Str → Type 0
IsBraced s = braced s ≡ true

cc_keys-IsBraced : LabelsAre IsBraced cc_keys
unfolding ends_with strip_suffix strip_prefix
cc_keys-IsBraced = (ground arith)

braced-split : (s : Str) → IsBraced s → (name : Str) × (s ≡ b'{' ∷ (name ++ b'}' ∷ []))
braced-split [] h = cc
braced-split (c ∷ s) h =
    let (opens, closes) = &&-eq_true (c == b'{') (ends_with (b'}' ∷ []) s) h in
    let (name, e) = ends_with-split (b'}' ∷ []) s closes in (name, cc ((==_iff c b'{').0 opens, e))

lookup-IsBraced :
    (key : Str) (found : Option Str)
    → lookup cc_keys key ≡ found
    → IsBraced (unwrap_or (b'{' ∷ (key ++ b'}' ∷ [])) found)
    → (name : Str) × (unwrap_or (b'{' ∷ (key ++ b'}' ∷ [])) found ≡ b'{' ∷ (name ++ b'}' ∷ []))
      × ((name ≡ key) ⊎ (is_some (lookup cc_keys key) ≡ true))
lookup-IsBraced key none e h = (key, refl, inl refl)
lookup-IsBraced key (some label) e h =
    let (name, same) = braced-split label h in (name, same, inr (rw e refl))

normalize_key-IsBraced :
    (key : Str)
    → (name : Str) × (normalize_key key ≡ b'{' ∷ (name ++ b'}' ∷ []))
      × ((name ≡ key) ⊎ (is_some (lookup cc_keys key) ≡ true))
unfolding normalize_key
normalize_key-IsBraced key = lookup-IsBraced key (lookup cc_keys key) refl (
    lookup-LabelsAre IsBraced cc_keys key (b'{' ∷ (key ++ b'}' ∷ [])) cc_keys-IsBraced
      (ends_with-append key (b'}' ∷ [])))

-- The replay command of a key press is `press` and the key as it is, if that begins with one of
-- ^ + ! # ⌘ ⌃ ⇧ ⌥ or an opening brace; and else a name in braces, which is the key's own unless the
-- table of `normalize_key` knows the key.
pub press_command-InForm :
    (key : Str)
    → (name : Str) × (press_command key
        ≡ codes "press " ++ (if in_form key then key else b'{' ∷ (name ++ b'}' ∷ [])))
      × ((name ≡ key) ⊎ (is_some (lookup cc_keys key) ≡ true))
unfolding press_command
press_command-InForm key =
    let (name, braces, known) = normalize_key-IsBraced key in
    elim (Bool-cases (in_form key)) [
      | inl form ↦ (name, rw (is_modifier_combo-in_form key, form) refl, known)
      | inr bare ↦ (name, rw (is_modifier_combo-in_form key, bare, braces) refl, known)
    ]

-- A label that no reader takes for anything else: not empty, in 32 bytes, of letters, digits, `_`
-- and `-`.
abbrev pub IsLabel : Str → Type 0
IsLabel s = (is_empty s ≡ false) × (leb (len s) 32 ≡ true) × (all is_label_char s ≡ true)

verbs-IsLabel : LabelsAre IsLabel verbs
unfolding len len_utf8 is_label_char is_ascii_alphanumeric is_ascii_digit
verbs-IsLabel = ground arith

unknown-IsLabel : IsLabel (codes "unknown-action")
unfolding len len_utf8 is_label_char is_ascii_alphanumeric is_ascii_digit
unknown-IsLabel = ground arith

plausible-IsLabel :
    (s : Str)
    → (leb (len s) max_subtype_len && not (is_empty s) && all is_label_char s) ≡ true
    → IsLabel s
plausible-IsLabel s h =
    let (short, plain) =
      &&-eq_true (leb (len s) max_subtype_len && not (is_empty s)) (all is_label_char s) h in
    let (fits, full) = &&-eq_true (leb (len s) max_subtype_len) (not (is_empty s)) short in
    (ground arith, fits, plain)

safe_subtype-IsLabel : (s : Str) → IsLabel (safe_subtype s)
unfolding safe_subtype
safe_subtype-IsLabel s =
    elim (Bool-cases (leb (len s) max_subtype_len && not (is_empty s) && all is_label_char s)) [
      | inl plausible ↦ rw plausible (plausible-IsLabel s plausible)
      | inr other ↦ rw other unknown-IsLabel
    ]

-- Whatever the subtype of a mouse event is, the label of its action is not empty, takes 32 bytes
-- at most, and has no character but letters, digits, `_` and `-`.
pub action_label-IsLabel : (subtype : Str) → IsLabel (action_label subtype)
unfolding action_label
action_label-IsLabel subtype =
    lookup-LabelsAre IsLabel verbs subtype (safe_subtype subtype) verbs-IsLabel
      (safe_subtype-IsLabel subtype)

nonempty-append : (xs ys : Str) → is_empty ys ≡ false → is_empty (xs ++ ys) ≡ false
nonempty-append [] ys h = h
nonempty-append (x ∷ xs) ys h = refl

nonempty-front : (xs ys : Str) → is_empty xs ≡ false → is_empty (xs ++ ys) ≡ false
nonempty-front [] ys h = absurd (ground arith)
nonempty-front (x ∷ xs) ys h = refl

verb_line-nonempty :
    (event : CommandEvent) (prefix subtype rest : Str)
    → is_empty (verb_line event prefix subtype rest) ≡ false
unfolding verb_line
verb_line-nonempty event prefix subtype rest =
    let label = (action_label-IsLabel subtype).0 in
    rw label (
      nonempty-front (prefix ++ action_label subtype ++ count_text (scan_notches rest))
        (coords_text event)
        (nonempty-front (prefix ++ action_label subtype) (count_text (scan_notches rest))
          (nonempty-append prefix (action_label subtype) label)))

drag_or_verb-nonempty :
    (event : CommandEvent) (prefix rest : Str) (scan : DragScan)
    → is_empty (drag_or_verb event prefix rest scan) ≡ false
unfolding drag_or_verb drag_line
drag_or_verb-nonempty event prefix rest (path p) = nonempty-append prefix (drag_line p) refl
drag_or_verb-nonempty event prefix rest too_long =
    nonempty-append (prefix ++ codes "Drag path of more than " ++ show_nat max_drag_points)
      (codes " points, not recorded") refl
drag_or_verb-nonempty event prefix rest absent = verb_line-nonempty event prefix (codes "drag") rest

-- A mouse event is never recorded as an empty line.
pub convert_mouse-nonempty : (event : CommandEvent) → is_empty (convert_mouse event) ≡ false
unfolding convert_mouse
convert_mouse-nonempty event =
    let subtype = (split_subtype_symbols event.action_subtype).1 in
    let rest = (split_mouse_modifiers event.raw_command).1 in
    let prefix = prefix_of (modifiers_of event) in
    elim (Bool-cases (str_eq subtype (codes "drag"))) [
      | inl drag ↦ rw drag (drag_or_verb-nonempty event prefix rest (scan_drag_path rest))
      | inr other ↦ rw other (verb_line-nonempty event prefix subtype rest)
    ]
