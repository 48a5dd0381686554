-- ===== src/Convert/Modifiers.antt =====
-- `split_mouse_modifiers` of ma-core/src/convert/mod.rs against a description of what it should
-- find: the longest chain of modifier names in front of the action.
use memory_archive.Prelude.{
  ◌==◌, if◌then◌else◌, ==_iff, Bool-cases, is_some, All, All-append, String, ◌≡◌, refl, sym, ap,
  subst, ◌∙◌, ◌≢◌, ◌↔◌, inl, inr, true, false, some, List, [], ◌∷◌, ◌++◌, append_assoc, append-nil,
  arith,
}
use memory_archive.Text.{Str, codes, str_eq, str_eq_iff, Lacks}
use memory_archive.Convert.{
  symbol_in, mouse_modifiers, symbol_of, push_modifier, split_from, split_mouse_modifiers,
}

-- The names, each with a `+` behind it, and the action.
abbrev pub chain : List Str → Str → Str
chain [] action = action
chain (name ∷ names) action = name ++ (b'+' ∷ chain names action)

abbrev pub IsModifier : Str → Type 0
IsModifier name = is_some (symbol_of name) ≡ true

-- No modifier name with a `+` behind it stands in front.
abbrev pub NoLead : Str → Type 0
NoLead rest = (name tail : Str) → IsModifier name → rest ≢ name ++ (b'+' ∷ tail)

-- No modifier has a `+` in its name.
symbol_in-Lacks :
    (rows : List (String × String)) (name : Str)
    → All (λ row. Lacks b'+' (codes row.0)) rows
    → is_some (symbol_in rows name) ≡ true
    → Lacks b'+' name
unfolding symbol_in
symbol_in-Lacks [] name h e = cc
symbol_in-Lacks ((known, symbol) ∷ rows) name h e = elim (Bool-cases (str_eq (codes known) name)) [
  | inl same ↦ subst (Lacks b'+') ((str_eq_iff (codes known) name).0 same) h.0
  | inr other ↦
      symbol_in-Lacks rows name h.1 (
        subst (λ b. is_some (if b then some (codes symbol) else symbol_in rows name) ≡ true) other
          e)
]

modifier-Lacks : (name : Str) → IsModifier name → Lacks b'+' name
unfolding symbol_of
modifier-Lacks name h = symbol_in-Lacks mouse_modifiers name (ground arith) h

-- Characters that are no `+` are read into the head.
split_from-append :
    (head start xs ys : Str)
    → Lacks b'+' xs
    → split_from head start (xs ++ ys) ≡ split_from (head ++ xs) start ys
unfolding split_from
split_from-append head start [] ys h = rw (append-nil head)
split_from-append head start (x ∷ xs) ys h = rw h.0 (
    split_from-append (head ++ x ∷ []) start xs ys h.1
    ∙ ap (λ w. split_from w start ys) (append_assoc head (x ∷ []) xs))

-- A modifier with its `+` is taken off.
split-modifier :
    (name rest : Str)
    → IsModifier name
    → split_mouse_modifiers (name ++ (b'+' ∷ rest))
      ≡ push_modifier name (split_mouse_modifiers rest)
unfolding split_mouse_modifiers split_from
split-modifier name rest h =
    split_from-append [] (name ++ (b'+' ∷ rest)) name (b'+' ∷ rest) (modifier-Lacks name h)
    ∙ rw h refl

split_mouse_modifiers-chain :
    (names : List Str) (rest : Str)
    → All IsModifier names
    → split_mouse_modifiers rest ≡ ([], rest)
    → split_mouse_modifiers (chain names rest) ≡ (names, rest)
split_mouse_modifiers-chain [] rest h stop = stop
split_mouse_modifiers-chain (name ∷ names) rest h stop =
    split-modifier name (chain names rest) h.0
    ∙ ap (push_modifier name) (split_mouse_modifiers-chain names rest h.1 stop)

-- Where no modifier leads, the loop stops at once.
split_from_stops :
    (head start s : Str) → start ≡ head ++ s → NoLead start → split_from head start s ≡ ([], start)
unfolding split_from
split_from_stops head start [] e h = refl
split_from_stops head start (c ∷ s) e h = elim (Bool-cases (c == b'+')) [
  | inl plus ↦ elim (Bool-cases (is_some (symbol_of head))) [
    | inl known ↦ absurd (h head s known (e ∙ ap (λ d. head ++ d ∷ s) ((==_iff c b'+').0 plus)))
    | inr other ↦ rw plus (rw other refl)
  ]
  | inr further ↦
      rw further
        (split_from_stops (head ++ c ∷ []) start s (e ∙ sym (append_assoc head (c ∷ []) s)) h)
]

-- What the loop returns, where it stands behind a head without a `+`.
abbrev Splits : Str → List Str × Str → Type 0
Splits start r =
    (start ≡ chain r.0 r.1) × All IsModifier r.0 × (split_mouse_modifiers r.1 ≡ ([], r.1))

split_from-Splits :
    (head start s : Str)
    → start ≡ head ++ s
    → Lacks b'+' head
    → Splits start (split_from head start s)
unfolding split_mouse_modifiers split_from
split_from-Splits head start [] e h =
    (refl, tt, ap (split_from [] start) e ∙ split_from-append [] start head [] h)
split_from-Splits head start (c ∷ s) e h = elim (Bool-cases (c == b'+')) [
  | inl plus ↦ elim (Bool-cases (is_some (symbol_of head))) [
    | inl known ↦ rw plus (
        rw known (
          let (whole, known_names, stopped) = split_from-Splits [] s s refl tt in
          (
            e
                ∙ ap (λ d. head ++ d ∷ s) ((==_iff c b'+').0 plus)
                ∙ ap (λ w. head ++ (b'+' ∷ w)) whole,
            (known, known_names),
            stopped,
          )))
    | inr other ↦ rw plus (
        rw other (
          refl,
          tt,
          ap (split_from [] start) e
              ∙ split_from-append [] start head (c ∷ s) h
              ∙ rw plus (rw other refl),
        ))
  ]
  | inr further ↦ rw further (
      split_from-Splits (head ++ c ∷ []) start s (e ∙ sym (append_assoc head (c ∷ []) s))
        (All-append (λ d. (d == b'+') ≡ false) head (c ∷ []) h (further, tt)))
]

lead_taken : (rest : Str) → split_mouse_modifiers rest ≡ ([], rest) → NoLead rest
lead_taken rest stopped name tail known e =
    nonempty (sym stopped ∙ ap split_mouse_modifiers e ∙ split-modifier name tail known)
  where
    nonempty : {r : List Str × Str} → ([], rest) ≢ push_modifier name r
    nonempty h = cc

-- A mouse command splits into names and a rest exactly when it is the names, each with a `+`
-- behind it, and the rest, every name is a modifier, and no modifier name with a `+` leads the
-- rest.
pub split_mouse_modifiers_iff :
    (raw : Str) (names : List Str) (rest : Str)
    → (split_mouse_modifiers raw ≡ (names, rest))
      ↔ ((raw ≡ chain names rest) × All IsModifier names × NoLead rest)
split_mouse_modifiers_iff raw names rest = (
  λ h.
      let (whole, known, stopped) =
        subst (Splits raw) h
          (unfold split_mouse_modifiers in split_from-Splits [] raw raw refl tt) in
      (whole, known, lead_taken rest stopped),
  λ h.
      ap split_mouse_modifiers h.0
      ∙ split_mouse_modifiers-chain names rest h.1
          (unfold split_mouse_modifiers in split_from_stops [] rest rest refl h.2),
)
