-- ===== src/Fidelity/Escapes.antt =====
-- `ends_with_lone_escape` against a description of the texts that it flags.
use mathlib.Core.List.{reverse, reverse-append, reverse-reverse, reverse-cons}
use memory_archive.Prelude.{
  ◌==◌, if◌then◌else◌, Bool-cases, ℕ, zero, suc, ◌+◌, ◌*◌, ◌/◌, ◌≡◌, refl, sym, ap, subst, ◌∙◌, ◌↔◌,
  inl, inr, true, [], ◌∷◌, ◌++◌, arith,
}
use memory_archive.Text.{Str, is_whitespace}
use memory_archive.Fidelity.{
  preceded_by_space, backslash, backslash_run, nth, begins_with_lone_escape, ends_with_lone_escape,
}

abbrev pub backslashes : ℕ → Str
backslashes zero = []
backslashes (suc n) = backslash ∷ backslashes n

after_run : Str → Str
after_run [] = []
after_run (ch ∷ text) = if ch == backslash then after_run text else ch ∷ text

-- The text is empty or begins with a space.
abbrev pub BeginsBlank : Str → Type 0
BeginsBlank [] = Unit
BeginsBlank (ch ∷ text) = is_whitespace ch ≡ true

split_run : (chars : Str) → chars ≡ backslashes (backslash_run chars) ++ after_run chars
unfolding backslash_run after_run
split_run [] = refl
split_run (ch ∷ chars) = elim (Bool-cases (ch == backslash)) [
  | inl same ↦ ground (arith, split_run chars)
  | inr other ↦ ground arith
]

nth_run :
    (chars : Str)
    → (preceded_by_space (nth (backslash_run chars) chars) ≡ true) ↔ BeginsBlank (after_run chars)
unfolding backslash_run after_run nth preceded_by_space
nth_run [] = (λ _. tt, λ _. refl)
nth_run (ch ∷ chars) = elim (Bool-cases (ch == backslash)) [
  | inl same ↦ rw same (nth_run chars)
  | inr other ↦ rw other ((λ h. h), (λ h. h))
]

backslash_run-append :
    (n : ℕ) (rest : Str)
    → BeginsBlank rest
    → (backslash_run (backslashes n ++ rest) ≡ n) × (after_run (backslashes n ++ rest) ≡ rest)
unfolding backslash_run after_run is_whitespace
backslash_run-append zero [] h = (refl, refl)
backslash_run-append zero (ch ∷ rest) h = ground arith
backslash_run-append (suc n) rest h =
    let (run, after) = backslash_run-append n rest h in (ap suc run, after)

abbrev odd : ℕ → ℕ
odd k = k * 2 + 1

begins_lone_back :
    (k : ℕ) (rest : Str)
    → BeginsBlank rest
    → begins_with_lone_escape (backslashes (odd k) ++ rest) ≡ true
unfolding begins_with_lone_escape
begins_lone_back k rest h =
    let (run, after) = backslash_run-append (odd k) rest h in
    ground (arith, run, (nth_run (backslashes (odd k) ++ rest)).1 (subst BeginsBlank (sym after) h))

begins_lone_there :
    (chars : Str)
    → begins_with_lone_escape chars ≡ true
    → (odd (backslash_run chars / 2) ≡ backslash_run chars) × BeginsBlank (after_run chars)
unfolding begins_with_lone_escape
begins_lone_there chars h = (ground arith, (nth_run chars).0 (ground arith))

begins_lone_iff :
    (chars : Str)
    → (begins_with_lone_escape chars ≡ true)
      ↔ ((k : ℕ) × (rest : Str) × (chars ≡ backslashes (odd k) ++ rest) × BeginsBlank rest)
begins_lone_iff chars = (
  λ h.
      let (run, blank) = begins_lone_there chars h in
      (
        backslash_run chars / 2,
        after_run chars,
        subst (λ n. chars ≡ backslashes n ++ after_run chars) (sym run) (split_run chars),
        blank,
      ),
  λ (k, rest, e, blank).
      subst (λ c. begins_with_lone_escape c ≡ true) (sym e) (begins_lone_back k rest blank),
)

backslashes-snoc : (n : ℕ) → backslashes n ++ backslash ∷ [] ≡ backslash ∷ backslashes n
backslashes-snoc zero = refl
backslashes-snoc (suc n) = ap (λ (t : Str). backslash ∷ t) (backslashes-snoc n)

reverse-backslashes : (n : ℕ) → reverse (backslashes n) ≡ backslashes n
reverse-backslashes zero = refl
reverse-backslashes (suc n) =
    reverse-cons backslash (backslashes n)
    ∙ ap (λ (t : Str). t ++ backslash ∷ []) (reverse-backslashes n)
    ∙ backslashes-snoc n

-- The text is empty or ends in a space.
abbrev pub EndsBlank : Str → Type 0
EndsBlank text = BeginsBlank (reverse text)

-- A text is flagged for a lone escape exactly when it ends in an odd number of backslashes, with
-- nothing or a space before them.
pub ends_with_lone_escape_iff :
    (text : Str)
    → (ends_with_lone_escape text ≡ true)
      ↔ ((k : ℕ) × (pre : Str) × (text ≡ pre ++ backslashes (k * 2 + 1)) × EndsBlank pre)
unfolding ends_with_lone_escape
ends_with_lone_escape_iff text = (
  λ h.
      let (k, rest, e, blank) = (begins_lone_iff (reverse text)).0 h in
      (
        k,
        reverse rest,
        sym (reverse-reverse text)
            ∙ ap reverse e
            ∙ reverse-append (backslashes (odd k)) rest
            ∙ ap (λ (t : Str). reverse rest ++ t) (reverse-backslashes (odd k)),
        subst BeginsBlank (sym (reverse-reverse rest)) blank,
      ),
  λ (k, pre, e, blank). (begins_lone_iff (reverse text)).1 (
    k,
    reverse pre,
    ap reverse e
        ∙ reverse-append pre (backslashes (odd k))
        ∙ ap (λ (t : Str). t ++ reverse pre) (reverse-backslashes (odd k)),
    blank,
  ),
)
