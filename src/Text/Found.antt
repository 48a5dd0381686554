-- ===== src/Text/Found.antt =====
-- Where `find` finds its pattern, and how much text is left.
use memory_archive.Prelude.{
  ◌+◌, ◌==◌, Option-cases, length, length-append, ℕ, suc, ◌≤◌, ◌≡◌, refl, ap, inl, inr, Bool, false,
  Option, none, some, [], ◌∷◌, ◌++◌, arith,
}
use memory_archive.Text.{
  Str, strip_prefix, drop_until, strip_prefix-append, strip_prefix-eq_some, Lacks,
}
use memory_archive.Text.Search.{before_char, find}

strip_prefix-other :
    (c a : ℕ) (pattern s : Str) → (a == c) ≡ false → strip_prefix (c ∷ pattern) (a ∷ s) ≡ none
unfolding strip_prefix
strip_prefix-other c a pattern s e = ground arith

-- A text without the pattern's first character is passed over.
pub find-append :
    (c : ℕ) (pattern xs ys : Str)
    → Lacks c xs
    → find (c ∷ pattern) (xs ++ (c ∷ pattern ++ ys)) ≡ some (xs, ys)
unfolding find
find-append c pattern [] ys h = rw (strip_prefix-append (c ∷ pattern) ys) refl
find-append c pattern (x ∷ xs) ys h =
    rw (strip_prefix-other c x pattern (xs ++ (c ∷ pattern ++ ys)) h.0)
      (rw (find-append c pattern xs ys h.1) refl)

-- What stands behind a match, with `k` characters more, is no longer than `n`.
abbrev pub Leaves : ℕ → ℕ → Option (Str × Str) → Type 0
Leaves k n none = Unit
Leaves k n (some (before, after)) = length after + k ≤ n

strip_prefix-leaves :
    (pattern s : Str) {t : Str}
    → strip_prefix pattern s ≡ some t
    → length t + length pattern ≤ length s
strip_prefix-leaves pattern s {t = t} h =
    omega (arith, ap length (strip_prefix-eq_some pattern s {t = t} h), length-append pattern t)

before_char-Leaves :
    (k n c : ℕ) (o : Option (Str × Str)) → Leaves k n o → Leaves k (suc n) (before_char c o)
before_char-Leaves k n c none h = tt
before_char-Leaves k n c (some (before, after)) h = omega arith

-- A match takes the characters of its pattern.
pub find-Leaves : (pattern s : Str) → Leaves (length pattern) (length s) (find pattern s)
unfolding find
find-Leaves pattern [] = elim (Option-cases (strip_prefix pattern [])) [
  | inl absent ↦ rw absent tt
  | inr (t, found) ↦ rw found (strip_prefix-leaves pattern [] {t = t} found)
]
find-Leaves pattern (c ∷ s) = elim (Option-cases (strip_prefix pattern (c ∷ s))) [
  | inl absent ↦
      rw absent
        (before_char-Leaves (length pattern) (length s) c (find pattern s) (find-Leaves pattern s))
  | inr (t, found) ↦ rw found (strip_prefix-leaves pattern (c ∷ s) {t = t} found)
]

pub drop_until-shrinks : (p : ℕ → Bool) (s : Str) → length (drop_until p s) ≤ length s
unfolding drop_until
drop_until-shrinks p [] = omega arith
drop_until-shrinks p (c ∷ s) = ground (arith, drop_until-shrinks p s)
