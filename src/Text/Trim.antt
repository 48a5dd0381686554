-- ===== src/Text/Trim.antt =====
-- `str::trim` of Rust's standard library.
use memory_archive.Prelude.{
  if◌then◌else◌, Bool-cases, is_empty, All, ℕ, ◌≡◌, refl, inl, inr, false, ◌&&◌, [], ◌∷◌, ◌++◌,
  arith,
}
use memory_archive.Text.{Str, is_whitespace}

unfoldable pub trim_start : Str → Str
trim_start [] = []
trim_start (c ∷ s) = if is_whitespace c then trim_start s else c ∷ s

unfoldable pub trim_end : Str → Str
trim_end [] = []
trim_end (c ∷ s) =
    let rest = trim_end s in if is_empty rest && is_whitespace c then [] else c ∷ rest

unfoldable pub trim : Str → Str
unfolding trim_start trim_end
trim s = trim_end (trim_start s)

-- A character that is kept keeps all that stands before it.
pub trim_end-append :
    (xs : Str) (c : ℕ) (ys : Str)
    → is_whitespace c ≡ false
    → trim_end (xs ++ c ∷ ys) ≡ xs ++ c ∷ trim_end ys
unfolding trim_end
trim_end-append [] c ys h = ground arith
trim_end-append (x ∷ []) c ys h = ground (arith, trim_end-append [] c ys h)
trim_end-append (x ∷ y ∷ xs) c ys h = rw (trim_end-append (y ∷ xs) c ys h)

-- The spaces around a text that neither begins nor ends with one are what is trimmed.
pub trim-append :
    (a : ℕ) (xs : Str) (c : ℕ) (ys : Str)
    → is_whitespace a ≡ false
    → is_whitespace c ≡ false
    → trim (a ∷ xs ++ c ∷ ys) ≡ a ∷ xs ++ c ∷ trim_end ys
unfolding trim trim_start
trim-append a xs c ys ha hc = rw ha (trim_end-append (a ∷ xs) c ys hc)

trim_end_idem : (s : Str) → trim_end (trim_end s) ≡ trim_end s
unfolding trim_end
trim_end_idem [] = refl
trim_end_idem (c ∷ s) = elim (Bool-cases (is_empty (trim_end s) && is_whitespace c)) [
  | inl blank ↦ rw blank
  | inr kept ↦ rw kept (rw (trim_end_idem s) (rw kept))
]

trim_end-id : (s : Str) → All (λ c. is_whitespace c ≡ false) s → trim_end s ≡ s
unfolding trim_end
trim_end-id [] h = refl
trim_end-id (c ∷ s) h = rw (trim_end-id s h.1) (rw h.0 (ground arith))

-- A text without a space is left as it is.
pub trim-id : (s : Str) → All (λ c. is_whitespace c ≡ false) s → trim s ≡ s
unfolding trim trim_start
trim-id [] h = refl
trim-id (c ∷ s) h = rw h.0 (trim_end-id (c ∷ s) h)

trim-fixed :
    (c : ℕ) (s : Str) → is_whitespace c ≡ false → trim (trim_end (c ∷ s)) ≡ trim_end (c ∷ s)
unfolding trim trim_start
trim-fixed c s h =
    rw (trim_end-append [] c s h)
      (rw h (rw (trim_end-append [] c (trim_end s) h) (rw (trim_end_idem s))))

-- Trimming twice is trimming once.
pub trim_idem : (s : Str) → trim (trim s) ≡ trim s
unfolding trim trim_start
trim_idem [] = refl
trim_idem (c ∷ s) = elim (Bool-cases (is_whitespace c)) [
  | inl space ↦ rw space (trim_idem s)
  | inr solid ↦ rw solid (unfold trim in trim-fixed c s solid)
]

-- Only the end of a text that begins with no space is trimmed.
pub trim-cons : (c : ℕ) (s : Str) → is_whitespace c ≡ false → trim (c ∷ s) ≡ c ∷ trim_end s
trim-cons c s h = unfold trim trim_start in rw h (trim_end-append [] c s h)
