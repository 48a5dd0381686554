-- ===== src/Text/Decimal.antt =====
-- Decimal numbers as Rust prints (`Display`) and parses (`str::parse`) them, for `u32` and `i32`.
use memory_archive.Prelude.{
  ℕ, zero, suc, ◌+◌, ◌-◌, ◌*◌, ◌/◌, ◌%◌, ◌^◌, ◌<◌, ◌≡◌, sym, subst, ◌∙◌, true, Option, none, some,
  [], ◌∷◌, arith, ltb, ◌==◌, if◌then◌else◌, All, Bool-cases, inl, inr, ℤ, pos, negsuc, IsI32,
}
use memory_archive.Text.{Str, is_ascii_digit}

-- One digit more for each tenth; `n + 1` rounds are enough.
show_digits : ℕ → ℕ → Str → Str
show_digits zero n acc = acc
show_digits (suc fuel) n acc =
    let rest = show_digits fuel (n / 10) ((48 + n % 10) ∷ acc) in
    if ltb n 10 then (48 + n) ∷ acc else rest

unfoldable pub show_nat : ℕ → Str
unfolding show_digits
show_nat n = show_digits (suc n) n []

unfoldable pub show_int : ℤ → Str
unfolding show_nat
show_int (pos n) = show_nat n
show_int (negsuc n) = b'-' ∷ show_nat (suc n)

-- the value of the digits, or none at another character
digits_value : ℕ → Str → Option ℕ
digits_value n [] = some n
digits_value n (c ∷ s) = if is_ascii_digit c then digits_value (n * 10 + (c - 48)) s else none

-- one digit at least
unfoldable pub parse_digits : Str → Option ℕ
unfolding digits_value is_ascii_digit
parse_digits [] = none
parse_digits (c ∷ s) = digits_value 0 (c ∷ s)

below : ℕ → Option ℕ → Option ℕ
below bound none = none
below bound (some n) = if ltb n bound then some n else none

-- `parse::<u32>`: a `+` may stand in front
unfoldable pub parse_u32 : Str → Option ℕ
unfolding parse_digits below
parse_u32 [] = none
parse_u32 (c ∷ s) = below (2 ^ 32) (if c == b'+' then parse_digits s else parse_digits (c ∷ s))

to_pos : Option ℕ → Option ℤ
to_pos none = none
to_pos (some n) = some (pos n)

-- `-0` is 0
negate : ℕ → ℤ
negate zero = pos 0
negate (suc n) = negsuc n

to_neg : Option ℕ → Option ℤ
to_neg none = none
to_neg (some n) = some (negate n)

-- `parse::<i32>`: a sign may stand in front
unfoldable pub parse_i32 : Str → Option ℤ
unfolding parse_digits below to_pos to_neg negate
parse_i32 [] = none
parse_i32 (c ∷ s) =
    if c == b'-'
    then to_neg (below (2 ^ 31 + 1) (parse_digits s))
    else to_pos (below (2 ^ 31) (if c == b'+' then parse_digits s else parse_digits (c ∷ s)))

digit_step : (n : ℕ) → n < 10 → (is_ascii_digit (48 + n) ≡ true) × (48 + n - 48 ≡ n)
unfolding is_ascii_digit
digit_step n h = (ground arith, omega arith)

digits_value-show_digits :
    (fuel n : ℕ) (acc : Str)
    → n < fuel
    → digits_value 0 (show_digits fuel n acc) ≡ digits_value n acc
unfolding show_digits digits_value
digits_value-show_digits zero n acc h = absurd (omega arith)
digits_value-show_digits (suc fuel) n acc h = elim (Bool-cases (ltb n 10)) [
  | inl small ↦ rw small (ground (arith, digit_step n))
  | inr large ↦ rw large (
      digits_value-show_digits fuel (n / 10) ((48 + n % 10) ∷ acc) (ground arith)
      ∙ ground (arith, digit_step (n % 10)))
]

show_digits-digits :
    (fuel n : ℕ) (acc : Str)
    → All (λ c. is_ascii_digit c ≡ true) acc
    → All (λ c. is_ascii_digit c ≡ true) (show_digits fuel n acc)
unfolding show_digits
show_digits-digits zero n acc h = h
show_digits-digits (suc fuel) n acc h = elim (Bool-cases (ltb n 10)) [
  | inl small ↦ rw small ((digit_step n (ground arith)).0, h)
  | inr large ↦ rw large (
      show_digits-digits fuel (n / 10) ((48 + n % 10) ∷ acc)
        ((digit_step (n % 10) (omega arith)).0, h))
]

-- A printed number holds digits only.
pub show_nat-digits : (n : ℕ) → All (λ c. is_ascii_digit c ≡ true) (show_nat n)
unfolding show_nat
show_nat-digits n = show_digits-digits (suc n) n [] tt

show_digits-cons :
    (fuel n : ℕ) (acc : Str) → 0 < fuel → (c : ℕ) × (s : Str) × (show_digits fuel n acc ≡ c ∷ s)
unfolding show_digits
show_digits-cons zero n acc h = absurd (omega arith)
show_digits-cons (suc zero) n acc h = elim (Bool-cases (ltb n 10)) [
  | inl small ↦ (48 + n, acc, rw small)
  | inr large ↦ (48 + n % 10, acc, rw large)
]
show_digits-cons (suc (suc fuel)) n acc h = elim (Bool-cases (ltb n 10)) [
  | inl small ↦ (48 + n, acc, rw small)
  | inr large ↦
      let (c, s, e) = show_digits-cons (suc fuel) (n / 10) ((48 + n % 10) ∷ acc) (omega arith) in
      (c, s, rw large e)
]

-- It is never empty.
pub show_nat-cons : (n : ℕ) → (c : ℕ) × (s : Str) × (show_nat n ≡ c ∷ s)
unfolding show_nat
show_nat-cons n = show_digits-cons (suc n) n [] (omega arith)

-- What parsing a printed number goes by: its first digit, and the value of all.
abbrev IsNumeral : ℕ → ℕ → Str → Type 0
IsNumeral n c s = (is_ascii_digit c ≡ true) × (digits_value 0 (c ∷ s) ≡ some n)

show_nat-IsNumeral : (n : ℕ) → (c : ℕ) × (s : Str) × (show_nat n ≡ c ∷ s) × IsNumeral n c s
show_nat-IsNumeral n =
    let (c, s, e) = show_nat-cons n in
    (
      c,
      s,
      e,
      (
        (subst (All (λ d. is_ascii_digit d ≡ true)) e (show_nat-digits n)).0,
        subst (λ t. digits_value 0 t ≡ some n) e (show_nat_value n),
      ),
    )
  where
    show_nat_value : (k : ℕ) → digits_value 0 (show_nat k) ≡ some k
    show_nat_value k =
        unfold show_nat digits_value in digits_value-show_digits (suc k) k [] (omega arith)

parse_u32_numeral : (n c : ℕ) (s : Str) → IsNumeral n c s → n < 2 ^ 32 → parse_u32 (c ∷ s) ≡ some n
unfolding parse_u32
parse_u32_numeral n c s h bound = ground arith

parse_i32_numeral :
    (n c : ℕ) (s : Str) → IsNumeral n c s → n < 2 ^ 31 → parse_i32 (c ∷ s) ≡ some (pos n)
unfolding parse_i32
parse_i32_numeral n c s h bound = ground arith

parse_i32_minus :
    (n c : ℕ) (s : Str)
    → IsNumeral (suc n) c s
    → n < 2 ^ 31
    → parse_i32 (b'-' ∷ c ∷ s) ≡ some (negsuc n)
unfolding parse_i32
parse_i32_minus n c s h bound = ground arith

-- Printing and parsing a `u32`.
pub parse_u32-show_nat : (n : ℕ) → n < 2 ^ 32 → parse_u32 (show_nat n) ≡ some n
parse_u32-show_nat n h =
    let (c, s, e, v) = show_nat-IsNumeral n in
    subst (λ t. parse_u32 t ≡ some n) (sym e) (parse_u32_numeral n c s v h)

-- Printing and parsing an `i32`.
pub parse_i32-show_int : (z : ℤ) → IsI32 z → parse_i32 (show_int z) ≡ some z
unfolding show_int
parse_i32-show_int (pos n) h =
    let (c, s, e, v) = show_nat-IsNumeral n in
    subst (λ t. parse_i32 t ≡ some (pos n)) (sym e) (parse_i32_numeral n c s v h)
parse_i32-show_int (negsuc n) h =
    let (c, s, e, v) = show_nat-IsNumeral (suc n) in
    subst (λ t. parse_i32 (b'-' ∷ t) ≡ some (negsuc n)) (sym e) (parse_i32_minus n c s v h)

-- What `parse::<u32>` returns fits a `u32`.
pub parse_u32-lt : (s : Str) {n : ℕ} → parse_u32 s ≡ some n → n < 2 ^ 32
unfolding parse_u32
parse_u32-lt [] h = cc
parse_u32-lt (c ∷ s) h = ground arith
