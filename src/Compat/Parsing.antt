-- ===== src/Compat/Parsing.antt =====
-- Reading a version back: what `Version::parse` makes of a printed version, plain or decorated.
use memory_archive.Prelude.{
  ◌==◌, All, All-append, All-map, ℕ, ◌^◌, ◌<◌, ◌≡◌, refl, sym, ap, subst, ◌∙◌, ◌⊎◌, inl, inr, true,
  false, none, some, [], ◌∷◌, ◌++◌, append-nil, arith,
}
use memory_archive.Text.{
  Str, codes, is_ascii_digit, is_whitespace, strip_prefix, split_char, take_until,
  strip_prefix-append, take_until-append, Lacks, split_char-append, split_char_whole,
}
use memory_archive.Text.Trim.{trim-cons, trim_end, trim, trim-append, trim-id}
use memory_archive.Text.Decimal.{show_nat, show_nat-digits, show_nat-cons, parse_u32-show_nat}
use memory_archive.Compat.{Version, is_suffix_mark, from_parts, core, parse, display}

-- Every component is a `u32`.
pub record IsU32 (v : Version) : Type 0 where
  pub major : v.major < 2 ^ 32
  pub minor : v.minor < 2 ^ 32
  pub patch : v.patch < 2 ^ 32

-- Nothing, or a suffix such as `-rc1` or `+build7`.
pub data IsDecoration : Str → Type 0 where
  bare : IsDecoration []
  marked : (c : ℕ) (s : Str) → (c ≡ b'-') ⊎ (c ≡ b'+') → IsDecoration (c ∷ s)

-- The characters of a printed version.
abbrev IsVersionChar : ℕ → Type 0
IsVersionChar c = (is_ascii_digit c ≡ true) ⊎ (c ≡ b'.')

solid : (c : ℕ) → IsVersionChar c → is_whitespace c ≡ false
unfolding is_whitespace is_ascii_digit
solid c h = ground arith

unmarked : (c : ℕ) → IsVersionChar c → is_suffix_mark c ≡ false
unfolding is_suffix_mark is_ascii_digit
unmarked c h = ground arith

undotted : (c : ℕ) → is_ascii_digit c ≡ true → (c == b'.') ≡ false
unfolding is_ascii_digit
undotted c h = ground arith

number_chars : (n : ℕ) → All IsVersionChar (show_nat n)
number_chars n =
    All-map (λ c. is_ascii_digit c ≡ true) IsVersionChar (λ c h. inl h) (show_nat n)
      (show_nat-digits n)

Lacks-dot : (n : ℕ) → Lacks b'.' (show_nat n)
Lacks-dot n =
    All-map (λ c. is_ascii_digit c ≡ true) (λ c. (c == b'.') ≡ false) undotted (show_nat n)
      (show_nat-digits n)

display_chars : (v : Version) → All IsVersionChar (display v)
unfolding display
display_chars v = All-append IsVersionChar (show_nat v.major) _ (number_chars v.major) (
  inr refl,
  All-append IsVersionChar (show_nat v.minor) _ (number_chars v.minor)
      (inr refl, number_chars v.patch),
)

split-display :
    (v : Version)
    → split_char b'.' (display v) ≡ show_nat v.major ∷ show_nat v.minor ∷ show_nat v.patch ∷ []
unfolding display
split-display v = rw (split_char-append b'.' (show_nat v.major) _ (Lacks-dot v.major)) (
    rw (split_char-append b'.' (show_nat v.minor) (show_nat v.patch) (Lacks-dot v.minor))
      (rw (split_char_whole b'.' (show_nat v.patch) (Lacks-dot v.patch))))

from_parts-display :
    (v : Version)
    → IsU32 v
    → from_parts (show_nat v.major ∷ show_nat v.minor ∷ show_nat v.patch ∷ []) ≡ some v
unfolding from_parts
from_parts-display v h = ground (
  arith,
  parse_u32-show_nat v.major h.major,
  parse_u32-show_nat v.minor h.minor,
  parse_u32-show_nat v.patch h.patch,
)

-- Of a printed version with a suffix the core is the version.
take_until-decorated :
    (xs tail : Str)
    → All IsVersionChar xs
    → IsDecoration tail
    → take_until is_suffix_mark (xs ++ tail) ≡ xs
unfolding take_until is_suffix_mark
take_until-decorated xs tail h bare =
    take_until-append is_suffix_mark xs [] (All-map IsVersionChar _ unmarked xs h) ∙ append-nil xs
take_until-decorated xs tail h (marked c s mark) =
    take_until-append is_suffix_mark xs (c ∷ s) (All-map IsVersionChar _ unmarked xs h)
    ∙ ap (λ (t : Str). xs ++ t) (ground arith)
    ∙ append-nil xs

mark_solid : (c : ℕ) → (c ≡ b'-') ⊎ (c ≡ b'+') → is_whitespace c ≡ false
unfolding is_whitespace
mark_solid c h = ground arith

-- Trimming a text that begins with no space can only shorten the suffix.
trim-decorated :
    (xs tail : Str)
    → All (λ c. is_whitespace c ≡ false) xs
    → IsDecoration tail
    → (tail' : Str) × (trim (xs ++ tail) ≡ xs ++ tail') × IsDecoration tail'
trim-decorated xs tail h bare =
    ([], subst (λ t. trim t ≡ t) (sym (append-nil xs)) (trim-id xs h), bare)
trim-decorated [] tail h (marked c s mark) =
    (c ∷ trim_end s, trim-cons c s (mark_solid c mark), marked c (trim_end s) mark)
trim-decorated (x ∷ xs) tail h (marked c s mark) =
    (c ∷ trim_end s, trim-append x xs c s h.0 (mark_solid c mark), marked c (trim_end s) mark)

no_v : (c : ℕ) (s : Str) → IsVersionChar c → strip_prefix (codes "v") (c ∷ s) ≡ none
unfolding strip_prefix is_ascii_digit
no_v c s h = ground arith

strip_v-display : (v : Version) (tail : Str) → strip_prefix (codes "v") (display v ++ tail) ≡ none
unfolding display
strip_v-display v tail =
    let (c, s, e) = show_nat-cons v.major in
    subst
      (λ (t : Str).
        strip_prefix (codes "v")
          ((t ++ (b'.' ∷ (show_nat v.minor ++ (b'.' ∷ show_nat v.patch)))) ++ tail)
        ≡ none)
      (sym e)
      (no_v c _ (inl (subst (All (λ d. is_ascii_digit d ≡ true)) e (show_nat-digits v.major)).0))

core-display :
    (v : Version) (tail : Str)
    → IsDecoration tail
    → (core (display v ++ tail) ≡ display v) × (core (b'v' ∷ (display v ++ tail)) ≡ display v)
unfolding core
core-display v tail d = (
  rw (strip_v-display v tail) (take_until-decorated (display v) tail (display_chars v) d),
  rw (strip_prefix-append (codes "v") (display v ++ tail))
      (take_until-decorated (display v) tail (display_chars v) d),
)

solid_chars : (v : Version) → All (λ c. is_whitespace c ≡ false) (display v)
solid_chars v = All-map IsVersionChar _ solid (display v) (display_chars v)

v_solid : is_whitespace b'v' ≡ false
unfolding is_whitespace
v_solid = refl

-- A printed version whose components are `u32` values is read back, with or without a `v` in front
-- and with or without a suffix that begins with `-` or `+`.
pub parse-display :
    (v : Version) (tail : Str)
    → IsU32 v
    → IsDecoration tail
    → (parse (display v ++ tail) ≡ some v) × (parse (b'v' ∷ (display v ++ tail)) ≡ some v)
unfolding parse
parse-display v tail h d =
    let (bare_tail, bare_trim, bare_mark) = trim-decorated (display v) tail (solid_chars v) d in
    let (v_tail, v_trim, v_mark) =
      trim-decorated (b'v' ∷ display v) tail (v_solid, solid_chars v) d in
    (
      rw bare_trim (
          rw (core-display v bare_tail bare_mark).0
            (rw (split-display v) (from_parts-display v h))),
      rw v_trim
          (rw (core-display v v_tail v_mark).1 (rw (split-display v) (from_parts-display v h))),
    )
