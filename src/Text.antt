-- ===== src/Text.antt =====
-- Rust's `str` as the list of its characters' code points, with the functions of the standard
-- library that ma-core calls on it. Byte offsets are only used by the source to cut at a match,
-- so a cut returns the two pieces.
pub mod Trim
pub mod Decimal
pub mod Search
pub mod Found
pub mod Suffix
use Prim.Native.Char.{code}
use memory_archive.Prelude.{
  ℕ, ◌+◌, ◌≡◌, refl, ◌↔◌, String, Bool, true, false, ◌&&◌, ◌||◌, Option, none, some, List, [], ◌∷◌,
  ◌++◌, arith, ltb, leb, ◌==◌, if◌then◌else◌, All, ==_refl,
}

abbrev pub Str : Type 0
Str = List ℕ

-- A literal of the source.
abbrev pub codes : String → Str
codes String.[] = []
codes (String.◌∷◌ c s) = code c ∷ codes s

-- `concat` of pieces, and `format!`
unfoldable pub concat : List Str → Str
concat [] = []
concat (s ∷ rest) = s ++ concat rest

-- `a == b` on texts
unfoldable pub str_eq : Str → Str → Bool
str_eq [] [] = true
str_eq (a ∷ s) (b ∷ t) = (a == b) && str_eq s t
str_eq _ _ = false

-- `char::is_ascii_digit`
unfoldable pub is_ascii_digit : ℕ → Bool
is_ascii_digit c = leb b'0' c && leb c b'9'

-- `char::is_ascii_alphanumeric`
unfoldable pub is_ascii_alphanumeric : ℕ → Bool
unfolding is_ascii_digit
is_ascii_alphanumeric c =
    is_ascii_digit c || (leb b'A' c && leb c b'Z') || (leb b'a' c && leb c b'z')

-- `char::is_whitespace`: Unicode's White_Space
unfoldable pub is_whitespace : ℕ → Bool
is_whitespace c =
    (leb 9 c && leb c 13)
    || c == 0x20
    || c == 0x85
    || c == 0xA0
    || c == 0x1680
    || (leb 0x2000 c && leb c 0x200A)
    || c == 0x2028
    || c == 0x2029
    || c == 0x202F
    || c == 0x205F
    || c == 0x3000

-- `char::len_utf8` and `str::len`, which counts bytes
unfoldable pub len_utf8 : ℕ → ℕ
len_utf8 c = if ltb c 0x80 then 1 else if ltb c 0x800 then 2 else if ltb c 0x10000 then 3 else 4

unfoldable pub len : Str → ℕ
unfolding len_utf8
len [] = 0
len (c ∷ s) = len_utf8 c + len s

-- `s.strip_prefix(p)`
unfoldable pub strip_prefix : Str → Str → Option Str
strip_prefix [] s = some s
strip_prefix (a ∷ p) [] = none
strip_prefix (a ∷ p) (b ∷ s) = if a == b then strip_prefix p s else none

-- `s.split(c)`, all pieces
abbrev pub cons_first : ℕ → List Str → List Str
cons_first c [] = (c ∷ []) ∷ []
cons_first c (piece ∷ rest) = (c ∷ piece) ∷ rest

unfoldable pub split_char : ℕ → Str → List Str
split_char sep [] = [] ∷ []
split_char sep (c ∷ s) =
    let rest = split_char sep s in if c == sep then [] ∷ rest else cons_first c rest

-- the text before the first character that passes the test: the first piece of `s.split(p)`
unfoldable pub take_until : (ℕ → Bool) → Str → Str
take_until p [] = []
take_until p (c ∷ s) = if p c then [] else c ∷ take_until p s

unfoldable pub drop_until : (ℕ → Bool) → Str → Str
drop_until p [] = []
drop_until p (c ∷ s) = if p c then c ∷ s else drop_until p s

pub str_eq_iff : (s t : Str) → (str_eq s t ≡ true) ↔ (s ≡ t)
unfolding str_eq
str_eq_iff [] [] = (λ _. refl, λ _. refl)
str_eq_iff [] (b ∷ t) = (λ h. cc, λ h. cc)
str_eq_iff (a ∷ s) [] = (λ h. cc, λ h. cc)
str_eq_iff (a ∷ s) (b ∷ t) =
    (λ h. ground (arith, (str_eq_iff s t).0), λ h. ground (arith, (str_eq_iff s t).1))

pub str_eq_refl : (s : Str) → str_eq s s ≡ true
str_eq_refl s = (str_eq_iff s s).1 refl

pub strip_prefix-append : (p s : Str) → strip_prefix p (p ++ s) ≡ some s
unfolding strip_prefix
strip_prefix-append [] s = refl
strip_prefix-append (a ∷ p) s = rw (==_refl a) (strip_prefix-append p s)

-- What was stripped stood there.
pub strip_prefix-eq_some : (p s : Str) {t : Str} → strip_prefix p s ≡ some t → s ≡ p ++ t
unfolding strip_prefix
strip_prefix-eq_some [] s h = cc
strip_prefix-eq_some (a ∷ p) [] h = cc
strip_prefix-eq_some (a ∷ p) (b ∷ s) {t = t} h = ground (arith, strip_prefix-eq_some p s {t = t})

pub take_until-append :
    (p : ℕ → Bool) (xs ys : Str)
    → All (λ c. p c ≡ false) xs
    → take_until p (xs ++ ys) ≡ xs ++ take_until p ys
unfolding take_until
take_until-append p [] ys h = refl
take_until-append p (x ∷ xs) ys h = rw h.0 (rw (take_until-append p xs ys h.1))

pub drop_until-append :
    (p : ℕ → Bool) (xs ys : Str)
    → All (λ c. p c ≡ false) xs
    → drop_until p (xs ++ ys) ≡ drop_until p ys
unfolding drop_until
drop_until-append p [] ys h = refl
drop_until-append p (x ∷ xs) ys h = rw h.0 (drop_until-append p xs ys h.1)

abbrev pub Lacks : ℕ → Str → Type 0
Lacks sep = All (λ c. (c == sep) ≡ false)

pub split_char-append :
    (sep : ℕ) (xs ys : Str)
    → Lacks sep xs
    → split_char sep (xs ++ sep ∷ ys) ≡ xs ∷ split_char sep ys
unfolding split_char
split_char-append sep [] ys h = rw (==_refl sep)
split_char-append sep (x ∷ xs) ys h = rw h.0 (rw (split_char-append sep xs ys h.1))

pub split_char_whole : (sep : ℕ) (xs : Str) → Lacks sep xs → split_char sep xs ≡ xs ∷ []
unfolding split_char
split_char_whole sep [] h = refl
split_char_whole sep (x ∷ xs) h = rw h.0 (rw (split_char_whole sep xs h.1))
