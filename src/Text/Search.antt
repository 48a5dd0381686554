-- ===== src/Text/Search.antt =====
-- Searching in texts: `find`, `rfind`, `contains`, `strip_suffix`, `split_whitespace` and `join` of
-- Rust's standard library. A position is given by the pieces before and after the match.
use memory_archive.Prelude.{
  if◌then◌else◌, is_some, ℕ, suc, String, Bool, true, false, ◌||◌, Option, none, some, List, [],
  ◌∷◌, ◌++◌,
}
use memory_archive.Text.{Str, codes, str_eq, is_whitespace, strip_prefix}
use mathlib.Core.List.{reverse}

-- `s.find(pattern)`: the text before the first match, and the text after it
abbrev pub before_char : ℕ → Option (Str × Str) → Option (Str × Str)
before_char c none = none
before_char c (some (before, after)) = some (c ∷ before, after)

abbrev pub or_later : Option Str → Option (Str × Str) → Option (Str × Str)
or_later (some after) later = some ([], after)
or_later none later = later

unfoldable pub find : Str → Str → Option (Str × Str)
find pattern [] = or_later (strip_prefix pattern []) none
find pattern (c ∷ s) =
    let later = find pattern s in or_later (strip_prefix pattern (c ∷ s)) (before_char c later)

-- `s.contains(pattern)`
unfoldable pub contains : Str → Str → Bool
contains pattern s = is_some (find pattern s)

unfoldable pub starts_with : Str → Str → Bool
starts_with pattern s = is_some (strip_prefix pattern s)

abbrev pub map_reverse : Option Str → Option Str
map_reverse none = none
map_reverse (some s) = some (reverse s)

-- `s.strip_suffix(pattern)`
unfoldable pub strip_suffix : Str → Str → Option Str
strip_suffix pattern s = map_reverse (strip_prefix (reverse pattern) (reverse s))

unfoldable pub ends_with : Str → Str → Bool
unfolding strip_suffix
ends_with pattern s = is_some (strip_suffix pattern s)

-- the number of characters before the last match, for `s.rfind(pattern)`
abbrev pub or_earlier : Option ℕ → Bool → Option ℕ
or_earlier (some at) here = some (suc at)
or_earlier none true = some 0
or_earlier none false = none

unfoldable pub rfind : Str → Str → Option ℕ
unfolding starts_with
rfind pattern [] = or_earlier none (starts_with pattern [])
rfind pattern (c ∷ s) =
    let later = rfind pattern s in or_earlier later (starts_with pattern (c ∷ s))

-- `s.split_whitespace()`: the pieces between spaces that are not empty
abbrev pub cons_piece : Str → List Str → List Str
cons_piece [] rest = rest
cons_piece (c ∷ piece) rest = (c ∷ piece) ∷ rest

words : Str → Str × List Str
words [] = ([], [])
words (c ∷ s) =
    let (piece, rest) = words s in
    if is_whitespace c then ([], cons_piece piece rest) else (c ∷ piece, rest)

unfoldable pub split_whitespace : Str → List Str
unfolding words
split_whitespace s = cons_piece (words s).0 (words s).1

-- `pieces.join(separator)`
unfoldable pub join : Str → List Str → Str
join separator [] = []
join separator (piece ∷ []) = piece
join separator (piece ∷ next ∷ rest) = piece ++ separator ++ join separator (next ∷ rest)

-- whether a text is one of the literals of a pattern
unfoldable pub one_of : List String → Str → Bool
one_of [] s = false
one_of (name ∷ names) s = str_eq s (codes name) || one_of names s

-- a `match` on literals, given by its arms in their order
unfoldable pub lookup : List (List String × String) → Str → Option Str
unfolding one_of
lookup [] s = none
lookup ((names, label) ∷ arms) s =
    let later = lookup arms s in if one_of names s then some (codes label) else later
