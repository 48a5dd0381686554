-- ===== src/Convert/Drag.antt =====
-- The numbers that a mouse event's sentence reports, of ma-core/src/convert/mod.rs: the notches of
-- a scroll and the path of a drag.
use memory_archive.Prelude.{
  leb, ◌==◌, if◌then◌else◌, length, ℤ, ℕ, zero, suc, ◌+◌, Bool, not, ◌&&◌, Option, none, some, List,
  [], ◌∷◌, ◌++◌,
}
use memory_archive.Text.{Str, codes, str_eq, is_ascii_digit, take_until, drop_until}
use memory_archive.Text.Trim.{trim_end}
use memory_archive.Text.Decimal.{parse_i32}
use memory_archive.Text.Search.{find, rfind}
use mathlib.Core.List.{reverse}

not_digit : ℕ → Bool
not_digit c = not (is_ascii_digit c)

parse_nonempty : Str → Option ℤ
parse_nonempty [] = none
parse_nonempty (c ∷ s) = parse_i32 (c ∷ s)

-- the number that a text ends in
trailing_number : Str → Option ℤ
unfolding not_digit parse_nonempty
trailing_number head = parse_nonempty (reverse (take_until not_digit (reverse head)))

abbrev notches_before : Option (Str × Str) → Option ℤ
notches_before none = none
notches_before (some (head, after)) = trailing_number (trim_end head)

unfoldable pub scan_notches : Str → Option ℤ
unfolding trailing_number
scan_notches s = notches_before (find (codes " notch") s)

unfoldable pub ends_int : ℕ → Bool
ends_int c = not (is_ascii_digit c) && not (c == b'-')

-- A leading integer and the remainder.
unfoldable pub take_int : Str → Option ℤ × Str
unfolding ends_int
take_int s = (parse_i32 (take_until ends_int s), drop_until ends_int s)

abbrev pub max_drag_points : ℕ
max_drag_points = 8

abbrev pub Point : Type 0
Point = ℤ × ℤ

pub record DragPath : Type 0 where
  pub from : Option Point
  pub via : List Point
  pub to : Point

pub data DragScan : Type 0 where
  path : DragPath → DragScan
  too_long absent : DragScan

-- the keyword whose last match begins at the right of the others, or at the same place
abbrev pub later_keyword : Str → Option ℕ → Option (ℕ × Str) → Option (ℕ × Str)
later_keyword keyword none best = best
later_keyword keyword (some at) none = some (at, trim_end keyword)
later_keyword keyword (some at) (some (seen, best)) =
    if leb seen at then some (at, trim_end keyword) else some (seen, best)

keyword_of : Option (ℕ × Str) → Str
keyword_of none = []
keyword_of (some (at, keyword)) = keyword

unfoldable pub drag_clause : Str → Str
unfolding keyword_of rfind trim_end
drag_clause head =
    let from_best = later_keyword (codes "from ") (rfind (codes "from ") head) none in
    let via_best = later_keyword (codes "via ") (rfind (codes "via ") head) from_best in
    keyword_of (later_keyword (codes "to ") (rfind (codes "to ") head) via_best)

-- The variables of the loop of `scan_drag_path`.
pub record Scan : Type 0 where
  pub from : Option Point
  pub via : List Point
  pub to : Option Point
  pub seen : ℕ

abbrev pub scan_start : Scan
scan_start = record { from = none; via = []; to = none; seen = 0 }

unfoldable pub add_point : Str → Point → Scan → Scan
add_point clause point scan =
    if str_eq clause (codes "from")
    then record scan { from = some point; seen = scan.seen + 1 }
    else if str_eq clause (codes "via")
    then record scan { via = scan.via ++ point ∷ []; seen = scan.seen + 1 }
    else record scan { to = some point; seen = scan.seen + 1 }

abbrev pub both : Option ℤ → Option ℤ → Option Point
both (some x) (some y) = some (x, y)
both _ _ = none

-- One pair of coordinates: the text before it, the pair if both numbers can be read, the rest.
abbrev pub Pair : Type 0
Pair = Str × Option Point × Str

abbrev pub pair_end : Str → Option ℤ → Option ℤ × Str → Option Pair
pair_end head x (y, after_y) = some (head, both x y, after_y)

abbrev pub pair_y : Str → Option ℤ → Option (Str × Str) → Option Pair
pair_y head x none = none
pair_y head x (some (between, after)) = pair_end head x (take_int after)

abbrev pub pair_middle : Str → Option ℤ × Str → Option Pair
pair_middle head (x, after_x) = pair_y head x (find (codes "Y=") after_x)

abbrev pub pair_x : Option (Str × Str) → Option Pair
pair_x none = none
pair_x (some (head, after)) = pair_middle head (take_int after)

unfoldable pub next_pair : Str → Option Pair
next_pair rest = pair_x (find (codes "X=") rest)

unfoldable pub finish : Scan → DragScan
finish scan = elim scan.to [
  | none ↦ absent
  | some target ↦ path record { from = scan.from; via = scan.via; to = target }
]

-- A pair takes two characters at least, so a round for each character is enough.
unfoldable pub scan_from : (fuel : ℕ) → Scan → Str → DragScan
scan_from zero scan rest = finish scan
scan_from (suc fuel) scan rest = elim (next_pair rest) [
  | none ↦ finish scan
  | some (head, none, after) ↦ scan_from fuel scan after
  | some (head, some point, after) ↦
      if leb max_drag_points scan.seen
      then too_long
      else scan_from fuel (add_point (drag_clause head) point scan) after
]

unfoldable pub scan_drag_path : Str → DragScan
scan_drag_path s = scan_from (suc (length s)) scan_start s
