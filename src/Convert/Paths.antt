-- ===== src/Convert/Paths.antt =====
-- `scan_drag_path` of ma-core/src/convert/mod.rs against the sentence in which an agent reports a
-- drag: `Dragged [from X=…, Y=…] [via X=…, Y=…]* to X=…, Y=…`.
use memory_archive.Prelude.{
  ltb, leb, if◌then◌else◌, lt→ltb, Bool-cases, length, All, length-append, All-map, ℤ, pos, negsuc,
  IsI32, ℕ, zero, suc, ◌+◌, ◌<◌, ◌≡◌, refl, sym, ap, ◌∙◌, inl, inr, true, false, Option, none, some,
  List, [], ◌∷◌, ◌++◌, append_assoc, append-nil, arith,
}
use memory_archive.Text.{
  Str, codes, str_eq, is_ascii_digit, is_whitespace, strip_prefix, take_until, drop_until,
  take_until-append, drop_until-append, Lacks,
}
use memory_archive.Text.Decimal.{show_nat, show_int, show_nat-digits, parse_i32-show_int}
use memory_archive.Text.Search.{find}
use memory_archive.Text.Found.{find-append}
use memory_archive.Convert.Drag.{
  pair_end, pair_y, pair_middle, pair_x, ends_int, take_int, max_drag_points, Point, DragScan, path,
  too_long, drag_clause, Scan, scan_start, add_point, next_pair, finish, scan_from, scan_drag_path,
}

-- The sentence.
abbrev pub reported : Point → Str → Str
reported (x, y) rest = codes "X=" ++ (show_int x ++ (codes ", Y=" ++ (show_int y ++ rest)))

abbrev pub legs : Str → List Point → Point → Str
legs lead [] to = lead ++ (codes " to " ++ reported to [])
legs lead (p ∷ via) to = lead ++ (codes " via " ++ reported p (legs [] via to))

abbrev pub sentence : Option Point → List Point → Point → Str
sentence none via to = legs (codes "Dragged") via to
sentence (some from) via to = codes "Dragged from " ++ reported from (legs [] via to)

abbrev pub IsPoint : Point → Type 0
IsPoint (x, y) = IsI32 x × IsI32 y

-- A text at which a number ends.
abbrev Stops : Str → Type 0
Stops [] = Unit
Stops (c ∷ s) = ends_int c ≡ true

Stops-at : (s : Str) → Stops s → (take_until ends_int s ≡ []) × (drop_until ends_int s ≡ s)
unfolding take_until drop_until
Stops-at [] h = (refl, refl)
Stops-at (c ∷ s) h = (rw h refl, rw h refl)

digit-goes_on : (c : ℕ) → is_ascii_digit c ≡ true → ends_int c ≡ false
unfolding ends_int
digit-goes_on c h = ground arith

show_int-goes_on : (z : ℤ) → All (λ c. ends_int c ≡ false) (show_int z)
unfolding show_int is_ascii_digit
show_int-goes_on (pos n) =
    All-map (λ c. is_ascii_digit c ≡ true) (λ c. ends_int c ≡ false) digit-goes_on (show_nat n)
      (show_nat-digits n)
show_int-goes_on (negsuc n) = (
  unfold ends_int in refl,
  All-map (λ c. is_ascii_digit c ≡ true) (λ c. ends_int c ≡ false) digit-goes_on (show_nat (suc n))
      (show_nat-digits (suc n)),
)

-- A printed number is read, and what follows it is left.
take_int-show_int :
    (z : ℤ) (rest : Str) → IsI32 z → Stops rest → take_int (show_int z ++ rest) ≡ (some z, rest)
unfolding take_int
take_int-show_int z rest h stops =
    rw (take_until-append ends_int (show_int z) rest (show_int-goes_on z)) (
      rw (drop_until-append ends_int (show_int z) rest (show_int-goes_on z)) (
        rw (Stops-at rest stops).0 (
          rw (Stops-at rest stops).1
            (rw (append-nil (show_int z)) (rw (parse_i32-show_int z h) refl)))))

comma : ends_int b',' ≡ true
unfolding ends_int is_ascii_digit
comma = refl

-- One reported point, behind a text without an `X`.
next_pair-reported :
    (head : Str) (p : Point) (rest : Str)
    → Lacks b'X' head
    → IsPoint p
    → Stops rest
    → next_pair (head ++ reported p rest) ≡ some (head, some p, rest)
unfolding next_pair
next_pair-reported head (x, y) rest h (hx, hy) stops =
    let middle : Str = codes ", Y=" ++ (show_int y ++ rest) in
    ap pair_x (find-append b'X' (b'=' ∷ []) head (show_int x ++ middle) h)
    ∙ ap (pair_middle head) (take_int-show_int x middle hx comma)
    ∙ ap (pair_y head (some x))
        (find-append b'Y' (b'=' ∷ []) (codes ", ") (show_int y ++ rest) (refl, (refl, tt)))
    ∙ ap (pair_end head (some x)) (take_int-show_int y rest hy stops)

-- One round of the loop, at a pair.
scan_from-pair :
    (fuel : ℕ) (scan : Scan) (rest head : Str) (p : Point) (after : Str)
    → next_pair rest ≡ some (head, some p, after)
    → scan_from (suc fuel) scan rest ≡ (
        if leb max_drag_points scan.seen
        then too_long
        else scan_from fuel (add_point (drag_clause head) p scan) after)
unfolding scan_from
scan_from-pair fuel scan rest head p after e = rw (e, scan_from) refl

-- What the scan of a sentence should give, when some of it was read.
abbrev pub outcome : Option Point → List Point → ℕ → Point → DragScan
outcome from via points to =
    if ltb max_drag_points points then too_long else path record { from = from; via = via; to = to }

-- The texts that stand between two points, behind a lead.
record Leads (lead : Str) : Type 0 where
  via_lacks : Lacks b'X' (lead ++ codes " via ")
  to_lacks : Lacks b'X' (lead ++ codes " to ")
  via_clause : drag_clause (lead ++ codes " via ") ≡ codes "via"
  to_clause : drag_clause (lead ++ codes " to ") ≡ codes "to"

between : Leads []
unfolding drag_clause strip_prefix is_whitespace
between = record {
  via_lacks = ground arith;
  to_lacks = ground arith;
  via_clause = refl;
  to_clause = refl;
}

dragged : Leads (codes "Dragged")
unfolding drag_clause strip_prefix is_whitespace
dragged = record {
  via_lacks = ground arith;
  to_lacks = ground arith;
  via_clause = refl;
  to_clause = refl;
}

legs_stop : (via : List Point) (to : Point) → Stops (legs [] via to)
unfolding ends_int is_ascii_digit
legs_stop [] to = refl
legs_stop (p ∷ via) to = refl

scan_end : (fuel : ℕ) (scan : Scan) → scan_from fuel scan [] ≡ finish scan
unfolding scan_from next_pair find strip_prefix
scan_end zero scan = refl
scan_end (suc fuel) scan = refl

add_to :
    (p : Point) (scan : Scan)
    → (finish (add_point (codes "to") p scan))
      ≡ path record { from = scan.from; via = scan.via; to = p }
unfolding finish add_point str_eq
add_to p scan = refl

add_via :
    (p : Point) (scan : Scan)
    → add_point (codes "via") p scan
      ≡ record scan { via = scan.via ++ p ∷ []; seen = scan.seen + 1 }
unfolding add_point str_eq
add_via p scan = refl

-- The last leg.
last_scanned :
    (fuel : ℕ) (scan : Scan) (lead : Str) (to : Point)
    → Leads lead
    → IsPoint to
    → scan_from (suc fuel) scan (legs lead [] to) ≡ outcome scan.from scan.via (scan.seen + 1) to
last_scanned fuel scan lead to l ht =
    ap (scan_from (suc fuel) scan) (sym (append_assoc lead (codes " to ") (reported to [])))
    ∙ scan_from-pair fuel scan _ (lead ++ codes " to ") to []
        (next_pair-reported (lead ++ codes " to ") to [] l.to_lacks ht tt)
    ∙ ap
        (λ clause.
          if leb max_drag_points scan.seen
          then too_long
          else scan_from fuel (add_point clause to scan) [])
        l.to_clause
    ∙ ap (λ d. if leb max_drag_points scan.seen then too_long else d)
        (scan_end fuel (add_point (codes "to") to scan) ∙ add_to to scan)
    ∙ ap (λ b. if b then too_long else path record { from = scan.from; via = scan.via; to = to })
        (ground arith)

reported-longer : (p : Point) (rest : Str) → length rest < length (reported p rest)
reported-longer (x, y) rest = omega (
  arith,
  length-append (show_int x) (codes ", Y=" ++ (show_int y ++ rest)),
  length-append (show_int y) rest,
)

leg_counted :
    (scan : Scan) (p : Point) (via : List Point) (to : Point)
    → (if leb max_drag_points scan.seen
        then too_long
        else outcome scan.from ((scan.via ++ p ∷ []) ++ via) (scan.seen + 1 + length via + 1) to)
      ≡ outcome scan.from (scan.via ++ p ∷ via) (scan.seen + suc (length via) + 1) to
leg_counted scan p via to = elim (Bool-cases (leb max_drag_points scan.seen)) [
  | inl full ↦
      rw full (rw (lt→ltb max_drag_points (scan.seen + suc (length via) + 1) (ground arith)) refl)
  | inr room ↦ rw room (
      ap (λ w. outcome scan.from w (scan.seen + 1 + length via + 1) to)
        (append_assoc scan.via (p ∷ []) via)
      ∙ ap (λ k. outcome scan.from (scan.via ++ p ∷ via) k to) (omega arith))
]

legs_scanned :
    (fuel : ℕ) (scan : Scan) (lead : Str) (via : List Point) (to : Point)
    → Leads lead
    → All IsPoint via
    → IsPoint to
    → length (legs lead via to) < fuel
    → scan_from fuel scan (legs lead via to)
      ≡ outcome scan.from (scan.via ++ via) (scan.seen + length via + 1) to
legs_scanned zero scan lead via to l hv ht h = absurd (omega arith)
legs_scanned (suc fuel) scan lead [] to l hv ht h =
    last_scanned fuel scan lead to l ht
    ∙ ap (λ w. outcome scan.from w (scan.seen + 1) to) (sym (append-nil scan.via))
    ∙ ap (λ k. outcome scan.from (scan.via ++ []) k to) (omega arith)
legs_scanned (suc fuel) scan lead (p ∷ via) to l hv ht h =
    ap (scan_from (suc fuel) scan)
      (sym (append_assoc lead (codes " via ") (reported p (legs [] via to))))
    ∙ scan_from-pair fuel scan _ (lead ++ codes " via ") p (legs [] via to) (
        next_pair-reported (lead ++ codes " via ") p (legs [] via to) l.via_lacks hv.0
          (legs_stop via to))
    ∙ ap
        (λ clause.
          if leb max_drag_points scan.seen
          then too_long
          else scan_from fuel (add_point clause p scan) (legs [] via to))
        l.via_clause
    ∙ ap (λ d. if leb max_drag_points scan.seen then too_long else d)
        (ap (λ w. scan_from fuel w (legs [] via to)) (add_via p scan)
          ∙ legs_scanned fuel (record scan { via = scan.via ++ p ∷ []; seen = scan.seen + 1 }) []
              via to between hv.1 ht
              (omega (
                arith,
                length-append lead (codes " via " ++ reported p (legs [] via to)),
                reported-longer p (legs [] via to),
              )))
    ∙ leg_counted scan p via to

-- the points of a path
abbrev pub points : Option Point → List Point → ℕ
points none via = length via + 1
points (some from) via = length via + 2

abbrev pub AreSome : Option Point → Type 0
AreSome none = Unit
AreSome (some from) = IsPoint from

from_clause : drag_clause (codes "Dragged from ") ≡ codes "from"
unfolding drag_clause strip_prefix is_whitespace
from_clause = refl

add_from :
    (p : Point) (scan : Scan)
    → add_point (codes "from") p scan ≡ record scan { from = some p; seen = scan.seen + 1 }
unfolding add_point str_eq
add_from p scan = refl

-- The sentence of a drag with up to eight points is read as its path, with the origin, the
-- waypoints in their order and the destination; one with more is `TooLong`. The coordinates are
-- `i32` values.
pub scan_drag_path-sentence :
    (from : Option Point) (via : List Point) (to : Point)
    → AreSome from
    → All IsPoint via
    → IsPoint to
    → scan_drag_path (sentence from via to) ≡ outcome from via (points from via) to
unfolding scan_drag_path
scan_drag_path-sentence none via to hf hv ht =
    legs_scanned (suc (length (sentence none via to))) scan_start (codes "Dragged") via to dragged
      hv ht (omega arith)
    ∙ ap (λ k. outcome none via k to) (omega arith)
scan_drag_path-sentence (some from) via to hf hv ht =
    scan_from-pair (length (sentence (some from) via to)) scan_start _ (codes "Dragged from ") from
      (legs [] via to)
      (next_pair-reported (codes "Dragged from ") from (legs [] via to) (ground arith) hf
        (legs_stop via to))
    ∙ ap
        (λ clause.
          scan_from (length (sentence (some from) via to)) (add_point clause from scan_start)
            (legs [] via to))
        from_clause
    ∙ ap (λ w. scan_from (length (sentence (some from) via to)) w (legs [] via to))
        (add_from from scan_start)
    ∙ legs_scanned (length (sentence (some from) via to))
        (record scan_start { from = some from; seen = 1 }) [] via to between hv ht
        (omega (arith, reported-longer from (legs [] via to)))
    ∙ ap (λ k. outcome (some from) via k to) (omega arith)
