-- ===== src/Convert/Rounds.antt =====
-- The loop of `scan_drag_path` of ma-core/src/convert/mod.rs ends: each round takes characters, so
-- the rounds that the model gives it are enough.
use memory_archive.Prelude.{
  leb, if◌then◌else◌, Option-cases, length, ℤ, ℕ, zero, suc, ◌≤◌, ◌<◌, ◌≡◌, refl, ap, subst, inl,
  inr, Option, none, some, arith,
}
use memory_archive.Text.{Str, codes}
use memory_archive.Text.Search.{find}
use memory_archive.Text.Found.{Leaves, find-Leaves, drop_until-shrinks}
use memory_archive.Convert.Drag.{
  ends_int, take_int, max_drag_points, too_long, drag_clause, Scan, scan_start, add_point, Pair,
  pair_y, pair_middle, pair_x, next_pair, scan_from, scan_drag_path,
}

abbrev Shorter : ℕ → Option Pair → Type 0
Shorter n none = Unit
Shorter n (some (head, point, after)) = length after < n

take_int-shrinks : (s : Str) → length (take_int s).1 ≤ length s
unfolding take_int
take_int-shrinks s = drop_until-shrinks ends_int s

pair_y-Shorter :
    (head : Str) (x : Option ℤ) (n : ℕ) (o : Option (Str × Str))
    → Leaves 2 n o
    → Shorter n (pair_y head x o)
pair_y-Shorter head x n none h = tt
pair_y-Shorter head x n (some (between, after)) h = omega (arith, take_int-shrinks after)

Shorter-le : (m n : ℕ) (o : Option Pair) → m ≤ n → Shorter m o → Shorter n o
Shorter-le m n none h s = tt
Shorter-le m n (some (head, point, after)) h s = omega arith

pair_x-Shorter : (n : ℕ) (o : Option (Str × Str)) → Leaves 2 n o → Shorter n (pair_x o)
pair_x-Shorter n none h = tt
pair_x-Shorter n (some (head, after)) h =
    let s : Str = (take_int after).1 in
    Shorter-le (length s) n (pair_middle head (take_int after))
      (omega (arith, take_int-shrinks after))
      (pair_y-Shorter head (take_int after).0 (length s) (find (codes "Y=") s)
        (find-Leaves (codes "Y=") s))

next_pair-Shorter : (rest : Str) → Shorter (length rest) (next_pair rest)
unfolding next_pair
next_pair-Shorter rest =
    pair_x-Shorter (length rest) (find (codes "X=") rest) (find-Leaves (codes "X=") rest)

scan_from_enough :
    (fuel more : ℕ) (scan : Scan) (rest : Str)
    → length rest < fuel
    → length rest < more
    → scan_from fuel scan rest ≡ scan_from more scan rest
unfolding scan_from
scan_from_enough zero more scan rest h k = absurd (omega arith)
scan_from_enough (suc fuel) zero scan rest h k = absurd (omega arith)
scan_from_enough (suc fuel) (suc more) scan rest h k = elim (Option-cases (next_pair rest)) [
  | inl e ↦ rw (e, scan_from) refl
  | inr ((head, none, after), e) ↦
      let shorter = subst (Shorter (length rest)) e (next_pair-Shorter rest) in
      rw (e, scan_from) (scan_from_enough fuel more scan after (omega arith) (omega arith))
  | inr ((head, some point, after), e) ↦
      let shorter = subst (Shorter (length rest)) e (next_pair-Shorter rest) in
      rw (e, scan_from)
        (ap (λ d. if leb max_drag_points scan.seen then too_long else d)
          (scan_from_enough fuel more (add_point (drag_clause head) point scan) after (omega arith)
            (omega arith)))
]

-- However many rounds the loop is allowed, beyond one for each character, the scan of a drag is
-- the same.
pub scan_drag_path_enough :
    (fuel : ℕ) (s : Str) → length s < fuel → scan_from fuel scan_start s ≡ scan_drag_path s
unfolding scan_drag_path
scan_drag_path_enough fuel s h = scan_from_enough fuel (suc (length s)) scan_start s h (omega arith)
