-- ===== src/Text/Suffix.antt =====
-- What `strip_suffix` and `ends_with` find at the end of a text.
use mathlib.Core.List.{reverse, reverse-append, reverse-reverse}
use memory_archive.Prelude.{
  Option-cases, unwrap_or, ◌≡◌, sym, ap, ◌∙◌, inl, inr, true, Option, none, some, ◌++◌,
}
use memory_archive.Text.{Str, strip_prefix, strip_prefix-append, strip_prefix-eq_some}
use memory_archive.Text.Search.{map_reverse, strip_suffix, ends_with}

pub strip_suffix-append : (s p : Str) → strip_suffix p (s ++ p) ≡ some s
unfolding strip_suffix
strip_suffix-append s p =
    rw (reverse-append s p)
      (rw (strip_prefix-append (reverse p) (reverse s)) (ap some (reverse-reverse s)))

map_reverse-eq_some : (m : Option Str) {t : Str} → map_reverse m ≡ some t → m ≡ some (reverse t)
map_reverse-eq_some none h = cc
map_reverse-eq_some (some s) h =
    ap some (sym (reverse-reverse s) ∙ ap reverse (ap (unwrap_or (reverse s)) h))

-- What was stripped stood at the end.
pub strip_suffix-eq_some : (p s : Str) {t : Str} → strip_suffix p s ≡ some t → s ≡ t ++ p
unfolding strip_suffix
strip_suffix-eq_some p s {t} h =
    sym (reverse-reverse s)
    ∙ ap reverse (
        strip_prefix-eq_some (reverse p) (reverse s)
          (map_reverse-eq_some (strip_prefix (reverse p) (reverse s)) h))
    ∙ reverse-append (reverse p) (reverse t)
    ∙ ap (λ u. u ++ reverse (reverse p)) (reverse-reverse t)
    ∙ ap (λ u. t ++ u) (reverse-reverse p)

pub ends_with-split : (p s : Str) → ends_with p s ≡ true → (t : Str) × (s ≡ t ++ p)
unfolding ends_with
ends_with-split p s h = elim (Option-cases (strip_suffix p s)) [
  | inl e ↦ cc
  | inr e ↦ (e.0, strip_suffix-eq_some p s e.1)
]

pub ends_with-append : (s p : Str) → ends_with p (s ++ p) ≡ true
unfolding ends_with
ends_with-append s p = rw (strip_suffix-append s p)
