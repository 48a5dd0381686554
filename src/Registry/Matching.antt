-- ===== src/Registry/Matching.antt =====
-- Which claim ids the stored text of a claim accepts, of `claim_value_matches` in
-- ma-core/src/registry/mod.rs.
use memory_archive.Prelude.{
  ==_refl, &&-eq_true, Bool-cases, Option-cases, is_empty, ℕ, ◌≡◌, refl, sym, ap, subst, ◌∙◌, inl,
  inr, true, false, not, ◌&&◌, none, some, [], ◌∷◌, ◌++◌, append_assoc,
}
use memory_archive.Text.{Str, codes, str_eq, str_eq_iff, Lacks}
use memory_archive.Text.Search.{strip_suffix, ends_with}
use memory_archive.Text.Suffix.{
  strip_suffix-append, strip_suffix-eq_some, ends_with-split, ends_with-append,
}
use memory_archive.Registry.Claims.{ends_with_colon, claim_value_matches, claim_value}

not-Lacks : (sep : ℕ) (a c : Str) → ¬ Lacks sep (a ++ sep ∷ c)
not-Lacks sep [] c h = cc (==_refl sep)
not-Lacks sep (x ∷ a) c h = not-Lacks sep a c h.1

-- The last separator splits a text in one way only.
last_piece :
    (sep : ℕ) (p a c d : Str) → Lacks sep c → Lacks sep d → p ++ sep ∷ c ≡ a ++ sep ∷ d → c ≡ d
last_piece sep [] [] c d hc hd e = cc
last_piece sep [] (y ∷ a) c d hc hd e = absurd (not-Lacks sep a d (subst (Lacks sep) (cc) hc))
last_piece sep (x ∷ p) [] c d hc hd e = absurd (not-Lacks sep p c (subst (Lacks sep) (cc) hd))
last_piece sep (x ∷ p) (y ∷ a) c d hc hd e = last_piece sep p a c d hc hd (cc)

no_suffix :
    (claim stored : Str)
    → strip_suffix claim stored ≡ none
    → ¬ (claim_value_matches stored claim ≡ true)
unfolding claim_value_matches
no_suffix claim stored e h = cc (
  (&&-eq_true (not (is_empty claim)) (ends_with_colon (strip_suffix claim stored)) h).1,
  ap ends_with_colon e,
)

colon_before :
    (claim stored : Str) {before : Str}
    → strip_suffix claim stored ≡ some before
    → claim_value_matches stored claim ≡ true
    → ends_with (codes ":") before ≡ true
unfolding claim_value_matches
colon_before claim stored e h = ap ends_with_colon (sym e) ∙ (&&-eq_true _ _ h).1

matches-split :
    (stored claim : Str)
    → claim_value_matches stored claim ≡ true
    → (prefix : Str) × (stored ≡ prefix ++ b':' ∷ claim)
unfolding claim_value_matches
matches-split stored claim h = elim (Option-cases (strip_suffix claim stored)) [
  | inl e ↦ absurd (no_suffix claim stored e h)
  | inr e ↦
      let (before, split) = ends_with-split (codes ":") e.0 (colon_before claim stored e.1 h) in
      (
        before,
        strip_suffix-eq_some claim stored e.1
            ∙ ap (λ u. u ++ claim) split
            ∙ append_assoc before (codes ":") claim,
      )
]

matches_self :
    (annotator claim : Str)
    → is_empty claim ≡ false
    → claim_value_matches (claim_value annotator claim) claim ≡ true
unfolding claim_value_matches
matches_self annotator claim h =
    rw
      (
        h,
        sym (append_assoc annotator (codes ":") claim),
        strip_suffix-append (annotator ++ codes ":") claim,
      )
      (ends_with-append annotator (codes ":"))

differs :
    (annotator candidate claim : Str)
    → is_empty candidate ≡ false
    → claim_value_matches (claim_value annotator claim) candidate ≡ false
    → str_eq candidate claim ≡ false
differs annotator candidate claim h m = elim (Bool-cases (str_eq candidate claim)) [
  | inl same ↦ cc (matches_self annotator candidate h, (str_eq_iff candidate claim).0 same)
  | inr other ↦ other
]

-- A claim's text accepts the id of the claim and no other one.
pub matches-claim_value :
    (annotator claim candidate : Str)
    → Lacks b':' claim
    → Lacks b':' candidate
    → claim_value_matches (claim_value annotator claim) candidate
      ≡ (not (is_empty candidate) && str_eq candidate claim)
unfolding claim_value_matches
matches-claim_value annotator claim [] hc hd = refl
matches-claim_value annotator claim (x ∷ rest) hc hd =
    let candidate : Str = x ∷ rest in
    elim (Bool-cases (claim_value_matches (claim_value annotator claim) candidate)) [
      | inl m ↦
          let (before, e) = matches-split (claim_value annotator claim) candidate m in
          m
          ∙ sym (
              (str_eq_iff candidate claim).1
                (sym (last_piece b':' annotator before claim candidate hc hd e)))
      | inr m ↦ m ∙ sym (differs annotator candidate claim refl m)
    ]
