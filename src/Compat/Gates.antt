-- ===== src/Compat/Gates.antt =====
-- What the two version gates let pass, and what they store as provenance.
use memory_archive.Prelude.{
  Option-cases, is_some, ◌≡◌, refl, subst, ◌∙◌, ◌↔◌, ◌⊎◌, inl, inr, true, false, Option, none, some,
  List, [], ◌∷◌, append-nil, arith,
}
use memory_archive.Text.{Str}
use memory_archive.Text.Trim.{trim, trim_idem}
use memory_archive.Text.Decimal.{parse_u32-lt, parse_u32}
use memory_archive.Compat.{
  Version, lt_version, supported_min, supported_max, record_fidelity_min, parse, display,
  from_parts, judge, judge_agent, ceiling, evaluate, refusal, recorded, evaluate_agent,
  agent_refusal,
}
use memory_archive.Compat.Parsing.{IsU32, bare, parse-display}

-- `min ≤ v ≤ max`
pub record InRange (min v max : Version) : Type 0 where
  pub from_below : lt_version v min ≡ false
  pub to_above : lt_version max v ≡ false

judge_passes :
    (reported : Str) (max : Version) (found : Option Version)
    → (refusal (judge reported max found) ≡ none)
      ↔ ((found ≡ none) ⊎ ((v : Version) × (found ≡ some v) × InRange supported_min v max))
unfolding judge refusal
judge_passes reported max none = (λ _. inl refl, λ _. refl)
judge_passes reported max (some v) = (λ h. inr (v, refl, ground arith), λ h. ground arith)

-- The server gate has no objection exactly when the version cannot be read, or lies between the
-- oldest supported release and the ceiling, which is the greater of the override and
-- `SUPPORTED_MAX`.
pub refusal-evaluate :
    (reported : Str) (max_override : Option Version)
    → (refusal (evaluate reported max_override) ≡ none) ↔ (
        (parse reported ≡ none)
        ⊎ ((v : Version) × (parse reported ≡ some v)
            × InRange supported_min v (ceiling max_override)))
unfolding evaluate
refusal-evaluate reported max_override =
    judge_passes reported (ceiling max_override) (parse reported)

ceiling_raised :
    (w : Version) (v : Version)
    → lt_version supported_max v ≡ false
    → lt_version (ceiling (some w)) v ≡ false
unfolding ceiling lt_version
ceiling_raised w v h = ground arith

ceiling_reached : (w v : Version) → lt_version w v ≡ false → lt_version (ceiling (some w)) v ≡ false
unfolding ceiling lt_version
ceiling_reached w v h = ground arith

ceiling-none : ceiling none ≡ supported_max
unfolding ceiling lt_version
ceiling-none = refl

-- An override refuses no report that passes without it.
pub override_keeps :
    (reported : Str) (w : Version)
    → refusal (evaluate reported none) ≡ none
    → refusal (evaluate reported (some w)) ≡ none
override_keeps reported w h =
    (refusal-evaluate reported (some w)).1 (elim ((refusal-evaluate reported none).0 h) [
      | inl e ↦ inl e
      | inr (v, e, r) ↦ inr (
        v,
        e,
        record {
          from_below = r.from_below;
          to_above =
              ceiling_raised w v (subst (λ m. lt_version m v ≡ false) ceiling-none r.to_above);
        },
      )
    ])

-- With an override every version between the oldest supported one and the override passes.
pub override_widens :
    (reported : Str) (v w : Version)
    → parse reported ≡ some v
    → InRange supported_min v w
    → refusal (evaluate reported (some w)) ≡ none
override_widens reported v w e r =
    (refusal-evaluate reported (some w)).1
      (inr (v, e, record { from_below = r.from_below; to_above = ceiling_reached w v r.to_above }))

judge_agent_refuses :
    (reported : Str) (found : Option Version)
    → (is_some (agent_refusal (judge_agent reported found)) ≡ true)
      ↔ ((v : Version) × (found ≡ some v) × (lt_version v record_fidelity_min ≡ true))
unfolding judge_agent agent_refusal
judge_agent_refuses reported none = (λ h. cc, λ h. cc (h.1))
judge_agent_refuses reported (some v) = (λ h. (v, refl, ground arith), λ h. ground (arith, h.1))

-- The agent gate refuses exactly the readable versions below `RECORD_FIDELITY_MIN`; it has no
-- upper bound.
pub refusal-evaluate_agent :
    (reported : Str)
    → (is_some (agent_refusal (evaluate_agent reported)) ≡ true)
      ↔ ((v : Version) × (parse reported ≡ some v) × (lt_version v record_fidelity_min ≡ true))
unfolding evaluate_agent
refusal-evaluate_agent reported = judge_agent_refuses reported (parse reported)

from_parts-IsU32 : (parts : List Str) {v : Version} → from_parts parts ≡ some v → IsU32 v
unfolding from_parts
from_parts-IsU32 [] h = cc
from_parts-IsU32 (a ∷ []) h = cc
from_parts-IsU32 (a ∷ b ∷ []) h = cc
from_parts-IsU32 (a ∷ b ∷ c ∷ []) h = elim (Option-cases (parse_u32 a)) [
  | inl e ↦ absurd (ground arith)
  | inr (x, ea) ↦ elim (Option-cases (parse_u32 b)) [
    | inl e ↦ absurd (ground arith)
    | inr (y, eb) ↦ elim (Option-cases (parse_u32 c)) [
      | inl e ↦ absurd (ground arith)
      | inr (z, ec) ↦ ground (arith, parse_u32-lt a ea, parse_u32-lt b eb, parse_u32-lt c ec)
    ]
  ]
]
from_parts-IsU32 (a ∷ b ∷ c ∷ d ∷ rest) h = cc

-- Every component that `parse` reads fits a `u32`.
pub parse-IsU32 : (reported : Str) {v : Version} → parse reported ≡ some v → IsU32 v
unfolding parse
parse-IsU32 reported h = from_parts-IsU32 _ h

parse-trim : (raw : Str) → parse (trim raw) ≡ parse raw
unfolding parse
parse-trim raw = rw (trim_idem raw)

parse-display_bare : (v : Version) → IsU32 v → parse (display v) ≡ some v
parse-display_bare v h =
    subst (λ t. parse t ≡ some v) (append-nil (display v)) (parse-display v [] h bare).0

parse-recorded-judge :
    (reported : Str) (max : Version) (found : Option Version)
    → parse reported ≡ found
    → parse (recorded (judge reported max found)) ≡ found
unfolding judge recorded
parse-recorded-judge reported max none e = parse-trim reported ∙ e
parse-recorded-judge reported max (some v) e =
    ground (arith, parse-display_bare v (parse-IsU32 reported e))

-- The version stored as provenance reads back as the version that the server reported, whatever
-- the verdict; it is unreadable exactly when the report was.
pub parse-recorded :
    (reported : Str) (max_override : Option Version)
    → parse (recorded (evaluate reported max_override)) ≡ parse reported
unfolding evaluate
parse-recorded reported max_override =
    parse-recorded-judge reported (ceiling max_override) (parse reported) refl
