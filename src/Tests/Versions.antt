-- ===== src/Tests/Versions.antt =====
-- Inputs for the version gates.
use memory_archive.Prelude.{is_some, ◌≡◌, refl, ◌↔◌, ◌⊎◌, inl, true, none, some, ◌∷◌, ◌++◌, arith}
use memory_archive.Text.{codes, is_whitespace, strip_prefix, split_char, take_until}
use memory_archive.Text.Trim.{trim}
use memory_archive.Text.Decimal.{parse_u32}
use memory_archive.Compat.{
  Version, version, supported_min, record_fidelity_min, supported_max, lt_version, parse, display,
  supported, too_new, too_old, ceiling, evaluate, refusal, recorded, lossy, evaluate_agent,
  agent_refusal,
}
use memory_archive.Compat.Parsing.{marked, parse-display}
use memory_archive.Compat.Gates.{
  override_keeps, InRange, refusal-evaluate, override_widens, refusal-evaluate_agent,
  parse-recorded,
}

abbrev newer : Version
newer = version 1 4 0

parse_runs :
    (parse (codes " v1.2.1 ") ≡ some (version 1 2 1))
    × (parse (codes "1.3.0+build7") ≡ some (version 1 3 0))
    × (parse (codes "1.2") ≡ none)
    × (parse (codes "1.2.3.4") ≡ none)
    × (parse (codes "latest") ≡ none)
unfolding parse trim split_char take_until strip_prefix parse_u32 is_whitespace
parse_runs = (refl, refl, refl, refl, refl)

evaluate_runs :
    (evaluate (codes "1.10.0") none ≡ too_new (version 1 10 0) supported_max)
    × (evaluate (codes "1.4.0") (some newer) ≡ supported newer)
    × (evaluate (codes "0.9.0") none ≡ too_old (version 0 9 0) supported_min)
    × (evaluate_agent (codes "1.2.1") ≡ lossy (version 1 2 1) record_fidelity_min)
unfolding evaluate evaluate_agent ceiling lt_version parse trim split_char take_until strip_prefix
    parse_u32 is_whitespace
evaluate_runs = (refl, refl, refl, refl)

parse-display_example :
    (parse (display newer ++ codes "-rc1") ≡ some newer)
    × (parse (b'v' ∷ (display newer ++ codes "-rc1")) ≡ some newer)
parse-display_example =
    parse-display newer (codes "-rc1")
      (record { major = omega arith; minor = omega arith; patch = omega arith })
      (marked b'-' (codes "rc1") (inl refl))

refusal-evaluate_example : (refusal (evaluate (codes "1.4.0") (some newer)) ≡ none) ↔ (
    (parse (codes "1.4.0") ≡ none)
    ⊎ ((v : Version) × (parse (codes "1.4.0") ≡ some v)
        × InRange supported_min v (ceiling (some newer))))
refusal-evaluate_example = refusal-evaluate (codes "1.4.0") (some newer)

override_keeps_example : refusal (evaluate (codes "1.2.1") (some newer)) ≡ none
unfolding evaluate refusal ceiling lt_version parse trim split_char take_until strip_prefix
    parse_u32 is_whitespace
override_keeps_example = override_keeps (codes "1.2.1") newer refl

override_widens_example : refusal (evaluate (codes "1.4.0") (some newer)) ≡ none
unfolding lt_version parse trim split_char take_until strip_prefix parse_u32 is_whitespace
override_widens_example =
    override_widens (codes "1.4.0") newer newer refl (record { from_below = refl; to_above = refl })

refusal-evaluate_agent_example :
    (is_some (agent_refusal (evaluate_agent (codes "1.0.0"))) ≡ true)
    ↔ ((v : Version) × (parse (codes "1.0.0") ≡ some v) × (lt_version v record_fidelity_min ≡ true))
refusal-evaluate_agent_example = refusal-evaluate_agent (codes "1.0.0")

parse-recorded_example :
    parse (recorded (evaluate (codes " weird ") none)) ≡ parse (codes " weird ")
parse-recorded_example = parse-recorded (codes " weird ") none
