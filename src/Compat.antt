-- ===== src/Compat.antt =====
-- ma-core/src/capture/compat.rs: the versions that a Control-Center server and agent report, and
-- the two gates over them. `RECORD_FIDELITY_MIN` and the like keep the source's words; the
-- operator's messages stand in the child Messages.
mod Messages
pub mod Order
pub mod Parsing
pub mod Gates
use memory_archive.Prelude.{
  ltb, ◌==◌, if◌then◌else◌, unwrap_or, ℕ, Bool, ◌&&◌, ◌||◌, Option, none, some, List, [], ◌∷◌, ◌++◌,
}
use memory_archive.Text.{Str, codes, strip_prefix, split_char, take_until}
use memory_archive.Text.Trim.{trim}
use memory_archive.Text.Decimal.{show_nat, parse_u32}
use Messages.{too_new_message, too_old_message, lossy_message}

-- `u32` fields
pub record Version : Type 0 where
  pub major : ℕ
  pub minor : ℕ
  pub patch : ℕ

abbrev pub version : ℕ → ℕ → ℕ → Version
version a b c = record { major = a; minor = b; patch = c }

abbrev pub supported_min : Version
supported_min = version 1 0 0

abbrev pub record_fidelity_min : Version
record_fidelity_min = version 1 2 2

abbrev pub supported_max : Version
supported_max = version 1 3 0

-- The derived order: by component.
unfoldable pub lt_version : Version → Version → Bool
lt_version a b =
    ltb a.major b.major
    || (a.major == b.major && (ltb a.minor b.minor || (a.minor == b.minor && ltb a.patch b.patch)))

is_suffix_mark : ℕ → Bool
is_suffix_mark c = c == b'-' || c == b'+'

from_parts : List Str → Option Version
from_parts (a ∷ b ∷ c ∷ []) = elim (parse_u32 a) [
  | none ↦ none
  | some major ↦ elim (parse_u32 b) [
    | none ↦ none
    | some minor ↦ elim (parse_u32 c) [
      | none ↦ none
      | some patch ↦ some (version major minor patch)
    ]
  ]
]
from_parts _ = none

-- the text between a `v` and the first `-` or `+`
core : Str → Str
unfolding is_suffix_mark
core trimmed = take_until is_suffix_mark (unwrap_or trimmed (strip_prefix (codes "v") trimmed))

-- `Version::parse`
unfoldable pub parse : Str → Option Version
unfolding from_parts core
parse raw = from_parts (split_char b'.' (core (trim raw)))

-- `Display for Version`
unfoldable pub display : Version → Str
display v = show_nat v.major ++ (b'.' ∷ (show_nat v.minor ++ (b'.' ∷ show_nat v.patch)))

pub data Compat : Type 0 where
  supported : Version → Compat
  too_new : (found max : Version) → Compat
  too_old : (found min : Version) → Compat
  unknown : Str → Compat

-- `Ord::max`
abbrev pub max_version : Version → Version → Version
unfolding lt_version
max_version a b = if lt_version b a then a else b

-- the arms of the match in `evaluate`, in their order
judge : Str → Version → Option Version → Compat
judge reported max none = unknown reported
judge reported max (some found) =
    if lt_version max found
    then too_new found max
    else if lt_version found supported_min
    then too_old found supported_min
    else supported found

unfoldable pub ceiling : Option Version → Version
ceiling max_override = max_version (unwrap_or supported_max max_override) supported_max

unfoldable pub evaluate : Str → Option Version → Compat
unfolding judge
evaluate reported max_override = judge reported (ceiling max_override) (parse reported)

unfoldable pub refusal : Compat → Option Str
refusal (supported v) = none
refusal (unknown raw) = none
refusal (too_new found max) = some (too_new_message (display found) (display max))
refusal (too_old found min) = some (too_old_message (display found) (display min))

unfoldable pub recorded : Compat → Str
recorded (supported v) = display v
recorded (too_new found max) = display found
recorded (too_old found min) = display found
recorded (unknown raw) = trim raw

pub data AgentFidelity : Type 0 where
  faithful : Version → AgentFidelity
  lossy : (found min : Version) → AgentFidelity
  unknown : Str → AgentFidelity

judge_agent : Str → Option Version → AgentFidelity
judge_agent reported none = AgentFidelity.unknown reported
judge_agent reported (some found) =
    if lt_version found record_fidelity_min then lossy found record_fidelity_min else faithful found

unfoldable pub evaluate_agent : Str → AgentFidelity
unfolding judge_agent
evaluate_agent reported = judge_agent reported (parse reported)

unfoldable pub agent_refusal : AgentFidelity → Option Str
agent_refusal (faithful v) = none
agent_refusal (AgentFidelity.unknown raw) = none
agent_refusal (lossy found min) = some (lossy_message (display found) (display min))
