-- ===== src/Compat/Order.antt =====
-- The derived order of versions.
use memory_archive.Prelude.{◌≡◌, ◌↔◌, true, false, arith}
use memory_archive.Compat.{Version, lt_version, max_version}

pub lt_version_irrefl : (a : Version) → lt_version a a ≡ false
unfolding lt_version
lt_version_irrefl a = ground arith

pub lt_version_trans :
    (a b c : Version) → lt_version a b ≡ true → lt_version b c ≡ true → lt_version a c ≡ true
unfolding lt_version
lt_version_trans a b c h k = ground arith

pub lt_version_total : (a b : Version) → lt_version a b ≡ false → lt_version b a ≡ false → a ≡ b
unfolding lt_version
lt_version_total a b h k = ground arith

-- `a ≤ b < c`
pub le_lt_trans :
    (a b c : Version) → lt_version b a ≡ false → lt_version b c ≡ true → lt_version a c ≡ true
unfolding lt_version
le_lt_trans a b c h k = ground arith

-- Nothing above the greater of two is above either.
pub max_version_bounds :
    (a b c : Version)
    → (lt_version (max_version a b) c ≡ true) ↔ ((lt_version a c ≡ true) × (lt_version b c ≡ true))
unfolding lt_version
max_version_bounds a b c = ground arith
