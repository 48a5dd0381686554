-- ===== src/Registry/Records.antt =====
-- The round trip of a session's record through its Redis hash, of
-- ma-core/src/registry/schema.rs.
use memory_archive.Prelude.{◌^◌, ◌<◌, ◌≡◌, refl, ap, Option, none, some}
use memory_archive.Registry.Schema.{
  model_pair, parse_status-show_status, parse_mode-show_mode, Chrono, SessionRecord, field,
  to_redis_pairs, from_redis_map,
}
use memory_archive.Text.{Str, codes, str_eq}
use memory_archive.Text.Decimal.{parse_u32-show_nat}

-- The counters of a record are `u32`s.
abbrev pub HasWords : {Time : Type 0} → SessionRecord Time → Type 0
HasWords r =
    (r.total_steps < 2 ^ 32)
    × (r.annotated_steps < 2 ^ 32)
    × (r.skipped_steps < 2 ^ 32)
    × (r.context_window_steps < 2 ^ 32)

field-model_pair : (m : Option Str) → field (codes "reasoning_model_id") (model_pair m) ≡ m
unfolding field model_pair str_eq
field-model_pair none = refl
field-model_pair (some model_id) = refl

module _ (c : Chrono) (r : SessionRecord c.Time) (words : HasWords r) where
  pub from_redis_map-to_redis_pairs : from_redis_map c (to_redis_pairs c r) ≡ some r
  unfolding from_redis_map to_redis_pairs field str_eq
  from_redis_map-to_redis_pairs =
      rw
        (
          parse_mode-show_mode r.mode,
          parse_status-show_status r.status,
          c.parse-to_rfc3339 r.created_at,
          c.parse-to_rfc3339 r.updated_at,
          parse_u32-show_nat r.total_steps words.0,
          parse_u32-show_nat r.annotated_steps words.1,
          parse_u32-show_nat r.skipped_steps words.2,
          parse_u32-show_nat r.context_window_steps words.3,
        )
        (ap (λ m. some (record r { reasoning_model_id = m }))
          (field-model_pair r.reasoning_model_id))
