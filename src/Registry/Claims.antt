-- ===== src/Registry/Claims.antt =====
-- The claims of annotators in ma-core/src/registry/mod.rs: a key with a time to live for each
-- session, whose text names the annotator and the claim. `claim_session` has no caller in the source:
-- a claim is set by the script of Registry/Script.
use memory_archive.Prelude.{
  if◌then◌else◌, unwrap_or, is_empty, ℕ, Bool, true, false, not, ◌&&◌, Option, none, some, List, [],
  ◌∷◌, ◌++◌,
}
use memory_archive.Text.{Str, codes, split_char}
use memory_archive.Text.Decimal.{parse_u32}
use memory_archive.Text.Search.{strip_suffix, ends_with}
use memory_archive.Registry.Schema.{or_default, session_key}
use memory_archive.Registry.Redis.{Op, ◌>>=◌, ◌>>◌, return, Redis}
use memory_archive.Registry.Sessions.{as_i64}
use memory_archive.Registry.Effects.{claim_key}

abbrev pub ends_with_colon : Option Str → Bool
ends_with_colon (some prefix) = ends_with (codes ":") prefix
ends_with_colon none = false

unfoldable pub claim_value_matches : (stored claim_id : Str) → Bool
claim_value_matches stored claim_id =
    not (is_empty claim_id) && ends_with_colon (strip_suffix claim_id stored)

abbrev pub claim_value : (annotator_id claim_id : Str) → Str
claim_value annotator_id claim_id = annotator_id ++ b':' ∷ claim_id

abbrev pub claim_matches : Option Str → Str → Bool
claim_matches none claim_id = false
claim_matches (some stored) claim_id = claim_value_matches stored claim_id

abbrev pub first_piece : List Str → Option Str
first_piece [] = none
first_piece (piece ∷ rest) = some piece

-- `HMGET`'s fields as one item of the queue: the name, the steps, and the time of creation
abbrev pub QueueItem : Type 0
QueueItem = Str × Str × ℕ × Str

abbrev pub steps_of : Option Str → Option ℕ
steps_of none = none
steps_of (some s) = parse_u32 s

abbrev pub queue_item : Str → Option Str × Option Str × Option Str → QueueItem
queue_item session_id (name, steps, created) =
    (session_id, or_default name, unwrap_or 0 (steps_of steps), or_default created)

module _ (r : Redis) where
  unfoldable pub claim_session :
      (session_id annotator_id claim_id : Str) (ttl_secs : ℕ) → Op (Option Str)
  claim_session session_id annotator_id claim_id ttl_secs = do
    set ← r.set_nx_ex (claim_key session_id) (claim_value annotator_id claim_id) ttl_secs
    return (if set then some claim_id else none)

  unfoldable pub release_claim : Str → Op (Unit {0})
  release_claim session_id = do removed ← r.del (claim_key session_id); return tt

  unfoldable pub verify_claim_id : (session_id claim_id : Str) → Op Bool
  verify_claim_id session_id claim_id = do
    stored ← r.get (claim_key session_id)
    return (claim_matches stored claim_id)

  unfoldable pub refresh_claim : (session_id claim_id : Str) (ttl_secs : ℕ) → Op Bool
  refresh_claim session_id claim_id ttl_secs = do
    current ← r.get (claim_key session_id)
    if claim_matches current claim_id
        then (do r.expire (claim_key session_id) (as_i64 ttl_secs); return true)
        else return false

  unfoldable pub get_claim_owner : Str → Op (Option Str)
  get_claim_owner session_id = do
    stored ← r.get (claim_key session_id)
    return (elim stored [ none ↦ none | some v ↦ first_piece (split_char b':' v) ])

  unfoldable pub get_queue_items : List Str → Op (List QueueItem)
  get_queue_items [] = return []
  get_queue_items (session_id ∷ rest) = do
    fields ←
        r.hmget (session_key session_id) (codes "memory_name") (codes "total_steps")
          (codes "created_at")
    items ← get_queue_items rest
    return (queue_item session_id fields ∷ items)
