-- ===== src/Registry/Keys.antt =====
-- The keys of ma-core/src/registry/schema.rs and the fields behind them: which keys differ, and
-- what is read from a hash after a write.
use memory_archive.Prelude.{
  if◌then◌else◌, ◌≡◌, refl, ap, ◌∙◌, true, false, Option, none, some, [], ◌∷◌, ◌++◌, arith,
}
use memory_archive.Text.{Str, codes, str_eq, str_eq_iff}
use memory_archive.Registry.Schema.{
  SessionStatus, active, pending_annotation, pending_human_annotation, annotating,
  pending_compilation, reasoning_degraded, complete, incomplete, index_set, show_status,
  SessionMode, show_mode, parse_status-show_status, Chrono, SessionRecord, Fields, field,
  to_redis_pairs, session_key, os_index_key, mode_index_key,
}
use memory_archive.Registry.Redis.{Db}
use memory_archive.Registry.Redis.Reference.{put_field, put_fields, has, drop_key}
use memory_archive.Registry.Sessions.{status_sets, old_status}
use memory_archive.Registry.Sets.{same_set}
use memory_archive.Registry.Effects.{claim_key, status_fields}

pub session_key-eq : (a b : Str) → str_eq (session_key a) (session_key b) ≡ str_eq a b
unfolding session_key str_eq
session_key-eq a b = refl

pub claim_key-eq : (a b : Str) → str_eq (claim_key a) (claim_key b) ≡ str_eq a b
unfolding claim_key str_eq
claim_key-eq a b = refl

pub session_key-ne-claim_key : (a b : Str) → str_eq (session_key a) (claim_key b) ≡ false
unfolding session_key claim_key str_eq
session_key-ne-claim_key a b = refl

pub claim_key-ne-session_key : (a b : Str) → str_eq (claim_key a) (session_key b) ≡ false
unfolding session_key claim_key str_eq
claim_key-ne-session_key a b = refl

-- The keys of the index sets begin with `sessions:`.
abbrev pub IsSetKey : Str → Type 0
IsSetKey key = (rest : Str) × (key ≡ codes "sessions:" ++ rest)

pub set_key-ne-session_key : (key id : Str) → IsSetKey key → str_eq key (session_key id) ≡ false
unfolding session_key str_eq
set_key-ne-session_key key id h = rw (h.1) refl

pub set_key-ne-claim_key : (key id : Str) → IsSetKey key → str_eq key (claim_key id) ≡ false
unfolding claim_key str_eq
set_key-ne-claim_key key id h = rw (h.1) refl

-- Dropping a session's hash and claim leaves the sets.
pub drop_session-members :
    (key id : Str) (db : Db)
    → IsSetKey key
    → (drop_key (session_key id) db).members key ≡ db.members key
unfolding drop_key
drop_session-members key id db h = rw (set_key-ne-session_key key id h) refl

pub drop_claim-members :
    (key id : Str) (db : Db)
    → IsSetKey key
    → (drop_key (claim_key id) db).members key ≡ db.members key
unfolding drop_key
drop_claim-members key id db h = rw (set_key-ne-claim_key key id h) refl

abbrev pub SetOf : Option Str → Type 0
SetOf none = Unit {0}
SetOf (some key) = IsSetKey key × (has key status_sets ≡ true)

pub index_set-SetOf : (s : SessionStatus) → SetOf (index_set s)
unfolding index_set has str_eq
index_set-SetOf active = ((codes "active", refl), refl)
index_set-SetOf pending_annotation = ((codes "pending", refl), refl)
index_set-SetOf pending_human_annotation = ((codes "pending_human_annotation", refl), refl)
index_set-SetOf annotating = ((codes "annotating", refl), refl)
index_set-SetOf pending_compilation = ((codes "pending_compilation", refl), refl)
index_set-SetOf reasoning_degraded = ((codes "reasoning_degraded", refl), refl)
index_set-SetOf complete = tt
index_set-SetOf incomplete = tt

-- No status has a set by operating system or by mode.
pub index_set-ne-os :
    (s : SessionStatus) (up : Str → Str) (os : Str)
    → same_set (index_set s) (some (os_index_key up os)) ≡ false
unfolding index_set os_index_key str_eq
index_set-ne-os active up os = refl
index_set-ne-os pending_annotation up os = refl
index_set-ne-os pending_human_annotation up os = refl
index_set-ne-os annotating up os = refl
index_set-ne-os pending_compilation up os = refl
index_set-ne-os reasoning_degraded up os = refl
index_set-ne-os complete up os = refl
index_set-ne-os incomplete up os = refl

pub index_set-ne-mode :
    (s : SessionStatus) (mode : SessionMode)
    → same_set (index_set s) (some (mode_index_key mode)) ≡ false
unfolding index_set mode_index_key show_mode str_eq
index_set-ne-mode active mode = refl
index_set-ne-mode pending_annotation mode = refl
index_set-ne-mode pending_human_annotation mode = refl
index_set-ne-mode annotating mode = refl
index_set-ne-mode pending_compilation mode = refl
index_set-ne-mode reasoning_degraded mode = refl
index_set-ne-mode complete mode = refl
index_set-ne-mode incomplete mode = refl

pub field-put_field :
    (name other value : Str) (fields : Fields)
    → field name (put_field other value fields)
      ≡ (if str_eq name other then some value else field name fields)
unfolding field put_field
field-put_field name other value [] = refl
field-put_field name other value ((third, old) ∷ rest) = ground (
  arith,
  field-put_field name other value rest,
  str_eq_iff other third,
  str_eq_iff name other,
  str_eq_iff name third,
)

-- The status that `update_status` writes is the status that is read.
pub put_status :
    (now : Str) (status : SessionStatus) (fields : Fields)
    → old_status (field (codes "status") (put_fields (status_fields now status) fields))
      ≡ some status
unfolding put_fields status_fields str_eq
put_status now status fields =
    let written = put_field (codes "status") (show_status status) fields in
    ap old_status (
      field-put_field (codes "status") (codes "updated_at") now written
      ∙ field-put_field (codes "status") (codes "status") (show_status status) fields)
    ∙ parse_status-show_status status

-- HSET of a whole record to a key that holds nothing leaves the record's pairs.
put_pairs-model :
    (c : Chrono) (r : SessionRecord c.Time) (m : Option Str)
    → put_fields (to_redis_pairs c (record r { reasoning_model_id = m })) []
      ≡ to_redis_pairs c (record r { reasoning_model_id = m })
unfolding put_fields to_redis_pairs str_eq
put_pairs-model c r none = refl
put_pairs-model c r (some model_id) = refl

pub put_pairs-empty :
    (c : Chrono) (r : SessionRecord c.Time)
    → put_fields (to_redis_pairs c r) [] ≡ to_redis_pairs c r
put_pairs-empty c r = put_pairs-model c r r.reasoning_model_id

pub status-to_redis_pairs :
    (c : Chrono) (r : SessionRecord c.Time)
    → old_status (field (codes "status") (to_redis_pairs c r)) ≡ some r.status
unfolding field to_redis_pairs str_eq
status-to_redis_pairs c r = parse_status-show_status r.status
