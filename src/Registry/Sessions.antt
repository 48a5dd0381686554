-- ===== src/Registry/Sessions.antt =====
-- The methods of SessionRegistry in ma-core/src/registry/mod.rs on the records of sessions and the
-- index sets over them. `now` is the time that a method reads, printed.
use memory_archive.Prelude.{
  ltb, if◌then◌else◌, is_empty, ℤ, pos, negsuc, ℕ, ◌+◌, ◌-◌, ◌^◌, Bool, Option, none, some, List,
  [], ◌∷◌, ◌++◌, map,
}
use memory_archive.Text.{Str, codes}
use memory_archive.Text.Decimal.{show_nat}
use memory_archive.Registry.Redis.{
  already_exists, not_found, unreadable, empty_session_id, Op, ◌>>=◌, ◌>>◌, return, fail, or_fail,
  Redis,
}
use memory_archive.Registry.Schema.{
  Fields, SessionStatus, ttl_seconds, index_set, show_status, parse_status, SessionMode, manual,
  automated, Chrono, SessionRecord, to_redis_pairs, from_redis_map, session_key, os_index_key,
  mode_index_key,
}

abbrev pub status_sets : List Str
status_sets =
    codes "sessions:active"
    ∷ codes "sessions:pending"
    ∷ codes "sessions:pending_human_annotation"
    ∷ codes "sessions:annotating"
    ∷ codes "sessions:pending_compilation"
    ∷ codes "sessions:reasoning_degraded"
    ∷ []

abbrev pub old_status : Option Str → Option SessionStatus
old_status none = none
old_status (some s) = parse_status s

abbrev pub set_of : Option SessionStatus → Option Str
set_of none = none
set_of (some status) = index_set status

-- `seconds as i64`
unfoldable pub as_i64 : ℕ → ℤ
as_i64 n = if ltb n (2 ^ 63) then pos n else negsuc (2 ^ 64 - 1 - n)

-- The sets by operating system and mode: the record's, or all of them when there is none.
unfoldable pub other_sets :
    {Time : Type 0} (to_uppercase : Str → Str) → Option (SessionRecord Time) → List Str
other_sets to_uppercase (some record_of) =
    os_index_key to_uppercase record_of.os_type ∷ mode_index_key record_of.mode ∷ []
other_sets to_uppercase none =
    os_index_key to_uppercase (codes "LINUX")
    ∷ os_index_key to_uppercase (codes "WINDOWS")
    ∷ os_index_key to_uppercase (codes "MACOS")
    ∷ mode_index_key manual
    ∷ mode_index_key automated
    ∷ []

-- what `get` makes of the fields of a hash
unfoldable pub read_record : (c : Chrono) → Fields → Op (SessionRecord c.Time)
read_record c map =
    if is_empty map then fail not_found else or_fail unreadable (from_redis_map c map)

module _ (r : Redis) where
  unfoldable pub sadd_to : Option Str → Str → Op (Unit {0})
  sadd_to (some set) session_id = r.sadd set session_id
  sadd_to none session_id = return tt

  unfoldable pub srem_from : Option Str → Str → Op (Unit {0})
  srem_from (some set) session_id = r.srem set session_id
  srem_from none session_id = return tt

  unfoldable pub add_to_indexes :
      (to_uppercase : Str → Str) → Str → SessionStatus → Str → SessionMode → Op (Unit {0})
  add_to_indexes to_uppercase session_id status os_type mode = do
    sadd_to (index_set status) session_id
    r.sadd (os_index_key to_uppercase os_type) session_id
    r.sadd (mode_index_key mode) session_id

  unfoldable pub clear_ttl : Str → Op (Unit {0})
  clear_ttl session_id = do removed ← r.persist (session_key session_id); return tt

  unfoldable pub set_ttl : Str → ℕ → Op (Unit {0})
  set_ttl session_id seconds = r.expire (session_key session_id) (as_i64 seconds)

  unfoldable pub apply_ttl : Str → Option ℕ → Op (Unit {0})
  apply_ttl session_id (some ttl) = set_ttl session_id ttl
  apply_ttl session_id none = clear_ttl session_id

  unfoldable pub update_status : (now session_id : Str) → SessionStatus → Op (Unit {0})
  update_status now session_id new_status = do
    current ← r.hget (session_key session_id) (codes "status")
    srem_from (set_of (old_status current)) session_id
    r.hset (session_key session_id)
        ((codes "status", show_status new_status) ∷ (codes "updated_at", now) ∷ [])
    sadd_to (index_set new_status) session_id
    apply_ttl session_id (ttl_seconds new_status)

  unfoldable pub update_memory_path : (now session_id new_path : Str) → Op (Unit {0})
  update_memory_path now session_id new_path =
      r.hset (session_key session_id)
        ((codes "memory_path", new_path) ∷ (codes "updated_at", now) ∷ [])

  unfoldable pub update_annotation_counters :
      (now session_id : Str) (annotated skipped : ℕ) → Op (Unit {0})
  update_annotation_counters now session_id annotated skipped = r.hset (session_key session_id) (
      (codes "annotated_steps", show_nat annotated)
      ∷ (codes "skipped_steps", show_nat skipped)
      ∷ (codes "updated_at", now)
      ∷ [])

  unfoldable pub list_active : Op (List Str)
  list_active = r.smembers (codes "sessions:active")

  unfoldable pub list_annotating : Op (List Str)
  list_annotating = r.smembers (codes "sessions:annotating")

  unfoldable pub list_pending_human_annotation : Op (List Str)
  list_pending_human_annotation = r.smembers (codes "sessions:pending_human_annotation")

  unfoldable pub list_pending_compilation : Op (List Str)
  list_pending_compilation = r.smembers (codes "sessions:pending_compilation")

  unfoldable pub list_reasoning_degraded : Op (List Str)
  list_reasoning_degraded = r.smembers (codes "sessions:reasoning_degraded")

  unfoldable pub remove_from_active_set : Str → Op (Unit {0})
  remove_from_active_set session_id = r.srem (codes "sessions:active") session_id

  -- One member of a set: its session's hash is looked for.
  unfoldable pub remove_if_stale : (set_key session_id : Str) → ℕ → Op ℕ
  remove_if_stale set_key session_id removed = do
    exists ← r.exists (session_key session_id)
    if exists then return removed else (do r.srem set_key session_id; return (removed + 1))

  unfoldable pub remove_stale : Str → List Str → ℕ → Op ℕ
  remove_stale set_key [] removed = return removed
  remove_stale set_key (session_id ∷ members) removed =
      remove_if_stale set_key session_id removed >>= remove_stale set_key members

  unfoldable pub cleanup_stale_index_entries : Str → Op ℕ
  cleanup_stale_index_entries set_key = do
    members ← r.smembers set_key
    remove_stale set_key members 0

  unfoldable pub srem_all : List Str → Str → Op (Unit {0})
  srem_all [] session_id = return tt
  srem_all (set ∷ sets) session_id = do r.srem set session_id; srem_all sets session_id

  unfoldable pub delete_session :
      {Time : Type 0} (to_uppercase : Str → Str) → Str → Option (SessionRecord Time) → Op Bool
  delete_session to_uppercase [] known = fail empty_session_id
  delete_session to_uppercase (x ∷ rest) known = do
    let session_id = x ∷ rest
    hash_removed ← r.del (session_key session_id)
    srem_all status_sets session_id
    srem_all (other_sets to_uppercase known) session_id
    claims ← r.del (codes "claim:" ++ session_id)
    return (ltb 0 hash_removed)

  module _ (c : Chrono) where
    unfoldable pub register : (to_uppercase : Str → Str) → SessionRecord c.Time → Op (Unit {0})
    register to_uppercase new = do
      exists ← r.exists (session_key new.session_id)
      if exists then fail already_exists else (do
        r.hset (session_key new.session_id) (to_redis_pairs c new)
        add_to_indexes to_uppercase new.session_id new.status new.os_type new.mode)

    unfoldable pub get : Str → Op (SessionRecord c.Time)
    get session_id = do map ← r.hgetall (session_key session_id); read_record c map
