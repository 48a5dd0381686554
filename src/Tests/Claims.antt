-- ===== src/Tests/Claims.antt =====
-- Inputs for claims, deletions and the retention sweep of ma-core/src/registry/mod.rs, and for the
-- router of ma-core/src/storage/router.rs.
use memory_archive.Prelude.Result.{ok}
use memory_archive.Prelude.{
  if◌then◌else◌, is_empty, ℕ, ◌≡◌, ◌≢◌, refl, ◌↔◌, inr, true, false, not, ◌&&◌, none, some, List,
  [], ◌∷◌, ◌++◌, arith,
}
use memory_archive.Text.{
  Str, codes, concat, str_eq, is_ascii_digit, is_ascii_alphanumeric, is_whitespace, len_utf8, len,
  strip_prefix, cons_first, split_char, take_until, drop_until, str_eq_iff, str_eq_refl,
  strip_prefix-append, strip_prefix-eq_some, take_until-append, drop_until-append, Lacks,
  split_char-append, split_char_whole,
}
use memory_archive.Registry.Schema.{
  field, to_redis_pairs, session_key, os_index_key, mode_index_key,
}
use memory_archive.Registry.Redis.{Db}
use memory_archive.Registry.Redis.Reference.{
  put_fields, has, remove, present, drop_key, expire_in, set_absent, srem, del, expire, incr, store,
}
use memory_archive.Registry.Sessions.{as_i64, other_sets, srem_all, delete_session}
use memory_archive.Registry.Effects.{registered, claim_key, deleted}
use memory_archive.Registry.Stored.{delete_session-clean}
use memory_archive.Registry.Claims.{claim_value_matches, verify_claim_id, refresh_claim}
use memory_archive.Registry.Kept.{refreshed, elsewhere, here, next}
use memory_archive.Registry.Elsewhere.{Command, counted_up, key_of, send}
use memory_archive.Registry.Exclusive.{claim_target-exclusive}
use memory_archive.Registry.Script.{
  claimed_ok, taken, limit, count_held, claim_script, claim_target,
}
use memory_archive.Registry.Scans.{Scan, expired_id, sweep_keys, sweep, list_incomplete_before}
use memory_archive.Registry.Retention.{all_keys, IsExpired, list_incomplete_before_iff}
use memory_archive.Router.{
  tenant_prefix, default, RoutingRule, matched, pool_get, resolve, resolve_for_session,
}
use memory_archive.Router.Pinned.{resolve-first, resolve_for_session-kept}
use memory_archive.Tests.Sessions.{clock, same, store-Documented, empty, take}

abbrev before : Db
before = registered clock same take empty

abbrev linux : Str
linux = codes "sessions:by_os:LINUX"

deleted-take :
    delete_session store same (codes "s1") (some take) before
    ≡ (deleted same (some take) (codes "s1") before, ok true)
unfolding delete_session store del srem_all srem other_sets deleted claim_key drop_key
    memory_archive.Registry.Sets.removed_all session_key mode_index_key remove str_eq present
    registered os_index_key put_fields to_redis_pairs
deleted-take = refl

abbrev after : Db
after = deleted same (some take) (codes "s1") before

delete_session-clean_example :
    (true ≡ present (session_key (codes "s1")) before)
    × (present (session_key (codes "s1")) after ≡ false)
    × (after.text (claim_key (codes "s1")) ≡ none)
    × (has (codes "s1") (after.members linux) ≡ false)
    × (after.hash (session_key (codes "s2")) ≡ before.hash (session_key (codes "s2")))
    × (after.text (claim_key (codes "s2")) ≡ before.text (claim_key (codes "s2")))
unfolding has str_eq other_sets os_index_key
delete_session-clean_example =
    delete_session-clean store store-Documented same (some take) linux (codes "s2") before
      (codes "s1") refl refl deleted-take

-- Ann, who may hold two, claims the session, and it is refreshed; Bob tries.
abbrev claim_keys : List Str
claim_keys = codes "claim:s0" ∷ codes "claim:s1" ∷ []

abbrev claimed_by_ann : Db
claimed_by_ann = (claim_target store (codes "s1") (codes "ann") (codes "c1") 2 claim_keys empty).0

won :
    claim_target store (codes "s1") (codes "ann") (codes "c1") 2 claim_keys empty
    ≡ (claimed_by_ann, ok claimed_ok)
unfolding claim_target claim_script count_held store set_absent present refresh_claim claim_key
    str_eq claim_value_matches memory_archive.Text.Search.strip_suffix
    memory_archive.Text.strip_prefix memory_archive.Text.Search.ends_with
    memory_archive.Text.Search.starts_with expire as_i64 expire_in
won = refl

abbrev refreshed_db : Db
refreshed_db = (refresh_claim store (codes "s1") (codes "c1") 1800 claimed_by_ann).0

refresh :
    refresh_claim store (codes "s1") (codes "c1") 1800 claimed_by_ann ≡ (refreshed_db, ok true)
unfolding claim_target claim_script count_held store set_absent present refresh_claim claim_key
    str_eq claim_value_matches memory_archive.Text.Search.strip_suffix
    memory_archive.Text.strip_prefix memory_archive.Text.Search.ends_with
    memory_archive.Text.Search.starts_with expire as_i64 expire_in
refresh = refl

-- Bob, who failed to log in, is counted.
abbrev failures : Command
failures = counted_up (codes "annotator:bob:auth_failures")

abbrev counted_db : Db
counted_db = (send store failures refreshed_db).0

counting : send store failures refreshed_db ≡ (counted_db, ok tt)
unfolding send incr store
counting = refl

apart : str_eq (claim_key (codes "s1")) (key_of failures) ≡ false
unfolding str_eq claim_key key_of
apart = refl

lost :
    claim_target store (codes "s1") (codes "bob") (codes "c2") 0 [] counted_db
    ≡ (counted_db, ok taken)
unfolding claim_target claim_script count_held store set_absent present refresh_claim claim_key send
    incr str_eq claim_value_matches memory_archive.Text.Search.strip_suffix
    memory_archive.Text.strip_prefix memory_archive.Text.Search.ends_with
    memory_archive.Text.Search.starts_with expire as_i64 expire_in
lost = refl

-- Ann holds her one claim and asks for another.
at_limit :
    claim_target store (codes "s2") (codes "ann") (codes "c3") 1 claim_keys counted_db
    ≡ (counted_db, ok (limit 1))
unfolding claim_target claim_script count_held store set_absent present refresh_claim claim_key send
    incr str_eq claim_value_matches memory_archive.Text.Search.strip_suffix
    memory_archive.Text.strip_prefix memory_archive.Text.Search.ends_with
    memory_archive.Text.Search.starts_with expire as_i64 expire_in
at_limit = refl

checked : verify_claim_id store (codes "s1") (codes "c1") counted_db ≡ (counted_db, ok true)
unfolding claim_target claim_script count_held store set_absent present refresh_claim claim_key send
    incr str_eq claim_value_matches memory_archive.Text.Search.strip_suffix
    memory_archive.Text.strip_prefix memory_archive.Text.Search.ends_with
    memory_archive.Text.Search.starts_with expire as_i64 expire_in verify_claim_id
checked = refl

claim_target-exclusive_example :
    (taken ≢ claimed_ok)
    × (true ≡ (not (is_empty (codes "c1")) && str_eq (codes "c1") (codes "c1")))
claim_target-exclusive_example =
    claim_target-exclusive store store-Documented clock same (codes "s1") (codes "ann") (codes "c1")
      2 claim_keys empty won
      (next
        (next here
          (refreshed (codes "s1") (codes "c1") 1800 true (omega arith) (omega arith) refresh))
        (elsewhere failures apart counting))
      (codes "bob") (codes "c1") (codes "c2") 0 [] (refl, (refl, tt)) (refl, (refl, tt)) lost
      checked

-- One old take that was cut short.
abbrev with_old : Db
with_old = record empty {
  hash = λ key.
      if str_eq key (codes "session:s1")
      then (codes "session_id", codes "s1")
        ∷ (codes "status", codes "incomplete")
        ∷ (codes "updated_at", codes "2024-01-01")
        ∷ []
      else [];
}

abbrev scan : Scan
scan = some (codes "session:s0" ∷ codes "session:s1" ∷ []) ∷ []

listed_old :
    list_incomplete_before store clock (codes "2025-01-01") scan with_old
    ≡ (with_old, ok (codes "s1" ∷ []))
unfolding list_incomplete_before sweep sweep_keys store str_eq expired_id field
    memory_archive.Registry.Annotators.text_le
listed_old = refl

list_incomplete_before_iff_example :
    (with_old ≡ with_old)
    × ((has (codes "s1") (codes "s1" ∷ []) ≡ true) ↔ (
        (key : Str) × (has key (all_keys scan) ≡ true)
        × IsExpired clock (codes "2025-01-01") (with_old.hash key) (codes "s1")))
list_incomplete_before_iff_example =
    list_incomplete_before_iff clock (codes "2025-01-01") store store-Documented scan with_old
      (codes "s1") listed_old

-- Two backends, and rules of which the second is the first that serves the tenant.
abbrev pool : List (Str × ℕ)
pool = (codes "slow", 0) ∷ (codes "fast", 1) ∷ []

abbrev gone_rule : RoutingRule
gone_rule = record { matcher = default; backend_name = codes "gone" }

abbrev acme_rule : RoutingRule
acme_rule = record { matcher = tenant_prefix (codes "acme"); backend_name = codes "fast" }

resolve-first_example :
    resolve (record { pool = pool; rules = (gone_rule ∷ []) ++ acme_rule ∷ [] }) (codes "acme-1")
    ≡ some (codes "fast", 1)
unfolding matched pool_get str_eq memory_archive.Text.Search.starts_with
    memory_archive.Text.strip_prefix
resolve-first_example =
    resolve-first pool (codes "acme-1") (gone_rule ∷ []) acme_rule [] (inr refl, tt) refl refl

-- By then the rules are gone.
resolve_for_session-kept_example :
    resolve_for_session (record { pool = pool; rules = [] }) take ≡ some 1
resolve_for_session-kept_example =
    resolve_for_session-kept pool ((gone_rule ∷ []) ++ acme_rule ∷ []) [] (codes "acme-1")
      (codes "fast") take resolve-first_example refl refl
