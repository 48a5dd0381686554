-- ===== src/Tests/Sessions.antt =====
-- Inputs for the session registry of ma-core/src/registry.
use memory_archive.Prelude.Result.{ok, err}
use memory_archive.Prelude.{◌≡◌, refl, sym, ap, not, none, some, List, [], ◌∷◌, arith}
use memory_archive.Text.{Str, codes, str_eq}
use memory_archive.Registry.Schema.{
  SessionStatus, active, pending_annotation, pending_human_annotation, annotating,
  pending_compilation, reasoning_degraded, complete, incomplete, ttl_seconds, index_set,
  show_status, parse_status, manual, show_mode, Chrono, SessionRecord, field, model_pair,
  to_redis_pairs, session_key, os_index_key, mode_index_key,
}
use memory_archive.Registry.Redis.{Db, already_exists, answer}
use memory_archive.Registry.Redis.Reference.{
  put_field, put_fields, has, insert, remove, present, drop_key, expire_in, set_absent, hset, sadd,
  srem, del, persist, expire, incr, store, Documented, Follows-refl,
}
use memory_archive.Registry.Sessions.{
  as_i64, other_sets, sadd_to, srem_from, add_to_indexes, clear_ttl, set_ttl, apply_ttl,
  update_status, update_memory_path, update_annotation_counters, srem_all, delete_session, register,
  get,
}
use memory_archive.Registry.Sets.{same_set, listed}
use memory_archive.Registry.Coherence.{Statuses, Implements}
use memory_archive.Registry.Calls.{
  Call, registration, status_update, path_update, deletion, call, run, specified_all,
}
use memory_archive.Registry.Refines.{run-Implements}
use memory_archive.Registry.Effects.{registered, register-store}
use memory_archive.Registry.Stored.{get-register}
use memory_archive.Registry.Annotators.{text_le}

abbrev pub clock : Chrono
clock = record {
  Time = Str;
  to_rfc3339 = λ t. t;
  parse_time = λ s. some s;
  parse_from_rfc3339 = λ s. some s;
  before = λ a b. not (text_le b a);
  parse-to_rfc3339 = λ t. refl;
}

abbrev pub same : Str → Str
same s = s

pub store-Documented : Documented store
unfolding store
store-Documented = record {
  exists_lem = λ key. Follows-refl _;
  hset_lem = λ key fields. Follows-refl _;
  hget_lem = λ key name. Follows-refl _;
  hgetall_lem = λ key. Follows-refl _;
  del_lem = λ key. Follows-refl _;
  sadd_lem = λ key id. Follows-refl _;
  srem_lem = λ key id. Follows-refl _;
  smembers_lem =
      λ key db h. (sym (ap (λ p. p.0) h), λ id. sym (ap (λ p. has id (answer [] p.1)) h));
  persist_lem = λ key. Follows-refl _;
  expire_lem = λ key seconds. Follows-refl _;
  get_lem = λ key. Follows-refl _;
  set_nx_ex_lem = λ key value seconds. Follows-refl _;
  hmget_lem = λ key a b c. Follows-refl _;
  incr_lem = λ key. Follows-refl _;
}

abbrev pub empty : Db
empty = record { hash = λ key. []; members = λ key. []; text = λ key. none; expiry = λ key. none }

abbrev pub nobody : Statuses
nobody id = none

abbrev pub take : SessionRecord Str
take = record {
  session_id = codes "s1";
  mode = manual;
  status = active;
  os_type = codes "LINUX";
  os_version = codes "24.04";
  os_architecture = codes "x86_64";
  os_environment_id = codes "env";
  capture_server_id = codes "cc";
  actuation_server_id = codes "ac";
  reasoning_model_id = some (codes "model");
  memory_name = codes "take";
  memory_path = codes "memories/take";
  ma_core_addr = [];
  created_at = codes "2026-01-01";
  updated_at = codes "2026-01-01";
  total_steps = 3;
  annotated_steps = 0;
  skipped_steps = 0;
  tenant_id = codes "acme-1";
  model_provider = [];
  model_endpoint = [];
  model_api_key_ref = [];
  context_window_steps = 5;
  fallback_model_provider = [];
  fallback_model_endpoint = [];
  fallback_api_key_ref = [];
  storage_backend = codes "fast";
  capture_server_addr = [];
  the_eyes_addr = [];
}

no_sets :
    (s : SessionStatus) (id : Str)
    → listed (index_set s) id (λ key. []) ≡ same_set (index_set s) none
unfolding index_set has
no_sets active id = refl
no_sets pending_annotation id = refl
no_sets pending_human_annotation id = refl
no_sets annotating id = refl
no_sets pending_compilation id = refl
no_sets reasoning_degraded id = refl
no_sets complete id = refl
no_sets incomplete id = refl

pub empty-Implements : Implements empty nobody
unfolding field index_set
empty-Implements = record { held = λ id. refl; indexed = λ s id. no_sets s id }

abbrev calls : List (Call Str)
calls =
    registration take
    ∷ status_update (codes "2026-01-02") (codes "s1") incomplete
    ∷ status_update (codes "2026-01-03") (codes "s2") annotating
    ∷ path_update (codes "2026-01-03") (codes "s1") (codes "memories/take (incomplete)")
    ∷ deletion (codes "s2") none
    ∷ []

called : run store clock same calls empty ≡ ((run store clock same calls empty).0, ok tt)
unfolding run call register store present hset add_to_indexes sadd_to index_set sadd update_status
    srem_from field str_eq session_key put_fields to_redis_pairs del drop_key expire expire_in has
    incr insert persist put_field remove set_absent srem mode_index_key model_pair os_index_key
    parse_status show_mode show_status ttl_seconds apply_ttl as_i64 clear_ttl delete_session
    other_sets set_ttl srem_all update_annotation_counters update_memory_path
called = refl

run-Implements_example :
    Implements (run store clock same calls empty).0 (specified_all calls nobody)
run-Implements_example =
    run-Implements store store-Documented clock same calls empty nobody empty-Implements called

pub registered-take :
    register store clock same take empty ≡ (registered clock same take empty, ok tt)
unfolding present
registered-take = register-store clock same take empty refl

get-register_example :
    (get store clock (codes "s1") (registered clock same take empty)
      ≡ (registered clock same take empty, ok take))
    × (register store clock same take (registered clock same take empty)
        ≡ (registered clock same take empty, err already_exists))
get-register_example =
    get-register store store-Documented clock same take empty (omega arith) registered-take
