-- ===== src/Registry/Schema.antt =====
-- ma-core/src/registry/schema.rs: a session's record and the fields of the Redis hash that hold
-- it. The timestamps are chrono's, a parameter.
use memory_archive.Prelude.{
  if◌then◌else◌, unwrap_or, ℕ, String, ◌≡◌, refl, Bool, Option, none, some, List, [], ◌∷◌, ◌++◌,
  map,
}
use memory_archive.Prelude.Options.{◌>>=◌}
use memory_archive.Text.{Str, codes, str_eq}
use memory_archive.Text.Decimal.{show_nat, parse_u32}

pub data SessionStatus : Type 0 where
  active : SessionStatus
  pending_annotation : SessionStatus
  pending_human_annotation : SessionStatus
  annotating : SessionStatus
  pending_compilation : SessionStatus
  reasoning_degraded : SessionStatus
  complete : SessionStatus
  incomplete : SessionStatus

-- No status expires.
unfoldable pub ttl_seconds : SessionStatus → Option ℕ
ttl_seconds active = none
ttl_seconds annotating = none
ttl_seconds pending_compilation = none
ttl_seconds pending_annotation = none
ttl_seconds pending_human_annotation = none
ttl_seconds reasoning_degraded = none
ttl_seconds complete = none
ttl_seconds incomplete = none

unfoldable pub index_set : SessionStatus → Option Str
index_set active = some (codes "sessions:active")
index_set pending_annotation = some (codes "sessions:pending")
index_set pending_human_annotation = some (codes "sessions:pending_human_annotation")
index_set annotating = some (codes "sessions:annotating")
index_set pending_compilation = some (codes "sessions:pending_compilation")
index_set reasoning_degraded = some (codes "sessions:reasoning_degraded")
index_set _ = none

-- `Display` and `FromStr`, which go through serde's names in snake case
unfoldable pub show_status : SessionStatus → Str
show_status active = codes "active"
show_status pending_annotation = codes "pending_annotation"
show_status pending_human_annotation = codes "pending_human_annotation"
show_status annotating = codes "annotating"
show_status pending_compilation = codes "pending_compilation"
show_status reasoning_degraded = codes "reasoning_degraded"
show_status complete = codes "complete"
show_status incomplete = codes "incomplete"

unfoldable pub parse_status : Str → Option SessionStatus
parse_status s =
    if str_eq s (codes "active")
    then some active
    else if str_eq s (codes "pending_annotation")
    then some pending_annotation
    else if str_eq s (codes "pending_human_annotation")
    then some pending_human_annotation
    else if str_eq s (codes "annotating")
    then some annotating
    else if str_eq s (codes "pending_compilation")
    then some pending_compilation
    else if str_eq s (codes "reasoning_degraded")
    then some reasoning_degraded
    else if str_eq s (codes "complete")
    then some complete
    else if str_eq s (codes "incomplete")
    then some incomplete
    else none

pub data SessionMode : Type 0 where
  manual : SessionMode
  automated : SessionMode

unfoldable pub show_mode : SessionMode → Str
show_mode manual = codes "manual"
show_mode automated = codes "automated"

unfoldable pub parse_mode : Str → Option SessionMode
parse_mode s =
    if str_eq s (codes "manual")
    then some manual
    else if str_eq s (codes "automated")
    then some automated
    else none

pub parse_status-show_status : (s : SessionStatus) → parse_status (show_status s) ≡ some s
unfolding parse_status show_status str_eq
parse_status-show_status active = refl
parse_status-show_status pending_annotation = refl
parse_status-show_status pending_human_annotation = refl
parse_status-show_status annotating = refl
parse_status-show_status pending_compilation = refl
parse_status-show_status reasoning_degraded = refl
parse_status-show_status complete = refl
parse_status-show_status incomplete = refl

pub parse_mode-show_mode : (m : SessionMode) → parse_mode (show_mode m) ≡ some m
unfolding parse_mode show_mode str_eq
parse_mode-show_mode manual = refl
parse_mode-show_mode automated = refl

-- What the registry uses of chrono: a printed time is read back as the same time.
pub record Chrono : Type 1 where
  pub Time : Type 0
  pub to_rfc3339 : Time → Str
  pub parse_time : Str → Option Time
  pub parse_from_rfc3339 : Str → Option Time
  pub before : Time → Time → Bool
  pub parse-to_rfc3339 : (t : Time) → parse_time (to_rfc3339 t) ≡ some t

pub record SessionRecord (Time : Type 0) : Type 0 where
  pub session_id : Str
  pub mode : SessionMode
  pub status : SessionStatus
  pub os_type : Str
  pub os_version : Str
  pub os_architecture : Str
  pub os_environment_id : Str
  pub capture_server_id : Str
  pub actuation_server_id : Str
  pub reasoning_model_id : Option Str
  pub memory_name : Str
  pub memory_path : Str
  pub ma_core_addr : Str
  pub created_at : Time
  pub updated_at : Time
  pub total_steps : ℕ
  pub annotated_steps : ℕ
  pub skipped_steps : ℕ
  pub tenant_id : Str
  pub model_provider : Str
  pub model_endpoint : Str
  pub model_api_key_ref : Str
  pub context_window_steps : ℕ
  pub fallback_model_provider : Str
  pub fallback_model_endpoint : Str
  pub fallback_api_key_ref : Str
  pub storage_backend : Str
  pub capture_server_addr : Str
  pub the_eyes_addr : Str

-- the fields of a hash, with their values
abbrev pub Fields : Type 0
Fields = List (Str × Str)

unfoldable pub field : Str → Fields → Option Str
field name [] = none
field name ((other, value) ∷ rest) =
    let later = field name rest in if str_eq name other then some value else later

unfoldable pub model_pair : Option Str → Fields
model_pair none = []
model_pair (some model_id) = (codes "reasoning_model_id", model_id) ∷ []

-- `map.get(key).cloned().unwrap_or_default()`
abbrev pub or_default : Option Str → Str
or_default s = unwrap_or [] s

module _ (c : Chrono) where
  open c use {Time, to_rfc3339, parse_time, parse-to_rfc3339}

  unfoldable pub to_redis_pairs : SessionRecord Time → Fields
  unfolding model_pair
  to_redis_pairs r =
      (codes "session_id", r.session_id)
      ∷ (codes "mode", show_mode r.mode)
      ∷ (codes "status", show_status r.status)
      ∷ (codes "os_type", r.os_type)
      ∷ (codes "os_version", r.os_version)
      ∷ (codes "os_architecture", r.os_architecture)
      ∷ (codes "os_environment_id", r.os_environment_id)
      ∷ (codes "capture_server_id", r.capture_server_id)
      ∷ (codes "actuation_server_id", r.actuation_server_id)
      ∷ (codes "memory_name", r.memory_name)
      ∷ (codes "memory_path", r.memory_path)
      ∷ (codes "ma_core_addr", r.ma_core_addr)
      ∷ (codes "created_at", to_rfc3339 r.created_at)
      ∷ (codes "updated_at", to_rfc3339 r.updated_at)
      ∷ (codes "total_steps", show_nat r.total_steps)
      ∷ (codes "annotated_steps", show_nat r.annotated_steps)
      ∷ (codes "skipped_steps", show_nat r.skipped_steps)
      ∷ (codes "tenant_id", r.tenant_id)
      ∷ (codes "model_provider", r.model_provider)
      ∷ (codes "model_endpoint", r.model_endpoint)
      ∷ (codes "model_api_key_ref", r.model_api_key_ref)
      ∷ (codes "context_window_steps", show_nat r.context_window_steps)
      ∷ (codes "fallback_model_provider", r.fallback_model_provider)
      ∷ (codes "fallback_model_endpoint", r.fallback_model_endpoint)
      ∷ (codes "fallback_api_key_ref", r.fallback_api_key_ref)
      ∷ (codes "storage_backend", r.storage_backend)
      ∷ (codes "capture_server_addr", r.capture_server_addr)
      ∷ (codes "the_eyes_addr", r.the_eyes_addr)
      ∷ model_pair r.reasoning_model_id

  unfoldable pub from_redis_map : Fields → Option (SessionRecord Time)
  from_redis_map map = do
    let get = λ (name : String). field (codes name) map
    session_id ← get "session_id"
    mode ← get "mode" >>= parse_mode
    status ← get "status" >>= parse_status
    os_type ← get "os_type"
    os_version ← get "os_version"
    os_architecture ← get "os_architecture"
    os_environment_id ← get "os_environment_id"
    capture_server_id ← get "capture_server_id"
    actuation_server_id ← get "actuation_server_id"
    memory_name ← get "memory_name"
    memory_path ← get "memory_path"
    created_at ← get "created_at" >>= parse_time
    updated_at ← get "updated_at" >>= parse_time
    total_steps ← get "total_steps" >>= parse_u32
    annotated_steps ← get "annotated_steps" >>= parse_u32
    skipped_steps ← get "skipped_steps" >>= parse_u32
    some record {
      session_id = session_id;
      mode = mode;
      status = status;
      os_type = os_type;
      os_version = os_version;
      os_architecture = os_architecture;
      os_environment_id = os_environment_id;
      capture_server_id = capture_server_id;
      actuation_server_id = actuation_server_id;
      reasoning_model_id = get "reasoning_model_id";
      memory_name = memory_name;
      memory_path = memory_path;
      ma_core_addr = or_default (get "ma_core_addr");
      created_at = created_at;
      updated_at = updated_at;
      total_steps = total_steps;
      annotated_steps = annotated_steps;
      skipped_steps = skipped_steps;
      tenant_id = or_default (get "tenant_id");
      model_provider = or_default (get "model_provider");
      model_endpoint = or_default (get "model_endpoint");
      model_api_key_ref = or_default (get "model_api_key_ref");
      context_window_steps = unwrap_or 5 (get "context_window_steps" >>= parse_u32);
      fallback_model_provider = or_default (get "fallback_model_provider");
      fallback_model_endpoint = or_default (get "fallback_model_endpoint");
      fallback_api_key_ref = or_default (get "fallback_api_key_ref");
      storage_backend = or_default (get "storage_backend");
      capture_server_addr = or_default (get "capture_server_addr");
      the_eyes_addr = or_default (get "the_eyes_addr");
    }

unfoldable pub session_key : Str → Str
session_key session_id = codes "session:" ++ session_id

-- `to_uppercase` is the standard library's, a parameter
unfoldable pub os_index_key : (to_uppercase : Str → Str) → Str → Str
os_index_key to_uppercase os_type = codes "sessions:by_os:" ++ to_uppercase os_type

unfoldable pub mode_index_key : SessionMode → Str
mode_index_key mode = codes "sessions:by_mode:" ++ show_mode mode
