-- ===== src/Registry/Annotators.antt =====
-- The credentials of annotators in ma-core/src/registry/mod.rs. The random bytes, the digest and
-- the JSON library are parameters.
use memory_archive.Prelude.{
  ltb, ◌==◌, if◌then◌else◌, unwrap_or, is_empty, pos, ℕ, suc, ◌+◌, ◌-◌, ◌/◌, ◌%◌, Bool, true, false,
  ◌&&◌, ◌||◌, Option, none, some, List, [], ◌∷◌, ◌++◌, map,
}
use memory_archive.Registry.Scans.{scanned, Scan, or_value, count_annotator_claims}
use memory_archive.Text.{Str, codes}
use memory_archive.Text.Decimal.{show_nat, parse_u32}
use memory_archive.Registry.Schema.{Fields, field, or_default}
use memory_archive.Registry.Redis.{
  annotator_exists, annotator_not_found, Op, ◌>>=◌, ◌>>◌, return, fail, Redis,
}

pub record AnnotatorInfo : Type 0 where
  pub annotator_id : Str
  pub status : Str
  pub current_claims : ℕ
  pub last_auth_at : Str
  pub allowed_tenant_ids : List Str
  pub max_concurrent_claims : ℕ

abbrev pub annotator_key : Str → Str
annotator_key annotator_id = codes "annotator:" ++ annotator_id

abbrev pub failures_key : Str → Str
failures_key annotator_id = codes "annotator:" ++ annotator_id ++ codes ":auth_failures"

-- `{b:02x}`
hex_digit : ℕ → ℕ
hex_digit d = if ltb d 10 then b'0' + d else b'a' + (d - 10)

unfoldable pub hex : List ℕ → Str
unfolding hex_digit
hex [] = []
hex (b ∷ bytes) = hex_digit (b / 16) ∷ hex_digit (b % 16) ∷ hex bytes

-- What is outside of the process: the clock, the generator's 32 bytes, SHA-256 of a text in hex,
-- and serde_json on lists of texts.
pub record Secrets : Type 0 where
  pub now : Str
  pub random : List ℕ
  pub sha256_hex : Str → Str
  pub list_json : List Str → Option Str
  pub parse_list : Str → Option (List Str)

unfoldable pub annotator_fields : Secrets → Str → List Str → ℕ → Fields
annotator_fields w annotator_id allowed_tenant_ids max_concurrent_claims =
    (codes "annotator_id", annotator_id)
    ∷ (codes "key_hash", w.sha256_hex (hex w.random))
    ∷ (codes "status", codes "active")
    ∷ (codes "allowed_tenant_ids", unwrap_or (codes "[]") (w.list_json allowed_tenant_ids))
    ∷ (codes "max_concurrent_claims", show_nat max_concurrent_claims)
    ∷ (codes "created_at", w.now)
    ∷ (codes "deactivated_at", [])
    ∷ (codes "last_auth_at", [])
    ∷ []

count_char : ℕ → Str → ℕ
count_char c [] = 0
count_char c (x ∷ s) = if x == c then suc (count_char c s) else count_char c s

-- keys below an annotator's, such as the counter of failures, are left out
unfoldable pub annotator_keys : List Str → List Str
unfolding count_char
annotator_keys [] = []
annotator_keys (k ∷ keys) =
    let later = annotator_keys keys in if count_char b':' k == 1 then k ∷ later else later

abbrev pub parsed_list : Secrets → Option Str → List Str
parsed_list w none = []
parsed_list w (some s) = unwrap_or [] (w.parse_list s)

abbrev pub parsed_u32 : Option Str → ℕ
parsed_u32 none = 0
parsed_u32 (some s) = unwrap_or 0 (parse_u32 s)

unfoldable pub info : Secrets → Fields → Str → ℕ → AnnotatorInfo
info w fields annotator_id current_claims = record {
  annotator_id = annotator_id;
  status = or_default (field (codes "status") fields);
  current_claims = current_claims;
  last_auth_at = or_default (field (codes "last_auth_at") fields);
  allowed_tenant_ids = parsed_list w (field (codes "allowed_tenant_ids") fields);
  max_concurrent_claims = parsed_u32 (field (codes "max_concurrent_claims") fields);
}

-- the order of texts
unfoldable pub text_le : Str → Str → Bool
text_le [] t = true
text_le (a ∷ s) [] = false
text_le (a ∷ s) (b ∷ t) = ltb a b || (a == b && text_le s t)

insert_info : AnnotatorInfo → List AnnotatorInfo → List AnnotatorInfo
insert_info a [] = a ∷ []
insert_info a (b ∷ rest) =
    let later = insert_info a rest in
    if text_le a.annotator_id b.annotator_id then a ∷ b ∷ rest else b ∷ later

-- `sort_by`, which keeps the order of equal ones
unfoldable pub sort_by_id : List AnnotatorInfo → List AnnotatorInfo
unfolding insert_info
sort_by_id [] = []
sort_by_id (a ∷ rest) = insert_info a (sort_by_id rest)

module _ (r : Redis) where
  unfoldable pub get_annotator_fields : Str → Op (Option Fields)
  get_annotator_fields annotator_id = do
    map ← r.hgetall (annotator_key annotator_id)
    return (if is_empty map then none else some map)

  unfoldable pub update_annotator_last_auth : (now annotator_id : Str) → Op (Unit {0})
  update_annotator_last_auth now annotator_id =
      r.hset (annotator_key annotator_id) ((codes "last_auth_at", now) ∷ [])

  unfoldable pub increment_annotator_auth_failures : Str → Op ℕ
  increment_annotator_auth_failures annotator_id = do
    count ← r.incr (failures_key annotator_id)
    r.expire (failures_key annotator_id) (pos 60)
    return count

  unfoldable pub reset_annotator_auth_failures : Str → Op (Unit {0})
  reset_annotator_auth_failures annotator_id = do
    removed ← r.del (failures_key annotator_id)
    return tt

  module _ (w : Secrets) where
    unfoldable pub register_annotator : Str → List Str → ℕ → Op Str
    register_annotator annotator_id allowed_tenant_ids max_concurrent_claims = do
      exists ← r.exists (annotator_key annotator_id)
      if exists then fail annotator_exists else (do
        r.hset (annotator_key annotator_id)
            (annotator_fields w annotator_id allowed_tenant_ids max_concurrent_claims)
        return (hex w.random))

    unfoldable pub deactivate_annotator : Str → Op (Unit {0})
    deactivate_annotator annotator_id = do
      exists ← r.exists (annotator_key annotator_id)
      if exists
          then r.hset (annotator_key annotator_id)
              ((codes "status", codes "deactivated") ∷ (codes "deactivated_at", w.now) ∷ [])
          else fail annotator_not_found

    unfoldable pub rotate_annotator_key : Str → Op Str
    rotate_annotator_key annotator_id = do
      exists ← r.exists (annotator_key annotator_id)
      if exists
          then (do
            r.hset (annotator_key annotator_id)
                ((codes "key_hash", w.sha256_hex (hex w.random)) ∷ [])
            return (hex w.random))
          else fail annotator_not_found

    -- The claims of one annotator are scanned while its key is handled.
    unfoldable pub listed_annotator : (claims : Str → Scan) → Fields → Op (List AnnotatorInfo)
    listed_annotator claims fields =
        let annotator_id = or_default (field (codes "annotator_id") fields) in
        if is_empty fields || is_empty annotator_id then return [] else (do
          current_claims ← or_value 0 (count_annotator_claims r annotator_id (claims annotator_id))
          return (info w fields annotator_id current_claims ∷ []))

    unfoldable pub list_keys : (claims : Str → Scan) → List Str → Op (List AnnotatorInfo)
    list_keys claims [] = return []
    list_keys claims (key ∷ keys) = do
      fields ← r.hgetall key
      first ← listed_annotator claims fields
      rest ← list_keys claims keys
      return (first ++ rest)

    unfoldable pub list_annotators : Scan → (claims : Str → Scan) → Op (List AnnotatorInfo)
    list_annotators scan claims = do
      keys ← scanned scan
      result ← list_keys claims (annotator_keys keys)
      return (sort_by_id result)
