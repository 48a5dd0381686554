-- ===== src/Registry/Script.antt =====
-- The claim of an annotator, of ma-core/src/ipc/mod.rs: the Lua script that counts the annotator's
-- claims and sets the key of a new one. Redis runs a script without any other command between its
-- own, so it is one step; the replies of its `SCAN`s are one list of keys.
use memory_archive.Prelude.{
  ltb, leb, if◌then◌else◌, ℕ, suc, Bool, false, ◌&&◌, Option, none, some, List, [], ◌∷◌, ◌++◌,
}
use memory_archive.Text.{Str}
use memory_archive.Text.Search.{starts_with}
use memory_archive.Registry.Redis.{Op, ◌>>=◌, return, Redis}
use memory_archive.Registry.Effects.{claim_key}
use memory_archive.Registry.Claims.{claim_value}

pub data ScriptReply : Type 0 where
  claimed_ok taken : ScriptReply
  limit : ℕ → ScriptReply

abbrev pub claim_ttl_secs : ℕ
claim_ttl_secs = 1800

-- `v and string.sub(v, 1, #prefix) == prefix`
abbrev pub has_prefix : Str → Option Str → Bool
has_prefix prefix none = false
has_prefix prefix (some v) = starts_with prefix v

module _ (r : Redis) where
  unfoldable pub count_held : (prefix : Str) (keys : List Str) → Op ℕ
  count_held prefix [] = return 0
  count_held prefix (key ∷ keys) = do
    v ← r.get key
    count ← count_held prefix keys
    return (if has_prefix prefix v then suc count else count)

  abbrev pub count_below : (prefix : Str) (max_c : ℕ) (keys : List Str) → Op ℕ
  count_below prefix max_c keys = if ltb 0 max_c then count_held prefix keys else return 0

  abbrev pub set_claim : (key value : Str) (ttl : ℕ) → Op ScriptReply
  set_claim key value ttl = do
    set ← r.set_nx_ex key value ttl
    return (if set then claimed_ok else taken)

  unfoldable pub claim_script :
      (key value : Str) (ttl : ℕ) (prefix : Str) (max_c : ℕ) (scanned : List Str) → Op ScriptReply
  claim_script key value ttl prefix max_c scanned = do
    count ← count_below prefix max_c scanned
    if ltb 0 max_c && leb max_c count then return (limit count) else set_claim key value ttl

  -- What `ClaimSession` asks of the script once it has the session and the annotator's limit.
  unfoldable pub claim_target :
      (target_id annotator_id claim_id : Str) (max_concurrent_claims : ℕ) (scanned : List Str)
      → Op ScriptReply
  claim_target target_id annotator_id claim_id max_concurrent_claims scanned =
      claim_script (claim_key target_id) (claim_value annotator_id claim_id) claim_ttl_secs
        (annotator_id ++ b':' ∷ []) max_concurrent_claims scanned
