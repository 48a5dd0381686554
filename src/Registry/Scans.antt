-- ===== src/Registry/Scans.antt =====
-- The methods of ma-core/src/registry/mod.rs that go through all keys with `SCAN`. The replies of
-- one call's `SCAN`s, up to the one with the cursor 0, are a list; `none` is a `SCAN` that failed.
use memory_archive.Prelude.Result.{Result, ok, err}
use memory_archive.Prelude.{
  if◌then◌else◌, is_empty, ℕ, ◌+◌, ◌%◌, ◌^◌, String, Bool, false, Option, none, some, List, [], ◌∷◌,
  ◌++◌,
}
use memory_archive.Text.{Str, codes, str_eq}
use memory_archive.Text.Search.{starts_with}
use memory_archive.Registry.Schema.{Chrono, Fields, field}
use memory_archive.Registry.Redis.{Db, Failure, command_failed, Op, ◌>>=◌, return, fail, Redis}

abbrev pub Scan : Type 0
Scan = List (Option (List Str))

abbrev pub is_text : Option Str → String → Bool
is_text none literal = false
is_text (some s) literal = str_eq s (codes literal)

abbrev pub dated_before : (c : Chrono) → c.Time → Option c.Time → Bool
dated_before c cutoff none = false
dated_before c cutoff (some updated_at) = c.before updated_at cutoff

abbrev pub read_time : (c : Chrono) → Option Str → Option c.Time
read_time c none = none
read_time c (some s) = c.parse_from_rfc3339 s

abbrev pub some_text : Option Str → Option Str
some_text none = none
some_text (some s) = if is_empty s then none else some s

-- The session id of a hash that the retention sweep may delete.
unfoldable pub expired_id : (c : Chrono) (cutoff : c.Time) → Fields → Option Str
expired_id c cutoff fields =
    if is_text (field (codes "status") fields) "incomplete"
    then if dated_before c cutoff (read_time c (field (codes "updated_at") fields))
      then some_text (field (codes "session_id") fields)
      else none
    else none

abbrev pub push_some : List Str → Option Str → List Str
push_some ids none = ids
push_some ids (some id) = ids ++ id ∷ []

abbrev pub or_value_of : {A : Type 0} → A → Db × Result Failure A → Db × Result Failure A
or_value_of other (db, ok a) = (db, ok a)
or_value_of other (db, err e) = (db, ok other)

-- A command whose error is dropped.
abbrev pub or_value : {A : Type 0} → A → Op A → Op A
or_value other m db = or_value_of other (m db)

abbrev pub counted : Str → Option Str → ℕ → ℕ
counted prefix none count = count
counted prefix (some v) count = if starts_with prefix v then (count + 1) % 2 ^ 32 else count

-- The keys of all replies.
unfoldable pub scanned : Scan → Op (List Str)
scanned [] = return []
scanned (none ∷ scan) = fail command_failed
scanned (some keys ∷ scan) = do rest ← scanned scan; return (keys ++ rest)

module _ (r : Redis) where
  module _ (c : Chrono) (cutoff : c.Time) where
    unfoldable pub sweep_keys : List Str → List Str → Op (List Str)
    sweep_keys [] expired = return expired
    sweep_keys (key ∷ keys) expired = do
      fields ← r.hgetall key
      sweep_keys keys (push_some expired (expired_id c cutoff fields))

    unfoldable pub sweep : Scan → List Str → Op (List Str)
    sweep [] expired = return expired
    sweep (none ∷ scan) expired = fail command_failed
    sweep (some keys ∷ scan) expired = sweep_keys keys expired >>= sweep scan

    unfoldable pub list_incomplete_before : Scan → Op (List Str)
    list_incomplete_before scan = sweep scan []

  unfoldable pub count_keys : (prefix : Str) → List Str → ℕ → Op ℕ
  count_keys prefix [] count = return count
  count_keys prefix (key ∷ keys) count = do
    val ← or_value none (r.get key)
    count_keys prefix keys (counted prefix val count)

  unfoldable pub count_claims : (prefix : Str) → Scan → ℕ → Op ℕ
  count_claims prefix [] count = return count
  count_claims prefix (none ∷ scan) count = fail command_failed
  count_claims prefix (some keys ∷ scan) count =
      count_keys prefix keys count >>= count_claims prefix scan

  unfoldable pub count_annotator_claims : Str → Scan → Op ℕ
  count_annotator_claims annotator_id scan = count_claims (annotator_id ++ codes ":") scan 0
