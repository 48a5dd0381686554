-- ===== src/Registry/Calls.antt =====
-- Sequences of calls of the registry's methods that write (ma-core/src/registry/mod.rs), with what
-- each asks for on the statuses of sessions alone.
use memory_archive.Prelude.{ℕ, Option, none, some, List, [], ◌∷◌}
use memory_archive.Text.{Str}
use memory_archive.Registry.Schema.{SessionStatus, Chrono, SessionRecord}
use memory_archive.Registry.Redis.{Op, ◌>>=◌, ◌>>◌, return, Redis}
use memory_archive.Registry.Sessions.{
  update_status, update_memory_path, update_annotation_counters, delete_session, register,
}
use memory_archive.Registry.Coherence.{Statuses, set_status}

pub data Call (Time : Type 0) : Type 0 where
  registration : SessionRecord Time → Call Time
  status_update : (now session_id : Str) → SessionStatus → Call Time
  path_update : (now session_id new_path : Str) → Call Time
  counters_update : (now session_id : Str) (annotated skipped : ℕ) → Call Time
  deletion : Str → Option (SessionRecord Time) → Call Time

module _ (r : Redis) (c : Chrono) (up : Str → Str) where
  unfoldable pub call : Call c.Time → Op (Unit {0})
  call (registration new) = register r c up new
  call (status_update now id status) = update_status r now id status
  call (path_update now id new_path) = update_memory_path r now id new_path
  call (counters_update now id annotated skipped) =
      update_annotation_counters r now id annotated skipped
  call (deletion id known) = do there ← delete_session r up id known; return tt

  unfoldable pub run : List (Call c.Time) → Op (Unit {0})
  run [] = return tt
  run (first ∷ calls) = do call first; run calls

-- The same calls on a map from sessions to statuses.
module _ {Time : Type 0} where
  abbrev pub specified : Call Time → Statuses → Statuses
  specified (registration new) statuses = set_status new.session_id (some new.status) statuses
  specified (status_update now id status) statuses = set_status id (some status) statuses
  specified (path_update now id new_path) statuses = statuses
  specified (counters_update now id annotated skipped) statuses = statuses
  specified (deletion id known) statuses = set_status id none statuses

  abbrev pub specified_all : List (Call Time) → Statuses → Statuses
  specified_all [] statuses = statuses
  specified_all (first ∷ calls) statuses = specified_all calls (specified first statuses)
