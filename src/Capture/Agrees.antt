-- ===== src/Capture/Agrees.antt =====
-- The status of a session that the watch loop of ma-core/src/capture/mod.rs leaves in the registry
-- and in the metadata.
use memory_archive.Prelude.{
  if◌then◌else◌, Bool-cases, ◌≡◌, refl, ap, ◌∙◌, inl, inr, Bool, true, false, Option, none, some,
}
use memory_archive.Stream.Watch.{DisconnectReason}
use memory_archive.Text.{Str, codes}
use memory_archive.State
use memory_archive.State.{CaptureState}
use memory_archive.SessionDir.{mark_incomplete}
use memory_archive.Registry.Schema.{
  SessionStatus, pending_annotation, pending_human_annotation, incomplete, session_key,
}
use memory_archive.Registry.Redis.{Db}
use memory_archive.Registry.Redis.Reference.{hset, store}
use memory_archive.Registry.Sessions.{update_memory_path}
use memory_archive.Registry.Coherence.{Statuses, set_status, Implements, status_updated-Implements}
use memory_archive.Registry.Effects.{update_status-store}
use memory_archive.Registry.Refines.{fields_kept, path_fields-status}
use memory_archive.Capture.{Settings, Loop, is_cloud_primary, emit_file_written}
use memory_archive.Capture.Ending.{
  Ended, done, disconnected, Outside, flush_now, set_registry_status, next_status, finish_done,
  marked_file, moved, handle, interrupted, reason_or_liveness, finish,
}

-- The status of a session by how its capture ended, in the registry and in the metadata.
abbrev pub registry_status : Outside → Ended → SessionStatus
registry_status o done = if o.was_degraded then pending_human_annotation else pending_annotation
registry_status o (disconnected reason) = incomplete

abbrev pub metadata_status : Ended → Str
metadata_status done = codes "complete"
metadata_status (disconnected reason) = codes "incomplete"

abbrev pub status_of_file : Option CaptureState → Option Str
status_of_file none = none
status_of_file (some s) = some s.status

emit-metadata_file :
    (rel : Str) (l : Loop) → (emit_file_written rel l).metadata_file ≡ l.metadata_file
unfolding emit_file_written
emit-metadata_file rel l = elim (Bool-cases (is_cloud_primary l)) [
  | inl e ↦ rw e refl
  | inr e ↦ rw e refl
]

if_true-file :
    (b : Bool) (m n : Loop) → b ≡ true → (if b then m else n).metadata_file ≡ m.metadata_file
if_true-file true m n h = refl
if_true-file false m n h = cc

if_false-file :
    (b : Bool) (m n : Loop) → b ≡ false → (if b then m else n).metadata_file ≡ n.metadata_file
if_false-file true m n h = cc
if_false-file false m n h = refl

flush_now-file :
    (set : Settings) (o : Outside)
    → o.flushes ≡ true
    → (m : Loop) → (flush_now store set o m).metadata_file ≡ some m.state
unfolding flush_now
flush_now-file set o h m = if_true-file o.flushes _ _ h

rewritten :
    (b : Bool) (s : CaptureState)
    → b ≡ true
    → status_of_file (if b then some (State.mark_incomplete s) else some s)
      ≡ some (codes "incomplete")
unfolding State.mark_incomplete
rewritten true s h = refl
rewritten false s h = cc

module _ (set : Settings) (o : Outside) (l : Loop) (db : Db) where
  set_registry_status-Implements :
      (status : SessionStatus) (statuses : Statuses)
      → Implements db statuses
      → Implements
          (set_registry_status store set o status db)
          (set_status set.session_id (some status) statuses)
  unfolding set_registry_status
  set_registry_status-Implements status statuses h =
      rw (update_status-store o.now set.session_id status db)
        (status_updated-Implements o.now set.session_id status db statuses h)

moved-Implements :
    (set : Settings) (o : Outside) (new_dir : Option Str) (db : Db) (statuses : Statuses)
    → Implements db statuses
    → Implements (moved store set o new_dir db) statuses
unfolding update_memory_path store hset
moved-Implements set o none db statuses h = h
moved-Implements set o (some new_dir) db statuses h =
    fields_kept set.session_id _ db statuses
      (path_fields-status o.now new_dir (db.hash (session_key set.session_id))) h

module _ (set : Settings) (o : Outside) (db : Db) (statuses : Statuses)
    (h : Implements db statuses) where
  handle-Implements :
      (cloud : Bool) (reason : Option DisconnectReason) (l : Loop)
      → Implements
          (handle store set o cloud (reason_or_liveness reason) l db).1
          (set_status set.session_id (some incomplete) statuses)
  unfolding handle
  handle-Implements true reason l = set_registry_status-Implements set o l db incomplete statuses h
  handle-Implements false reason l =
      moved-Implements set o (mark_incomplete o.paths o.memory_dir) _ _
        (set_registry_status-Implements set o l db incomplete statuses h)

  finish-Implements :
      (ended : Ended) (l : Loop)
      → Implements
          (finish store set o ended l db).1
          (set_status set.session_id (some (registry_status o ended)) statuses)
  unfolding finish finish_done next_status
  finish-Implements done l = set_registry_status-Implements set o l db _ statuses h
  finish-Implements (disconnected reason) l = handle-Implements (is_cloud_primary l) reason _

module _ (set : Settings) (o : Outside) (db : Db) (flushes : o.flushes ≡ true)
    (rewrites : o.rewrites ≡ true) where
  handle-file :
      (reason : Option DisconnectReason) (l : Loop) (cloud : Bool) {s : CaptureState}
      → l.metadata_file ≡ some s
      → is_cloud_primary l ≡ cloud
      → status_of_file
          (handle store set o cloud
            (reason_or_liveness reason)
            (interrupted store set o l)
            db).0.metadata_file
        ≡ some (codes "incomplete")
  unfolding handle interrupted State.set_in_progress State.mark_incomplete
  handle-file reason l true file cloud =
      ap status_of_file
        (if_true-file (is_cloud_primary l) _ _ cloud ∙ flush_now-file set o flushes _)
  handle-file reason l false file cloud =
      ap (λ f. status_of_file (marked_file store set o f))
        (if_false-file (is_cloud_primary l) _ l cloud ∙ file)
      ∙ rewritten o.rewrites _ rewrites

  finish-file :
      (ended : Ended) (l : Loop) {s : CaptureState}
      → l.metadata_file ≡ some s
      → status_of_file (finish store set o ended l db).0.metadata_file
        ≡ some (metadata_status ended)
  unfolding finish finish_done State.mark_complete State.clear_in_progress
  finish-file done l file = ap status_of_file (
      if_true-file o.flushes _ _ flushes
      ∙ emit-metadata_file (codes "metadata.json") _
      ∙ flush_now-file set o flushes _)
  finish-file (disconnected reason) l file = handle-file reason l (is_cloud_primary l) file refl

-- On a database that does as Redis documents, where no command fails, and where every write of the
-- metadata succeeds: however a capture ends, the registry holds the status of that ending for the
-- session and goes on to hold the statuses of all others, with the session in the index set of its
-- new status and in no other one, and the metadata names the same ending.
pub finish-agrees :
    (set : Settings) (o : Outside) (ended : Ended) (l : Loop) (db : Db) (statuses : Statuses)
    {s : CaptureState}
    → Implements db statuses
    → o.flushes ≡ true
    → o.rewrites ≡ true
    → l.metadata_file ≡ some s
    → Implements
        (finish store set o ended l db).1
        (set_status set.session_id (some (registry_status o ended)) statuses)
      × (status_of_file (finish store set o ended l db).0.metadata_file
          ≡ some (metadata_status ended))
finish-agrees set o ended l db statuses h flushes rewrites file = (
  finish-Implements set o db statuses h ended l,
  finish-file set o db flushes rewrites ended l file,
)
