-- ===== src/Capture/Ending.antt =====
-- How the watch loop of ma-core/src/capture/mod.rs ends a session, and what
-- ma-core/src/capture/disconnect.rs does when the session was cut short.
use memory_archive.Prelude.{if◌then◌else◌, unwrap_or, Bool, Option, none, some, ◌++◌}
use memory_archive.Text.{Str, codes}
use memory_archive.Writer
use memory_archive.Writer.{World}
use memory_archive.State
use memory_archive.State.{CaptureState}
use memory_archive.Stream.Watch.{
  DisconnectReason, agent_disconnected, silence_timeout, transport_error, agent_records_lossy,
}
use memory_archive.SessionDir.{Paths, mark_incomplete}
use memory_archive.Registry.Schema.{
  SessionStatus, incomplete, pending_annotation, pending_human_annotation,
}
use memory_archive.Registry.Redis.{Db, Redis, left_in}
use memory_archive.Registry.Sessions.{update_status, update_memory_path}
use memory_archive.Capture.{
  session_disconnected, Settings, Loop, is_cloud_primary, push, emit_file_written,
}

unfoldable pub disconnect_reason_str : DisconnectReason → Str
disconnect_reason_str agent_disconnected = codes "agent disconnected"
disconnect_reason_str silence_timeout = codes "silence timeout"
disconnect_reason_str (transport_error msg) = codes "transport error: " ++ msg
disconnect_reason_str (agent_records_lossy msg) =
    codes "refused: agent does not record faithfully: " ++ msg

-- Why the loop ended: the client said so, the events ended, or The-Eyes went down, with the reason
-- that the source of events gives.
pub data Ended : Type 0 where
  done : Ended
  disconnected : Option DisconnectReason → Ended

-- What the ending meets outside: the clock, the files, the paths, whether the metadata can be
-- flushed and, on the disk, read and written again, and whether the reasoning was degraded.
pub record Outside : Type 0 where
  pub now : Str
  pub world : World
  pub paths : Paths
  pub memory_dir : Str
  pub flushes : Bool
  pub rewrites : Bool
  pub was_degraded : Bool

abbrev pub finalised_files : Bool → Loop → Loop
finalised_files finalised l =
    if finalised
    then emit_file_written (codes "commands/cc_commands.json")
        (emit_file_written (codes "commands/actuation_commands.json") l)
    else l

abbrev pub reason_or_liveness : Option DisconnectReason → DisconnectReason
reason_or_liveness reason =
    unwrap_or (transport_error (codes "The-Eyes liveness check failed")) reason

module _ (r : Redis) (set : Settings) (o : Outside) where
  -- `flush_now`
  unfoldable pub flush_now : Loop → Loop
  flush_now l =
      let reset = record l { steps_since_flush = 0 } in
      if o.flushes then record reset { metadata_file = some l.state } else reset

  -- An error of the registry is logged.
  unfoldable pub set_registry_status : SessionStatus → Db → Db
  set_registry_status status db = left_in (update_status r o.now set.session_id status db)

  unfoldable pub next_status : SessionStatus
  next_status = if o.was_degraded then pending_human_annotation else pending_annotation

  unfoldable pub finish_done : Loop → Db → Loop × Db
  finish_done l db =
      let (recorder, finalised) = Writer.finalise o.world l.recorder in
      let emitted = finalised_files finalised (record l { recorder = recorder }) in
      let complete = record emitted {
        state = State.clear_in_progress (State.mark_complete o.now emitted.state);
      } in
      let stored = flush_now complete in
      let told = if o.flushes then emit_file_written (codes "metadata.json") stored else stored in
      (told, set_registry_status next_status db)

  -- `mark_incomplete_status`, on the metadata on the disk
  abbrev pub marked_file : Option CaptureState → Option CaptureState
  marked_file none = none
  marked_file (some s) = if o.rewrites then some (State.mark_incomplete s) else some s

  abbrev pub moved : Option Str → Db → Db
  moved none db = db
  moved (some new_dir) db = left_in (update_memory_path r o.now set.session_id new_dir db)

  -- `DisconnectHandler::handle`
  unfoldable pub handle : (cloud : Bool) → DisconnectReason → Loop → Db → Loop × Db
  handle cloud reason l db =
      let updated = set_registry_status incomplete db in
      let message = session_disconnected (disconnect_reason_str reason) in
      if cloud then (push message l, updated) else (
        push message (record l { metadata_file = marked_file l.metadata_file }),
        moved (mark_incomplete o.paths o.memory_dir) updated,
      )

  unfoldable pub interrupted : Loop → Loop
  interrupted l =
      let marked = record l {
        state = State.set_in_progress (codes "interrupted") (State.mark_incomplete l.state);
      } in
      if is_cloud_primary l
      then flush_now (record marked { recorder = (Writer.finalise o.world l.recorder).0 })
      else l

  -- What the loop leaves behind its last event.
  unfoldable pub finish : Ended → Loop → Db → Loop × Db
  finish done l db = finish_done l db
  finish (disconnected reason) l db =
      handle (is_cloud_primary l) (reason_or_liveness reason) (interrupted l) db
