-- ===== src/Stream/Watch.antt =====
-- `WatchStream::next_event` of ma-core/src/capture/stream.rs: which events of the stream reach the
-- recorder, and why the stream ends.
use memory_archive.Prelude.{
  if◌then◌else◌, is_empty, Bool, true, false, not, ◌&&◌, Option, none, some, List, [], ◌∷◌,
}
use memory_archive.Text.{Str, str_eq}
use memory_archive.Text.Trim.{trim}
use memory_archive.Event.{CommandEvent}
use memory_archive.Compat.{evaluate_agent, agent_refusal}

pub data DisconnectReason : Type 0 where
  agent_disconnected silence_timeout : DisconnectReason
  transport_error : Str → DisconnectReason
  agent_records_lossy : Str → DisconnectReason

-- What `timeout(silence_timeout, stream.message())` gives. The stream is the list of what arrives
-- in time; after its last entry nothing arrives, and the timeout elapses.
pub data Message : Type 0 where
  elapsed closed : Message
  failed : Str → Message
  arrived : CommandEvent → Message

-- `WatchStream`, less what `connect` learned
pub record WatchStream : Type 0 where
  pub disconnect_reason : Option DisconnectReason
  pub allow_unsupported : Bool
  pub checked_agent_version : Str

abbrev pub end_with : WatchStream → DisconnectReason → WatchStream
end_with ws reason = record ws { disconnect_reason = some reason }

-- the refusal of an agent version that was not evaluated before, unless it is overridden
unfoldable pub gate : WatchStream → Option Str → WatchStream × Bool
gate ws none = (ws, true)
gate ws (some message) =
    if ws.allow_unsupported then (ws, true) else (end_with ws (agent_records_lossy message), false)

-- The check of an event's agent version: the new state, and whether the stream goes on.
unfoldable pub check_agent : WatchStream → Str → WatchStream × Bool
unfolding gate
check_agent ws version =
    if not (is_empty (trim version)) && not (str_eq version ws.checked_agent_version)
    then gate (record ws { checked_agent_version = version })
        (agent_refusal (evaluate_agent version))
    else (ws, true)

-- what a call of `next_event` returns, and the messages that it has left
abbrev pub Next : Type 0
Next = WatchStream × Option CommandEvent × List Message

abbrev pub deliver : CommandEvent → List Message → Next → WatchStream × Bool → Next
deliver event rest later (ws, false) = (ws, none, rest)
deliver event rest later (ws, true) = if event.is_heartbeat then later else (ws, some event, rest)

unfoldable pub next_event : WatchStream → List Message → Next
unfolding check_agent
next_event ws [] = (end_with ws silence_timeout, none, [])
next_event ws (elapsed ∷ rest) = (end_with ws silence_timeout, none, rest)
next_event ws (failed status ∷ rest) = (end_with ws (transport_error status), none, rest)
next_event ws (closed ∷ rest) = (end_with ws agent_disconnected, none, rest)
next_event ws (arrived event ∷ rest) =
    let checked = check_agent ws event.agent_version in
    let later = next_event checked.0 rest in deliver event rest later checked
