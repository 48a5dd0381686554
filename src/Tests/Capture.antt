-- ===== src/Tests/Capture.antt =====
-- Inputs for the capture stream: a Control-Center 1.0.0, which has no TLS and no identity, and a
-- server that cannot be reached.
use memory_archive.Text.Decimal.{parse_u32}
use memory_archive.Prelude.{
  length, All, pos, ℕ, ◌≤◌, ◌<◌, ◌≡◌, refl, ◌⊎◌, inl, Bool, true, false, none, some, List, [], ◌∷◌,
  map, arith,
}
use memory_archive.Prelude.Result.{ok, err}
use memory_archive.Text.{Str, codes, str_eq, is_whitespace, strip_prefix, split_char, take_until}
use memory_archive.Text.Trim.{trim}
use memory_archive.Event.{CommandEvent}
use memory_archive.Compat.{
  lt_version, parse, ceiling, evaluate, refusal, recorded, evaluate_agent, agent_refusal,
}
use memory_archive.Stream.{
  unreachable, CcSecurity, auto, legacy, tls, plaintext, transport_plan, normalize_addr, CcEndpoint,
  TransportError, transport, Trust, no_tls, Wire, ◌>>=◌, credentials_allowed, check_version,
  try_connect,
}
use memory_archive.Stream.Connect.{is_fatal, negotiate, delay_ms, connect_from, connect}
use memory_archive.Stream.Watch.{Message, arrived, WatchStream, gate, check_agent, next_event}
use memory_archive.Stream.Channels.{Following}
use memory_archive.Stream.Credentials.{MaySend, connect-MaySend}
use memory_archive.Stream.Downgrade.{negotiate_in_clear}
use memory_archive.Stream.Version.{Recordable, negotiate-Recordable}
use memory_archive.Stream.Backoff.{connect_pauses, slept, connect_tries}
use memory_archive.Stream.Fidelity.{Promise, next_event-Promise}

abbrev only_in_clear : Str → Trust → Bool
only_in_clear uri no_tls = true
only_in_clear uri _ = false

-- Its stream is the number 7.
abbrev old_server : Wire ℕ
old_server = record {
  from_shared = λ uri. true;
  read = λ path. none;
  accepts_config = λ trust. true;
  dial = only_in_clear;
  is_header_value = λ value. true;
  get_server_identity = λ token. none;
  watch_commands = λ token. ok 7;
}

abbrev unreachable_server : Wire ℕ
unreachable_server = record old_server { dial = λ uri trust. false }

abbrev endpoint : CcEndpoint
endpoint = record {
  addr = codes "http://cc:50051";
  tls_ca = [];
  token = codes "secret";
  security = auto;
  max_version = [];
  allow_unsupported = false;
}

downgraded : (negotiate old_server endpoint).1 ≡ ok (7, plaintext, [])
unfolding negotiate is_fatal transport_plan try_connect check_version credentials_allowed
    normalize_addr ◌>>=◌ evaluate refusal recorded ceiling lt_version parse trim split_char
    take_until strip_prefix parse_u32
downgraded = refl

connect-MaySend_example :
    All
      (λ t. All (MaySend endpoint) t.sent × Following none t.sent)
      (connect (λ n. old_server) endpoint).0
connect-MaySend_example = connect-MaySend (λ n. old_server) endpoint

negotiate_in_clear_example :
    ◌≡◌ {A = CcSecurity} auto legacy
    ⊎ (◌≡◌ {A = CcSecurity} auto auto
        × ((e : TransportError) × ((try_connect old_server endpoint tls).1 ≡ err (transport e))))
negotiate_in_clear_example = negotiate_in_clear old_server endpoint 7 [] downgraded

negotiate-Recordable_example : Recordable old_server endpoint []
negotiate-Recordable_example =
    negotiate-Recordable old_server endpoint 7 plaintext [] refl downgraded

connect_tries_example :
    (connect_from (λ n. old_server) endpoint 17 1 ≡ connect (λ n. old_server) endpoint)
    × (0 < length (connect (λ n. old_server) endpoint).0)
    × (length (connect (λ n. old_server) endpoint).0 ≤ 10)
connect_tries_example = connect_tries (λ n. old_server) endpoint 17 (omega arith)

gives_up : (connect (λ n. unreachable_server) endpoint).1 ≡ err (transport unreachable)
unfolding connect delay_ms negotiate is_fatal transport_plan try_connect normalize_addr ◌>>=◌
    strip_prefix
gives_up = refl

connect_pauses_example :
    map slept (connect (λ n. unreachable_server) endpoint).0
    ≡ some 500
      ∷ some 1000
      ∷ some 2000
      ∷ some 4000
      ∷ some 8000
      ∷ some 16000
      ∷ some 30000
      ∷ some 30000
      ∷ some 30000
      ∷ none
      ∷ []
connect_pauses_example = connect_pauses (λ n. unreachable_server) endpoint unreachable gives_up

abbrev click : CommandEvent
click = record {
  agent_version = codes "1.3.0";
  os_type = codes "LINUX";
  timestamp = codes "2026-02-25T12:58:04.286Z";
  raw_command = codes "Left-clicked at X=960, Y=540";
  action_type = codes "mouse";
  action_subtype = codes "left";
  success = true;
  mouse_x = pos 960;
  mouse_y = pos 540;
  position_captured = true;
  is_heartbeat = false;
}

abbrev fresh : WatchStream
fresh = record { disconnect_reason = none; allow_unsupported = false; checked_agent_version = [] }

abbrev messages : List Message
messages =
    arrived (record click { is_heartbeat = true })
    ∷ arrived click
    ∷ arrived (record click { agent_version = codes "1.2.1" })
    ∷ []

next_event-Promise_example : Promise (next_event fresh messages)
next_event-Promise_example = next_event-Promise fresh messages (refl, inl refl)

-- The heartbeat is passed over, and the click is returned.
next_event_runs : (next_event fresh messages).1 ≡ some click
unfolding next_event check_agent gate evaluate_agent agent_refusal lt_version parse trim split_char
    take_until strip_prefix parse_u32 str_eq is_whitespace
next_event_runs = refl
