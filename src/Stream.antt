-- ===== src/Stream.antt =====
-- ma-core/src/capture/stream.rs: how the capture stream reaches Control-Center (which transport,
-- with which trust, whether the token is sent) and which of its events the recorder is given.
-- tonic's channel is the parameter `Wire`; the texts of transport errors are named by their place.
pub mod Connect
pub mod Watch
pub mod Sends
pub mod Channels
pub mod Credentials
pub mod Downgrade
pub mod Version
pub mod Backoff
pub mod Fidelity
use memory_archive.Prelude.{
  if◌then◌else◌, unwrap_or, is_empty, Bool, true, false, not, ◌&&◌, Option, none, some, List, [],
  ◌∷◌, ◌++◌,
}
use memory_archive.Prelude.Result.{Result, ok, err}
use memory_archive.Text.{Str, codes, strip_prefix}
use memory_archive.Compat.{Compat, parse, evaluate, refusal, recorded}

-- `CcSecurity` of config/mod.rs
pub data CcSecurity : Type 0 where
  auto strict legacy : CcSecurity

pub data Transport : Type 0 where
  tls plaintext : Transport

unfoldable pub transport_plan : CcSecurity → List Transport
transport_plan auto = tls ∷ plaintext ∷ []
transport_plan strict = tls ∷ []
transport_plan legacy = plaintext ∷ []

scheme : Transport → Str
scheme tls = codes "https://"
scheme plaintext = codes "http://"

abbrev or_else : Option Str → Option Str → Option Str
or_else none b = b
or_else (some a) b = some a

-- the address without the scheme that it may carry
bare_addr : Str → Str
bare_addr addr =
    unwrap_or addr
      (or_else (strip_prefix (codes "https://") addr) (strip_prefix (codes "http://") addr))

unfoldable pub normalize_addr : Str → Transport → Str
unfolding scheme bare_addr
normalize_addr addr t = scheme t ++ bare_addr addr

pub record CcEndpoint : Type 0 where
  pub addr : Str
  pub tls_ca : Str
  pub token : Str
  pub security : CcSecurity
  pub max_version : Str
  pub allow_unsupported : Bool

-- where an attempt failed before the server could refuse anything
pub data TransportError : Type 0 where
  invalid_address ca_unreadable tls_config unreachable invalid_token watch_refused no_transport :
      TransportError

pub data ConnectFailure : Type 0 where
  transport : TransportError → ConnectFailure
  auth : ConnectFailure
  unsupported : Str → ConnectFailure

-- the certificates that a TLS channel accepts
pub data Trust : Type 0 where
  no_tls enabled_roots : Trust
  ca_certificate : Str → Trust

-- the two classes of gRPC status that `watch_commands` is refused with
pub data Code : Type 0 where
  credentials other : Code

-- tonic, the file system and the server, as one attempt meets them
pub record Wire (S : Type 0) : Type 0 where
  pub from_shared : Str → Bool
  pub read : Str → Option Str
  pub accepts_config : Trust → Bool
  pub dial : Str → Trust → Bool
  pub is_header_value : Str → Bool
  pub get_server_identity : Option Str → Option Str
  pub watch_commands : Option Str → Result Code S

-- tonic's channel: the URI that it was opened for, whose scheme decides about TLS, and its trust.
pub record Channel : Type 0 where
  pub uri : Str
  pub trust : Trust

-- What leaves this process: a connection, and the requests with their bearer token, each over the
-- channel that its client was made with.
pub data Sent : Type 0 where
  opened : Channel → Sent
  asked_identity : Channel → Option Str → Sent
  asked_watch : Channel → Option Str → Sent

-- An attempt with the record of what it sent.
abbrev pub Attempt : Type 0 → Type 0
Attempt A = List Sent × Result ConnectFailure A

infixl 10 ◌>>=◌ ◌>>◌
unfoldable pub ◌>>=◌ : {A B : Type 0} → Attempt A → (A → Attempt B) → Attempt B
◌>>=◌ (sent, ok a) f = let (later, r) = f a in (sent ++ later, r)
◌>>=◌ (sent, err e) f = (sent, err e)

abbrev pub ◌>>◌ : {B : Type 0} → Attempt (Unit {0}) → Attempt B → Attempt B
m >> k = m >>= λ _. k

abbrev pub pure : {A : Type 0} → A → Attempt A
pure a = ([], ok a)

abbrev pub fail : {A : Type 0} → ConnectFailure → Attempt A
fail e = ([], err e)

abbrev pub ensure : Bool → TransportError → Attempt (Unit {0})
ensure true e = pure tt
ensure false e = fail (transport e)

abbrev pub send : Sent → Attempt (Unit {0})
send s = (s ∷ [], ok tt)

-- `transport == Tls || cc.security == Legacy`
unfoldable pub credentials_allowed : CcSecurity → Transport → Bool
credentials_allowed security tls = true
credentials_allowed legacy plaintext = true
credentials_allowed auto plaintext = false
credentials_allowed strict plaintext = false

module _ {S : Type 0} (wire : Wire S) (cc : CcEndpoint) where
  open wire use {
    from_shared, read, accepts_config, dial, is_header_value, get_server_identity, watch_commands,
  }

  abbrev read_ca : Option Str → Attempt Trust
  read_ca none = fail (transport ca_unreadable)
  read_ca (some pem) = pure (ca_certificate pem)

  -- A configured CA is an exclusive pin.
  pub choose_trust : Transport → Attempt Trust
  choose_trust plaintext = pure no_tls
  choose_trust tls = if is_empty cc.tls_ca then pure enabled_roots else read_ca (read cc.tls_ca)

  pub bearer : Bool → Option Str
  bearer allowed =
      if allowed && not (is_empty cc.token) then some (codes "Bearer " ++ cc.token) else none

  -- `if let Ok(value) = …parse()`: a token that is no header value is left out
  header_or_none : Option Str → Option Str
  header_or_none none = none
  header_or_none (some value) = if is_header_value value then some value else none

  -- A refusal ends the attempt unless the operator overrides it.
  pub pass_gate : Compat → Option Str → Attempt Str
  pass_gate verdict none = pure (recorded verdict)
  pass_gate verdict (some message) =
      if cc.allow_unsupported then pure (recorded verdict) else fail (unsupported message)

  unfoldable pub check_version : Channel → Bool → Attempt Str
  unfolding bearer header_or_none pass_gate
  check_version channel allowed = do
    let token = header_or_none (bearer allowed)
    send (asked_identity channel token)
    let verdict = evaluate (unwrap_or [] (get_server_identity token)) (parse cc.max_version)
    pass_gate verdict (refusal verdict)

  pub require_value : Option Str → Attempt (Option Str)
  require_value none = pure none
  require_value (some value) = do ensure (is_header_value value) invalid_token; pure (some value)

  -- the token of the watch request; over TLS and under `legacy` it must be a header value
  pub watch_token : Bool → Attempt (Option Str)
  unfolding require_value
  watch_token allowed = require_value (bearer allowed)

  pub subscribed : Result Code S → Attempt S
  subscribed (ok s) = pure s
  subscribed (err credentials) = fail auth
  subscribed (err other) = fail (transport watch_refused)

  unfoldable pub try_connect : Transport → Attempt (S × Str)
  unfolding choose_trust watch_token subscribed
  try_connect t = do
    let uri = normalize_addr cc.addr t
    ensure (from_shared uri) invalid_address
    trust ← choose_trust t
    ensure (accepts_config trust) tls_config
    let channel : Channel = record { uri = uri; trust = trust }
    send (opened channel)
    ensure (dial uri trust) unreachable
    let allowed = credentials_allowed cc.security t
    server_version ← check_version channel allowed
    token ← watch_token allowed
    send (asked_watch channel token)
    stream ← subscribed (watch_commands token)
    pure (stream, server_version)
