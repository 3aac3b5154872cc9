-- ===== src/Upstream.antt =====
-- src/secondeye/proxy/upstream.py: where an outbound connection is dialled, what is sent over it before
-- the traffic, and how its TLS is verified. A connection that fails is an error as a value, without the
-- text of the message.
pub mod Routing
use second_eye.Prelude.{
  ℕ, suc, Bool, true, false, ◌&&◌, ◌||◌, not, Option, none, some, List, [], ◌∷◌, ◌++◌, all, leb,
  ◌==◌, list_eq, nat_eq, if◌then◌else◌,
}
use second_eye.Prelude.Text.{Text, codes, decimal, starts_with}
use second_eye.Json.{Bytes}

-- Python's int; `negsuc n` is -(n + 1)
pub data ℤ : Type 0 where
  pos negsuc : ℕ → ℤ

-- `str(n)`
unfoldable pub int_text : ℤ → Text
int_text (pos n) = decimal n
int_text (negsuc n) = codes "-" ++ decimal (suc n)

-- ConfigError and ScopeConfigError of the daemon's start
pub data Checked {ℓ} (A : Type ℓ) : Type ℓ where
  accepted : A → Checked A
  config_error : Text → Checked A
  scope_error : Text → Checked A

-- UpstreamConnectionError, by the place that raises it, and any other exception
pub data UpstreamError : Type 0 where
  unreachable no_tunnel tls_failed : UpstreamError
  refused_connect : Bytes → UpstreamError
  missing_config : UpstreamError
  failure : UpstreamError

-- an UpstreamConnectionError, and no ConfigError or other exception
abbrev pub is_connection_error : UpstreamError → Bool
is_connection_error missing_config = false
is_connection_error failure = false
is_connection_error _ = true

pub data TlsContext : Type 0 where
  -- `ssl.create_default_context()`, and the same with a CA file
  system_trust : TlsContext
  ca_file : Text → TlsContext
  -- no check of the host name, and no verification
  unverified : TlsContext

-- a connection: where it was dialled, what was sent before the traffic, and its TLS with the SNI
pub record Connection : Type 0 where
  pub host : Text
  pub port : ℤ
  pub sent : Bytes
  pub tls : Option (TlsContext × Text)

pub data Connected : Type 0 where
  opened : Connection → Connected
  failed : UpstreamError → Connected

-- how a call of the network ends: with success, with an OSError, of which an SSLError is one, or with
-- another exception, as a host name that cannot be encoded raises
pub data Attempt : Type 0 where
  connects os_error other_exception : Attempt

-- How the network answers.
pub record Network : Type 0 where
  -- `asyncio.open_connection`, its TLS included
  pub open_connection : Text → ℤ → Option (TlsContext × Text) → Attempt
  -- what `readuntil` returns after CONNECT was sent, or `none` for an exception
  pub connect_reply : Bytes → Option Bytes
  pub start_tls : TlsContext → Text → Attempt

unfoldable pub validate_upstream_config : Option Text → Bool → Bool → Checked (Unit {0})
validate_upstream_config upstream_ca upstream_insecure no_upstream =
    let has_ca : Bool = elim upstream_ca [ none ↦ false | some p ↦ true ] in
    if has_ca && upstream_insecure
    then config_error (codes "--upstream-ca and --upstream-insecure are mutually exclusive")
    else if not no_upstream && (not has_ca && not upstream_insecure)
    then config_error
        (codes "one of --upstream-ca, --upstream-insecure, or --no-upstream is required")
    else accepted tt

pub record UpstreamConnector : Type 0 where
  pub upstream_host : Option Text
  pub upstream_port : Option ℤ
  pub no_upstream : Bool
  pub upstream_ca : Option Text
  pub upstream_insecure : Bool

is_missing {ℓ} : {A : Type ℓ} → Option A → Bool
is_missing none = true
is_missing (some a) = false

-- what the constructor does with a valid trust configuration
check_address : UpstreamConnector → Checked UpstreamConnector
unfolding is_missing
check_address c =
    if not c.no_upstream && (is_missing c.upstream_host || is_missing c.upstream_port)
    then config_error (codes "upstream_host and upstream_port are required unless no_upstream")
    else accepted c

unfoldable pub upstream_connector : UpstreamConnector → Checked UpstreamConnector
unfolding check_address is_missing
upstream_connector c =
    elim (validate_upstream_config c.upstream_ca c.upstream_insecure c.no_upstream) [
      | accepted u ↦ check_address c
      | config_error e ↦ config_error e
      | scope_error e ↦ scope_error e
    ]

-- `s.encode("ascii")`, with `none` for UnicodeEncodeError
unfoldable pub encode_ascii : Text → Option Bytes
encode_ascii t = if all (λ c. leb c 127) t then some t else none

unfoldable pub connect_request : Text → ℤ → Text
connect_request host port =
    let target = host ++ (codes ":" ++ int_text port) in
    codes "CONNECT " ++ target ++ codes " HTTP/1.1\r\nHost: " ++ target ++ codes "\r\n\r\n"

-- `raw.split(b"\r\n", 1)[0]`
unfoldable pub first_line : Bytes → Bytes
first_line [] = []
first_line (c ∷ raw) =
    let rest = first_line raw in if starts_with (c ∷ raw) (codes "\r\n") then [] else c ∷ rest

unfoldable pub accepts_connect : Bytes → Bool
accepts_connect line =
    starts_with line (codes "HTTP/1.1 200") || starts_with line (codes "HTTP/1.0 200")

module _ (net : Network) where
  unfoldable pub open_direct : Text → ℤ → Option (TlsContext × Text) → Connected
  open_direct host port tls = elim (net.open_connection host port tls) [
    | connects ↦ opened (record { host = host; port = port; sent = []; tls = tls })
    | os_error ↦ failed unreachable
    | other_exception ↦ failed failure
  ]

  -- the answer to the CONNECT request
  unfoldable pub tunnel_reply : Connection → Option Bytes → Connected
  tunnel_reply c none = failed no_tunnel
  tunnel_reply c (some raw) =
      let line = first_line raw in
      if accepts_connect line then opened c else failed (refused_connect line)

  unfoldable pub open_via_upstream_tunnel : Text → ℤ → Text → ℤ → Connected
  open_via_upstream_tunnel upstream_host upstream_port dest_host dest_port =
      let tunnel : Connected = elim (encode_ascii (connect_request dest_host dest_port)) [
        | none ↦ failed failure
        | some request ↦
            tunnel_reply
              (record { host = upstream_host; port = upstream_port; sent = request; tls = none })
              (net.connect_reply request)
      ] in
      elim (net.open_connection upstream_host upstream_port none) [
        | connects ↦ tunnel
        | os_error ↦ failed unreachable
        | other_exception ↦ failed failure
      ]

  -- with the address of the upstream proxy, whose absence is a ConfigError
  unfoldable pub with_upstream : UpstreamConnector → (Text → ℤ → Connected) → Connected
  with_upstream c use_address = elim c.upstream_host [
    | none ↦ failed missing_config
    | some host ↦ elim c.upstream_port [
      | none ↦ failed missing_config
      | some port ↦ use_address host port
    ]
  ]

  unfoldable pub connect_plain_http : UpstreamConnector → Text → ℤ → Connected
  connect_plain_http c host port =
      if c.no_upstream
      then open_direct host port none
      else with_upstream c (λ h p. open_direct h p none)

  unfoldable pub connect_raw : UpstreamConnector → Text → ℤ → Connected
  connect_raw c host port =
      if c.no_upstream
      then open_direct host port none
      else with_upstream c (λ h p. open_via_upstream_tunnel h p host port)

  -- the context of the upstream leg; without any trust configuration a ConfigError
  unfoldable pub build_upstream_tls_context : UpstreamConnector → Option TlsContext
  build_upstream_tls_context c =
      if c.upstream_insecure
      then some unverified
      else elim c.upstream_ca [ none ↦ none | some p ↦ some (ca_file p) ]

  -- the upgrade of a tunnel to TLS
  unfoldable pub upgrade_tunnel : UpstreamConnector → Text → Connected → Connected
  upgrade_tunnel c host (failed e) = failed e
  upgrade_tunnel c host (opened conn) = elim (build_upstream_tls_context c) [
    | none ↦ failed missing_config
    | some context ↦ elim (net.start_tls context host) [
      | connects ↦ opened (record conn { tls = some (context, host) })
      | os_error ↦ failed tls_failed
      | other_exception ↦ failed failure
    ]
  ]

  unfoldable pub connect_tls : UpstreamConnector → Text → ℤ → Connected
  connect_tls c host port =
      if c.no_upstream
      then open_direct host port (some (system_trust, host))
      else upgrade_tunnel c host (with_upstream c (λ h p. open_via_upstream_tunnel h p host port))
