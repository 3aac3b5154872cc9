-- ===== src/Daemon.antt =====
-- src/secondeye/daemon.py: the start of the daemon, its own control commands, and its shutdown.
pub mod Starting
use second_eye.Prelude.{
  ℕ, Bool, true, false, ◌&&◌, ◌||◌, not, Option, none, some, List, [], ◌∷◌, ◌++◌, map, leb, ◌==◌,
  list_eq, nat_eq, if◌then◌else◌,
}
use second_eye.Prelude.Text.{Text, codes}
use second_eye.Prelude.Dict.{insert}
use second_eye.Json.{Json, null, bool, int, str, obj, Fields, end, field, Codecs}
use second_eye.Manifest.Stats.{ScopeConfig, scope_summary}
use second_eye.Scope.{
  Matching, ScopeMatcher, ScopeResult, scope_matcher, ok as compiled, scope_config_error,
}
use second_eye.Manager.{Env, Result, ok, err, ActiveCapture, CaptureResult, CaptureManager}
use second_eye.Manager.Stop.{stop_capture}
use second_eye.Upstream.{
  ℤ, int_text, Checked, accepted, config_error, scope_error, UpstreamConnector,
  validate_upstream_config, upstream_connector,
}
use second_eye.Listener.{Parsing, ensure_loopback, Listener}
use second_eye.Control.{Wire, Handler, Handlers, ok_reply, build_capture_handlers}

pub record DaemonConfig : Type 0 where
  pub listen_host : Text
  pub listen_port : ℤ
  pub targets : List Text
  pub target_regex : List Text
  pub upstream_host : Option Text
  pub upstream_port : Option ℤ
  pub no_upstream : Bool
  pub upstream_ca : Option Text
  pub upstream_insecure : Bool
  pub target_all : Bool
  pub cluster_window_ms : ℤ
  pub max_connections : ℕ
  pub state_dir : Text

-- the configured routing, as the constructor of UpstreamConnector takes it
abbrev pub connector_of : DaemonConfig → UpstreamConnector
connector_of c = record {
  upstream_host = c.upstream_host;
  upstream_port = c.upstream_port;
  no_upstream = c.no_upstream;
  upstream_ca = c.upstream_ca;
  upstream_insecure = c.upstream_insecure;
}

-- `[a-zA-Z0-9-]`
unfoldable pub is_label_char : ℕ → Bool
is_label_char c =
    (leb 97 c && leb c 122) || (leb 65 c && leb c 90) || (leb 48 c && leb c 57) || c == 45

unfoldable pub derive_target_label : List Text → List Text → Bool → Text
derive_target_label (t ∷ ts) target_regex target_all =
    map (λ c. if is_label_char c then c else 45) t
derive_target_label [] (p ∷ ps) target_all = codes "target-regex"
derive_target_label [] [] target_all = if target_all then codes "target-all" else codes "scope"

-- how an f-string shows None
option_text {ℓ} : {A : Type ℓ} → (A → Text) → Option A → Text
option_text show none = codes "None"
option_text show (some a) = show a

unfoldable pub upstream_label : DaemonConfig → Option Text
unfolding option_text
upstream_label c =
    if c.no_upstream
    then none
    else some
        (option_text (λ h. h) c.upstream_host ++ codes ":" ++ option_text int_text c.upstream_port)

-- a list that counts as None where it is empty
none_if_empty : List Text → Option (List Text)
none_if_empty [] = none
none_if_empty (p ∷ ps) = some (p ∷ ps)

unfoldable pub scope_of : DaemonConfig → ScopeConfig
unfolding none_if_empty
scope_of c = record {
  targets = c.targets;
  target_regex = none_if_empty c.target_regex;
  target_all = c.target_all;
  upstream = upstream_label c;
  no_upstream = c.no_upstream;
}

-- `disk` is what the state directory holds
unfoldable pub new_manager : DaemonConfig → List (Text × Text) → CaptureManager
new_manager c disk = record {
  state_dir = c.state_dir;
  target_label = derive_target_label c.targets c.target_regex c.target_all;
  scope = scope_of c;
  active = none;
  buffer = none;
  history = [];
  active_request_count = 0;
  disk = disk;
}

pub record Daemon : Type 0 where
  pub config : DaemonConfig
  pub upstream : UpstreamConnector
  pub listener : Listener
  pub manager : CaptureManager
  pub ca_was_created : Bool
  pub shutdown_requested : Bool
  -- whether the listener and the control socket are bound
  pub is_listening : Bool

-- a daemon, or the error that its construction raises
pub data Built : Type 0 where
  built : Daemon → Built
  bad_config : Text → Built
  bad_scope : Text → Built
  bad_ca : Built

-- the error of a check, as that of the construction
refused {ℓ} : {A : Type ℓ} → (A → Built) → Checked A → Built
refused go_on (accepted a) = go_on a
refused go_on (config_error e) = bad_config e
refused go_on (scope_error e) = bad_scope e

abbrev pub no_scope : DaemonConfig → Bool
no_scope c = c.targets == [] && c.target_regex == [] && not c.target_all

-- what the constructor calls: idna and re, ipaddress, and `load_or_create_ca`, which tells whether the
-- CA is a new one, or raises
pub record Startup : Type 0 where
  pub matching : Matching
  pub parsing : Parsing
  pub load_or_create_ca : Text → Option Bool

module _ (s : Startup) where
  daemon_of : DaemonConfig → List (Text × Text) → ScopeMatcher → Bool → UpstreamConnector → Daemon
  daemon_of c disk matcher created connector = record {
    config = c;
    upstream = connector;
    listener = record {
      scope_matcher = matcher;
      target_all = c.target_all;
      max_connections = c.max_connections;
    };
    manager = new_manager c disk;
    ca_was_created = created;
    shutdown_requested = false;
    is_listening = false;
  }

  -- what follows the CA: the connector, and the check of the listener
  after_ca : DaemonConfig → List (Text × Text) → ScopeMatcher → Bool → Built
  unfolding refused daemon_of
  after_ca c disk matcher created =
      refused
        (λ connector.
          refused (λ u. built (daemon_of c disk matcher created connector))
            (ensure_loopback s.parsing c.listen_host))
        (upstream_connector (connector_of c))

  -- the CA is loaded or created; whether that was tried, and what came of the construction
  with_ca : DaemonConfig → List (Text × Text) → ScopeMatcher → Option Bool → Bool × Built
  unfolding after_ca refused daemon_of
  with_ca c disk matcher none = (true, bad_ca)
  with_ca c disk matcher (some created) = (true, after_ca c disk matcher created)

  with_matcher : DaemonConfig → List (Text × Text) → ScopeResult ScopeMatcher → Bool × Built
  unfolding with_ca after_ca refused daemon_of
  with_matcher c disk (compiled matcher) = with_ca c disk matcher (s.load_or_create_ca c.state_dir)
  with_matcher c disk (scope_config_error p) = (false, bad_scope p)

  checked_trust : DaemonConfig → List (Text × Text) → Checked (Unit {0}) → Bool × Built
  unfolding with_matcher with_ca after_ca refused daemon_of
  checked_trust c disk (accepted u) =
      with_matcher c disk (scope_matcher s.matching c.targets c.target_regex)
  checked_trust c disk (config_error e) = (false, bad_config e)
  checked_trust c disk (scope_error e) = (false, bad_scope e)

  -- `Daemon.__init__`
  unfoldable pub new_daemon : DaemonConfig → List (Text × Text) → Bool × Built
  unfolding checked_trust with_matcher with_ca after_ca refused daemon_of
  new_daemon c disk =
      if no_scope c
      then (false, bad_config (codes "at least one --target, --target-file, or --target-regex"))
      else checked_trust c disk
          (validate_upstream_config c.upstream_ca c.upstream_insecure c.no_upstream)

module _ (w : Wire) (env : Env) (bound_port : Text) where
  -- the active capture in a status
  active_to_dict : CaptureManager → Option ActiveCapture → Json
  active_to_dict m none = null
  active_to_dict m (some a) = obj (
      field (codes "name") (str a.name) (
        field (codes "started_at") (str (w.codecs.isoformat a.started_at))
          (field (codes "request_count") (int m.active_request_count) end)))

  unfoldable pub handle_status : Handler Daemon
  unfolding active_to_dict
  handle_status params d = (
    ok (
        ok_reply (
          obj (
            field (codes "listen") (str (d.config.listen_host ++ codes ":" ++ bound_port)) (
              field (codes "scope") (obj (scope_summary d.manager.scope)) (
                field (codes "active_capture") (active_to_dict d.manager d.manager.active) end))))),
    d,
  )

  unfoldable pub request_shutdown : Daemon → Daemon
  request_shutdown d = record d { shutdown_requested = true }

  unfoldable pub handle_stop : Handler Daemon
  handle_stop params d =
      (ok (ok_reply (obj (field (codes "stopping") (bool true) end))), request_shutdown d)

  -- a handler of the manager, on the daemon
  unfoldable pub on_manager : Handler CaptureManager → Handler Daemon
  on_manager h params d = let (reply, m) = h params d.manager in (reply, record d { manager = m })

  -- the commands of the control server
  unfoldable pub daemon_handlers : ℕ → Handlers Daemon
  daemon_handlers now = insert (codes "proxy.stop") handle_stop (
      insert (codes "proxy.status") handle_status (
        map (λ (h : Text × Handler CaptureManager). (h.0, on_manager h.1))
          (build_capture_handlers w env now)))

-- a signal: the first one requests the shutdown, and a second one ends the process, which is `none`
unfoldable pub handle_signal : Daemon → Option Daemon
handle_signal d =
    if d.shutdown_requested then none else some (record d { shutdown_requested = true })

-- the sockets close after the flush, and not at all where the flush raises
close_after : Result CaptureResult × CaptureManager → Daemon → Result (Unit {0}) × Daemon
close_after (ok r, m) d = (ok tt, record d { manager = m; is_listening = false })
close_after (err e, m) d = (err e, record d { manager = m })

unfoldable pub shutdown : Env → ℕ → Daemon → Result (Unit {0}) × Daemon
unfolding close_after
shutdown env now d =
    let flushed = close_after (stop_capture env now d.manager) d in
    elim d.manager.active [ none ↦ (ok tt, record d { is_listening = false }) | some a ↦ flushed ]
