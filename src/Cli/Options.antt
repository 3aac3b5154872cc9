-- ===== src/Cli/Options.antt =====
-- src/secondeye/cli.py: from the options of `proxy start` to the daemon's configuration.
use second_eye.Prelude.{
  ℕ, Bool, ◌||◌, Option, none, some, List, [], ◌∷◌, ◌++◌, ◌==◌, list_eq, nat_eq, if◌then◌else◌,
}
use second_eye.Prelude.Text.{Text, codes, strip, starts_with, drop_while, decimal}
use second_eye.Har.{◌>>=◌}
use second_eye.Upstream.{ℤ, pos, Checked, accepted, config_error, scope_error}
use second_eye.Listener.{Parsing, rpartition}
use second_eye.Daemon.{DaemonConfig}

-- `s.partition(c)`
unfoldable pub partition : ℕ → Text → Text × Text
partition c [] = ([], [])
partition c (d ∷ s) =
    let (front, back) = partition c s in if d == c then ([], s) else (d ∷ front, back)

-- `s[1:]`
behind_bracket : Text → Text
behind_bracket [] = []
behind_bracket (c ∷ s) = s

module _ (p : Parsing) where
  port_of : Text → Text → Option (Text × ℤ)
  port_of host port_str = do port ← p.to_int port_str; some (host, port)

  -- `none` is a ValueError of `int`
  unfoldable pub parse_host_port : Text → ℕ → Option (Text × ℤ)
  unfolding port_of behind_bracket
  parse_host_port value default_port =
      let (host, rest) = partition b']' (behind_bracket value) in
      let given = drop_while (λ c. c == b':') rest in
      let bracketed = port_of host (if given == [] then decimal default_port else given) in
      let plain : Option (Text × ℤ) = elim (rpartition b':' value) [
        | none ↦ some (value, pos default_port)
        | some (host, port_str) ↦ port_of host port_str
      ] in
      if starts_with value (codes "[") then bracketed else plain

-- the targets of a file, given its lines
unfoldable pub read_targets : List Text → List Text
read_targets [] = []
read_targets (line ∷ lines) =
    let stripped = strip line in
    let rest = read_targets lines in
    if stripped == [] || starts_with stripped (codes "#") then rest else stripped ∷ rest

-- the options of `proxy start`; a target file is its lines, or none where it cannot be read
pub record StartOptions : Type 0 where
  pub target : List Text
  pub target_file : List (Option (List Text))
  pub target_regex : List Text
  pub listen_address : Text
  pub upstream_proxy : Text
  pub no_upstream : Bool
  pub upstream_ca : Option Text
  pub upstream_insecure : Bool
  pub target_all : Bool
  pub cluster_window : ℤ
  pub max_connections : ℕ

-- the targets of all files, or ConfigError
unfoldable pub read_target_files : List (Option (List Text)) → Checked (List Text)
read_target_files [] = accepted []
read_target_files (none ∷ files) = config_error (codes "failed to read --target-file")
read_target_files (some lines ∷ files) = elim (read_target_files files) [
  | accepted ts ↦ accepted (read_targets lines ++ ts)
  | e ↦ e
]

module _ (p : Parsing) (o : StartOptions) (state_dir : Text) where
  -- the upstream's address, which is not read with `--no-upstream`
  unfoldable pub upstream_address : Option (Option (Text × ℤ))
  upstream_address =
      let given : Option (Option (Text × ℤ)) = elim (parse_host_port p o.upstream_proxy 8080) [
        | none ↦ none
        | some a ↦ some (some a)
      ] in
      if o.no_upstream then some none else given

  config_with : Text × ℤ → Option (Text × ℤ) → List Text → DaemonConfig
  config_with listen upstream from_files = record {
    listen_host = listen.0;
    listen_port = listen.1;
    targets = o.target ++ from_files;
    target_regex = o.target_regex;
    upstream_host = elim upstream [ none ↦ none | some a ↦ some a.0 ];
    upstream_port = elim upstream [ none ↦ none | some a ↦ some a.1 ];
    no_upstream = o.no_upstream;
    upstream_ca = o.upstream_ca;
    upstream_insecure = o.upstream_insecure;
    target_all = o.target_all;
    cluster_window_ms = o.cluster_window;
    max_connections = o.max_connections;
    state_dir = state_dir;
  }

  with_files : Text × ℤ → Option (Text × ℤ) → Checked (List Text) → Checked DaemonConfig
  unfolding config_with
  with_files listen upstream (accepted ts) = accepted (config_with listen upstream ts)
  with_files listen upstream (config_error e) = config_error e
  with_files listen upstream (scope_error e) = scope_error e

  -- the configuration, or ConfigError; `none` is a ValueError
  unfoldable pub daemon_config : Option (Checked DaemonConfig)
  unfolding with_files config_with
  daemon_config = do
    listen ← parse_host_port p o.listen_address 8079
    upstream ← upstream_address
    some (with_files listen upstream (read_target_files o.target_file))
