-- ===== src/Daemon/Starting.antt =====
-- Every outcome of the daemon's construction, and what was done to the CA by then.
use second_eye.Prelude.{◌≡◌, ◌⊎◌, Bool, true, false, none, some, List}
use second_eye.Prelude.Text.{Text}
use second_eye.Scope.{ScopeMatcher, scope_matcher, ok as compiled, scope_config_error}
use second_eye.Upstream.{ℤ, config_error, validate_upstream_config, upstream_connector}
use second_eye.Listener.{ensure_loopback}
use second_eye.Daemon.{
  DaemonConfig, connector_of, no_scope, Built, built, bad_config, bad_scope, bad_ca, Startup,
}

-- the trust flags fit together
abbrev pub TrustGiven : DaemonConfig → Type 0
TrustGiven c =
    ((c.upstream_insecure ≡ true) × (c.upstream_ca ≡ none))
    ⊎ ((c.upstream_insecure ≡ false) × (p : Text) × (c.upstream_ca ≡ some p))
    ⊎ ((c.no_upstream ≡ true) × (c.upstream_insecure ≡ false) × (c.upstream_ca ≡ none))

-- the address of the upstream proxy, where one is needed
abbrev pub AddressGiven : DaemonConfig → Type 0
AddressGiven c =
    (c.no_upstream ≡ true)
    ⊎ ((h : Text) × (p : ℤ) × (c.upstream_host ≡ some h) × (c.upstream_port ≡ some p))

module _ (s : Startup) (c : DaemonConfig) (disk : List (Text × Text)) where
  -- the checks that come before the CA
  abbrev pub Checks : Type 0
  Checks =
      (no_scope c ≡ false)
      × TrustGiven c
      × (matcher : ScopeMatcher) × (scope_matcher s.matching c.targets c.target_regex
          ≡ compiled matcher)

  -- whether the CA was loaded or created, and the daemon or the error
  abbrev pub Outcome : Bool → Built → Type 0
  Outcome false (bad_config e) =
      (no_scope c ≡ true)
      ⊎ (validate_upstream_config c.upstream_ca c.upstream_insecure c.no_upstream ≡ config_error e)
  Outcome false (bad_scope p) =
      scope_matcher s.matching c.targets c.target_regex ≡ scope_config_error p
  Outcome false _ = ⊥
  Outcome true bad_ca = Checks × (s.load_or_create_ca c.state_dir ≡ none)
  Outcome true (bad_config e) =
      Checks
      × ((upstream_connector (connector_of c) ≡ config_error e)
          ⊎ (ensure_loopback s.parsing c.listen_host ≡ config_error e))
  Outcome true (bad_scope p) = ⊥
  Outcome true (built d) =
      Checks
      × AddressGiven c
      × (s.parsing.is_loopback c.listen_host ≡ some true)
      × (s.load_or_create_ca c.state_dir ≡ some d.ca_was_created)
      × (d.upstream ≡ connector_of c)
      × (d.manager.active ≡ none)

  -- what is to be shown of a construction
  abbrev OfOutcome : Bool × Built → Type 0
  OfOutcome (tried, b) = Outcome tried b
