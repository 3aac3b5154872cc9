-- ===== src/Upstream/Routing.antt =====
-- Where outbound connections go, and which of them skip the verification of TLS.
use second_eye.Prelude.{
  ◌≡◌, refl, sym, ◌∙◌, if_false, true, false, none, some, [], arith, Option-cases, Bool-cases, inl,
  inr, ◌⊎◌,
}
use second_eye.Prelude.Text.{Text}
use second_eye.Upstream.{
  ℤ, TlsContext, system_trust, ca_file, unverified, Connection, Connected, opened, failed, Network,
  UpstreamConnector, encode_ascii, connect_request, open_direct, tunnel_reply,
  open_via_upstream_tunnel, with_upstream, connect_plain_http, connect_raw,
  build_upstream_tls_context, upgrade_tunnel, connect_tls,
}

-- the address that a connector dials for a destination
abbrev pub Dials : UpstreamConnector → Text → ℤ → Connection → Type 0
Dials c host port conn =
    ((c.no_upstream ≡ true) × (conn.host ≡ host) × (conn.port ≡ port) × (conn.sent ≡ []))
    ⊎ ((c.no_upstream ≡ false)
        × (c.upstream_host ≡ some conn.host)
        × (c.upstream_port ≡ some conn.port))

module _ (net : Network) (c : UpstreamConnector) (host : Text) (port : ℤ) where
  pub connect_plain_http-Dials :
      (conn : Connection)
      → connect_plain_http net c host port ≡ opened conn
      → Dials c host port conn × (conn.tls ≡ none) × (conn.sent ≡ [])
  unfolding connect_plain_http open_direct with_upstream
  connect_plain_http-Dials conn h = ground arith

  tunnel_dials :
      (uh : Text) (up : ℤ) (conn : Connection)
      → open_via_upstream_tunnel net uh up host port ≡ opened conn
      → (conn.host ≡ uh)
        × (conn.port ≡ up)
        × (conn.tls ≡ none)
        × (encode_ascii (connect_request host port) ≡ some conn.sent)
  unfolding open_via_upstream_tunnel tunnel_reply
  tunnel_dials uh up conn h = ground arith

  pub connect_raw-Dials :
      (conn : Connection)
      → connect_raw net c host port ≡ opened conn
      → Dials c host port conn × (conn.tls ≡ none)
  unfolding connect_raw open_direct with_upstream
  connect_raw-Dials conn h = grind (arith, tunnel_dials)

  -- the trust that a TLS connection was made with
  abbrev pub Trusts : Connection → Type 0
  Trusts conn =
      ((c.no_upstream ≡ true) × (conn.tls ≡ some (system_trust, host)))
      ⊎ ((c.no_upstream ≡ false)
          × (c.upstream_insecure ≡ true)
          × (conn.tls ≡ some (unverified, host)))
      ⊎ ((c.no_upstream ≡ false)
          × (c.upstream_insecure ≡ false)
          × (p : Text) × (c.upstream_ca ≡ some p)
          × (conn.tls ≡ some (ca_file p, host)))

  upgrade_tunnel_parts :
      (t : Connected) (conn : Connection)
      → upgrade_tunnel net c host t ≡ opened conn
      → (raw : Connection) × (context : TlsContext) × (t ≡ opened raw)
        × (build_upstream_tls_context net c ≡ some context)
        × (conn ≡ record raw { tls = some (context, host) })
  unfolding upgrade_tunnel
  upgrade_tunnel_parts (failed e) conn h = absurd (ground arith)
  upgrade_tunnel_parts (opened raw) conn h =
      elim (Option-cases (build_upstream_tls_context net c)) [
        | inl none_ ↦ absurd (ground arith)
        | inr (context, made) ↦ (raw, context, refl, made, ground arith)
      ]

  -- A TLS connection that opens goes to the right place and is verified as configured: without an
  -- upstream proxy it is dialled to the destination itself and verified by the system's trust store,
  -- whatever the trust flags say; with one it is dialled to the proxy, never to the destination, and
  -- is unverified exactly when `upstream_insecure` is set, else verified by the configured CA. The
  -- server name is that of the destination.
  pub connect_tls-Dials :
      (conn : Connection)
      → connect_tls net c host port ≡ opened conn
      → Dials c host port conn × Trusts conn
  unfolding connect_tls connect_raw open_direct build_upstream_tls_context
  connect_tls-Dials conn h = elim (Bool-cases c.no_upstream) [
    | inl direct ↦ ground arith
    | inr chained ↦
        let h' : upgrade_tunnel net c host
              (with_upstream net c (λ u p. open_via_upstream_tunnel net u p host port))
            ≡ opened conn =
          sym (if_false _ _ chained) ∙ h in
        let (raw, context, tunnel, trust, upgraded) = upgrade_tunnel_parts _ conn h' in
        let (dials, plain) = connect_raw-Dials raw (if_false _ _ chained ∙ tunnel) in ground arith
  ]
