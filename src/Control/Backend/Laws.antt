-- ===== src/Control/Backend/Laws.antt =====
-- What `Reconcile` of SystemBackend in internal/control/backend.go makes of the configuration
-- behind the pointer that it is given.
use unifi_6in.Prelude.{
  ℕ, ◌≤◌, ◌-◌, ◌≡◌, refl, ap, sym, ◌∙◌, String, ℤ, pos, negsuc, is_positive, Bool, true, false,
  Option, none, arith, inl, inr, if◌then◌else◌,
}
use unifi_6in.Errors.{Error, Result, Result-cases, ok, err}
use unifi_6in.Config.Types.{Config}
use unifi_6in.Control.Platform.{Platform, ReconcileInput}
use unifi_6in.Control.Backend.Exec.{System, Machine, continue, ◌>>=◌, give, lift}
use unifi_6in.Control.Backend.Dataplane.{
  get_wan_ipv4, get_interface_mtu, tunnel_mtu, resolve_tunnel_mtu, read_tunnel_mtu,
}
use unifi_6in.Control.Backend.Converge.{
  prepare, converge, system_reconcile, with_mtu, system_backend,
}
use unifi_6in.Control.Backend.Firewall.{teardown}
use unifi_6in.Control.Interleaving.Soundness.{KeepsSwitch}

module _ {W : Type 0} (system : System W) where
  converge-config :
      (cfg : Config) (s : Machine W)
      → (converge system cfg s).0.1 ≡ with_mtu system cfg (converge system cfg s).0.1.tunnel.mtu
  unfolding converge
  converge-config cfg s = ground arith

  -- Reconcile changes nothing of the configuration but the MTU, whether it returns an error or not.
  pub system_reconcile-config :
      (i : ReconcileInput) (s : Machine W)
      → (system_reconcile system i s).0.1
        ≡ with_mtu system i.config (system_reconcile system i s).0.1.tunnel.mtu
  unfolding system_reconcile
  system_reconcile-config i s = ground (arith, converge-config i.config)

  -- The hypothesis of the service on its backend holds of this one.
  pub system_backend-KeepsSwitch :
      {D : Type 0} (platform : Platform D (Machine W))
      → platform.backend ≡ system_backend system
      → KeepsSwitch platform
  unfolding system_backend
  system_backend-KeepsSwitch platform e i s =
      rw e (ap (λ (c : Config). c.tunnel.enabled) (system_reconcile-config i s))

  -- the MTU that a configured one may become
  abbrev pub IsResolved : ℤ → ℤ → Type 0
  IsResolved configured mtu =
      if is_positive configured then mtu ≡ configured else ((n : ℕ) × (mtu ≡ pos n) × (1280 ≤ n))

  pub continue-ok :
      {A B : Type 0} (r : Result A × Machine W) (k : A → Machine W → Result B × Machine W) (b : B)
      → (continue r k).0 ≡ ok b
      → (a : A) × (r.0 ≡ ok a) × ((k a r.1).0 ≡ ok b)
  unfolding continue
  continue-ok (ok a, s) k b h = (a, refl, h)
  continue-ok (err e, s) k b h = absurd (cc)

  tunnel_mtu-low : (wan mtu : ℤ) → tunnel_mtu wan ≡ ok mtu → (n : ℕ) × (mtu ≡ pos n) × (1280 ≤ n)
  unfolding tunnel_mtu
  tunnel_mtu-low (negsuc k) mtu h = absurd (cc)
  tunnel_mtu-low (pos k) mtu h = (k - 20, ground arith, ground arith)

  resolve_tunnel_mtu-IsResolved :
      (configured : ℤ) (interface : String) (s : Machine W) (mtu : ℤ)
      → (resolve_tunnel_mtu system configured interface s).0 ≡ ok mtu
      → IsResolved configured mtu
  unfolding resolve_tunnel_mtu read_tunnel_mtu
  resolve_tunnel_mtu-IsResolved configured interface s mtu h = by_sign (is_positive configured) h
    where
      by_sign :
          (b : Bool)
          → ((if b then give configured else read_tunnel_mtu system interface) s).0 ≡ ok mtu
          → (if b then mtu ≡ configured else ((n : ℕ) × (mtu ≡ pos n) × (1280 ≤ n)))
      by_sign true h = ground arith
      by_sign false h =
          let (wan, _, e) =
            continue-ok (get_interface_mtu system interface s) (λ wan. lift (tunnel_mtu wan)) mtu
              h in
          tunnel_mtu-low wan mtu e

  prepare-IsResolved :
      (cfg : Config) (s : Machine W) (ip : String) (mtu : ℤ)
      → (prepare system cfg s).0 ≡ ok (ip, mtu)
      → IsResolved cfg.tunnel.mtu mtu
  unfolding prepare
  prepare-IsResolved cfg s ip mtu h =
      let wan = cfg.server.wan_interface in
      let (ip', _, h') =
        continue-ok (get_wan_ipv4 system wan s)
          (λ ip. resolve_tunnel_mtu system cfg.tunnel.mtu wan >>= λ mtu. give (ip, mtu)) (ip, mtu)
          h in
      let s1 = (get_wan_ipv4 system wan s).1 in
      let (mtu', e, same) =
        continue-ok (resolve_tunnel_mtu system cfg.tunnel.mtu wan s1) (λ mtu. give (ip', mtu))
          (ip, mtu) h' in
      resolve_tunnel_mtu-IsResolved cfg.tunnel.mtu wan s1 mtu (ground arith)

  converge-IsResolved :
      (cfg : Config) (s : Machine W)
      → (converge system cfg s).0.0 ≡ none
      → IsResolved cfg.tunnel.mtu (converge system cfg s).0.1.tunnel.mtu
  unfolding converge
  converge-IsResolved cfg s h = elim (Result-cases (prepare system cfg s).0) [
    | inl ((ip, mtu), e) ↦ rw (e, converge) (prepare-IsResolved cfg s ip mtu e)
    | inr (x, e) ↦ absurd (ground arith)
  ]

  pub system_reconcile-on :
      (i : ReconcileInput) (s : Machine W)
      → i.config_valid ≡ true
      → i.config.tunnel.enabled ≡ true
      → system_reconcile system i s ≡ converge system i.config (teardown system i.applied s).1
  unfolding system_reconcile
  system_reconcile-on i s valid enabled = rw (valid, enabled) refl

  -- Where Reconcile of a valid configuration with the tunnel switched on returns nil, the MTU that
  -- it leaves there is the configured one if that is positive, and else one of at least 1280, the
  -- minimum of IPv6.
  pub system_reconcile-mtu :
      (i : ReconcileInput) (s : Machine W)
      → i.config_valid ≡ true
      → i.config.tunnel.enabled ≡ true
      → (system_reconcile system i s).0.0 ≡ none
      → IsResolved i.config.tunnel.mtu (system_reconcile system i s).0.1.tunnel.mtu
  system_reconcile-mtu i s valid enabled h =
      let on = system_reconcile-on i s valid enabled in
      let h' = ap (λ (r : (Option Error × Config) × Machine W). r.0.0) (sym on) ∙ h in
      rw on (converge-IsResolved i.config (teardown system i.applied s).1 h')
