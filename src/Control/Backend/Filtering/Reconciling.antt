-- ===== src/Control/Backend/Filtering/Reconciling.antt =====
-- What the packet filter does once `Reconcile` of SystemBackend in internal/control/backend.go has
-- returned nil.
use unifi_6in.Prelude.{String, ◌≡◌, refl, ap, sym, ◌∙◌, true, Option, none, inl, inr, arith}
use unifi_6in.Errors.{Error, Result, Result-cases, ok, err}
use unifi_6in.Config.Types.{Config}
use unifi_6in.Control.Platform.{ReconcileInput}
use unifi_6in.Control.Backend.Exec.{System, Machine, Exec, continue, ◌>>=◌}
use unifi_6in.Control.Backend.Chains.{Filter}
use unifi_6in.Control.Backend.Firewall.{add_input_chain, add_forward_chain, add_mss_chain, teardown}
use unifi_6in.Control.Backend.Converge.{prepare, with_mtu, set_up, converge, system_reconcile}
use unifi_6in.Control.Backend.Laws.{system_reconcile-on}
use unifi_6in.Control.Backend.Filtering.{
  IsFiltering, steps-IsFiltering, add_input_chain-step, add_forward_chain-step, add_mss_chain-step,
}

module _ {W : Type 0} (system : System W) (filter : Filter system) where
  -- Where the computation succeeds, it ends in a machine with a filtering world.
  record Ends {A : Type 0} (wan : String) (m : Exec W A) : Type 0 where
    ends : (s : Machine W) (a : A) → (m s).0 ≡ ok a → IsFiltering system filter wan (m s).1.world

  continue-Ends :
      {A B : Type 0} (wan : String) (r : Result A × Machine W) (k : A → Exec W B) (b : B)
      → ((a : A) → Ends wan (k a))
      → (continue r k).0 ≡ ok b
      → IsFiltering system filter wan (continue r k).1.world
  unfolding continue
  continue-Ends wan (ok a, s) k b f h = (f a).ends s b h
  continue-Ends wan (err e, s) k b f h = absurd (cc)

  bind-Ends :
      {A B : Type 0} {wan : String} (m : Exec W A) {k : A → Exec W B}
      → ((a : A) → Ends wan (k a))
      → Ends wan (m >>= k)
  bind-Ends {wan = wan} m {k = k} f = record { ends = λ s b h. continue-Ends wan (m s) k b f h }

  continue-state :
      {A B : Type 0} (r : Result A × Machine W) (k : Exec W B) (b : B)
      → (continue r (λ _. k)).0 ≡ ok b
      → continue r (λ _. k) ≡ k r.1
  unfolding continue
  continue-state (ok a, s) k b h = refl
  continue-state (err e, s) k b h = absurd (cc)

  chains-Ends :
      (wan : String)
      → Ends wan (
          add_input_chain system wan >>= λ _.
          add_forward_chain system >>= λ _. add_mss_chain system)
  chains-Ends wan = record {
    ends = λ s b h.
        let rest : Exec W (Unit {0}) = add_forward_chain system >>= λ _. add_mss_chain system in
        let first = continue-state (add_input_chain system wan s) rest b h in
        let s1 = (add_input_chain system wan s).1 in
        let h' = ap (λ (r : Result (Unit {0}) × Machine W). r.0) (sym first) ∙ h in
        let second = continue-state (add_forward_chain system s1) (add_mss_chain system) b h' in
        rw
          (
            first,
            second,
            add_mss_chain-step system filter (add_forward_chain system s1).1,
            add_forward_chain-step system filter s1,
            add_input_chain-step system filter wan s,
          )
          (steps-IsFiltering system filter wan s);
  }

  set_up-Ends :
      (cfg : Config) (wan_ip : String) → Ends cfg.server.wan_interface (set_up system cfg wan_ip)
  unfolding set_up
  set_up-Ends cfg wan_ip = bind-Ends _ (λ _. bind-Ends _ (λ _. bind-Ends _ (λ _. bind-Ends _ (λ _.
      bind-Ends _ (λ _. bind-Ends _ (λ _. bind-Ends _ (λ _.
        bind-Ends _ (λ _.
          bind-Ends _ (λ args. bind-Ends _ (λ _. chains-Ends cfg.server.wan_interface))))))))))

  converge-IsFiltering :
      (cfg : Config) (s : Machine W)
      → (converge system cfg s).0.0 ≡ none
      → IsFiltering system filter cfg.server.wan_interface (converge system cfg s).1.world
  unfolding converge
  converge-IsFiltering cfg s h = elim (Result-cases (prepare system cfg s).0) [
    | inr (e, failed) ↦ absurd (ground arith)
    | inl ((ip, mtu), prepared) ↦
        let cfg' = with_mtu system cfg mtu in
        let s1 = (prepare system cfg s).1 in
        elim (Result-cases (set_up system cfg' ip s1).0) [
          | inr (e, failed) ↦ absurd (ground arith)
          | inl (a, done) ↦ rw (prepared, converge) ((set_up-Ends cfg' ip).ends s1 a done)
        ]
  ]

  -- Where the commands of iptables do to the chains what they document: once Reconcile of a valid
  -- configuration with the tunnel switched on returns nil, each of the three chains of the tunnel
  -- has exactly its rules, in their order and as far as the packet filter accepts them, whatever it
  -- had before; and the chain of the system that it belongs to, where that is there and accepts it,
  -- has a jump to it.
  pub system_reconcile-IsFiltering :
      (i : ReconcileInput) (s : Machine W)
      → i.config_valid ≡ true
      → i.config.tunnel.enabled ≡ true
      → (system_reconcile system i s).0.0 ≡ none
      → IsFiltering system filter i.config.server.wan_interface
          (system_reconcile system i s).1.world
  system_reconcile-IsFiltering i s valid enabled h =
      let on = system_reconcile-on system i s valid enabled in
      let h' = ap (λ (r : (Option Error × Config) × Machine W). r.0.0) (sym on) ∙ h in
      rw on (converge-IsFiltering i.config (teardown system i.applied s).1 h')
