-- ===== src/Control/Backend/Traces.antt =====
-- Which commands SystemBackend of internal/control/backend.go runs, whatever they answer.
pub mod Queries
use unifi_6in.Prelude.{
  String, ◌≡◌, refl, Bool, true, false, not, ◌&&◌, ◌||◌, none, List, [], ◌∷◌, All, arith,
  if◌then◌else◌, ◌==◌,
}
use unifi_6in.Errors.{Result, ok, err}
use unifi_6in.Tunnel.{NetworkStatus}
use unifi_6in.Config.Types.{NetworkConfig, Config}
use unifi_6in.Config.Validation.{contains_string}
use unifi_6in.Control.State.{AppliedState}
use unifi_6in.Control.Platform.{ReconcileInput}
use unifi_6in.Control.Backend.Exec.{
  Command, System, Machine, Exec, continue, ◌>>=◌, lift, combined_output, run, run_best_effort,
}
use unifi_6in.Control.Backend.Addresses.{
  AddressState, address_missing, address_healthy, address_unhealthy, gateway_for_prefix,
  query_address, ensure_state, ensure_address, ensure_gateways, repair_enabled, repair_addresses,
}
use unifi_6in.Control.Backend.Converge.{system_reconcile}
use unifi_6in.Control.Backend.Firewall.{remove_gateways, remove_chains, remove_route, teardown}

-- `ip -6 addr …`
abbrev pub is_address_command : Command → Bool
is_address_command c =
    c.name == "ip"
    && elim c.args [ verb ∷ object ∷ _ ↦ verb == "-6" && object == "addr" | _ ↦ false ]

-- a command that flushes or deletes
abbrev pub is_removal : Command → Bool
is_removal c =
    contains_string c.args "del"
    || contains_string c.args "-D"
    || contains_string c.args "-F"
    || contains_string c.args "-X"

abbrev pub Satisfies : (Command → Bool) → Command → Type 0
Satisfies test c = test c ≡ true

-- a machine on which no command has run yet
abbrev pub fresh : {W : Type 0} → W → Machine W
fresh w = record { world = w; commands = [] }

module _ {W : Type 0} (test : Command → Bool) where
  -- Every command that a computation runs passes the test.
  record Runs {A : Type 0} (m : Exec W A) : Type 0 where
    kept : (s : Machine W) → All (Satisfies test) s.commands → All (Satisfies test) (m s).1.commands

  continue-Runs :
      {A B : Type 0} (r : Result A × Machine W) (k : A → Exec W B)
      → All (Satisfies test) r.1.commands
      → ((a : A) → Runs (k a))
      → All (Satisfies test) (continue r k).1.commands
  unfolding continue
  continue-Runs (ok a, s) k h f = (f a).kept s h
  continue-Runs (err e, s) k h f = h

  bind-Runs :
      {A B : Type 0} {m : Exec W A} {k : A → Exec W B}
      → Runs m
      → ((a : A) → Runs (k a))
      → Runs (m >>= k)
  bind-Runs {m = m} {k = k} h f = record { kept = λ s c. continue-Runs (m s) k (h.kept s c) f }

  lift-Runs : {A : Type 0} {r : Result A} → Runs (lift r)
  lift-Runs = record { kept = λ s c. c }

  if-Runs : {A : Type 0} (b : Bool) {m n : Exec W A} → Runs m → Runs n → Runs (if b then m else n)
  if-Runs true h k = h
  if-Runs false h k = k

  module _ (system : System W) where
    combined_output-Runs :
        (name : String) (args : List String)
        → test (record { name = name; args = args }) ≡ true
        → Runs (combined_output system name args)
    unfolding combined_output
    combined_output-Runs name args h = record { kept = λ s c. (h, c) }

    run-Runs :
        (name : String) (args : List String)
        → test (record { name = name; args = args }) ≡ true
        → Runs (run system name args)
    unfolding run
    run-Runs name args h = bind-Runs (combined_output-Runs name args h) (λ _. lift-Runs)

    run_best_effort-Runs :
        (name : String) (args : List String)
        → test (record { name = name; args = args }) ≡ true
        → Runs (run_best_effort system name args)
    unfolding run_best_effort
    run_best_effort-Runs name args h = bind-Runs (combined_output-Runs name args h) (λ _. lift-Runs)

module _ {W : Type 0} (system : System W) where
  ensure_address-Runs :
      (interface value : String) → Runs is_address_command (ensure_address system interface value)
  unfolding ensure_address query_address ensure_state
  ensure_address-Runs interface value =
      bind-Runs is_address_command
        (bind-Runs is_address_command (lift-Runs is_address_command) (λ _.
          bind-Runs is_address_command (combined_output-Runs is_address_command system "ip" _ refl)
            (λ _.
              bind-Runs is_address_command (lift-Runs is_address_command)
                (λ _. lift-Runs is_address_command))))
        (λ state. switched state)
    where
      switched :
          (state : AddressState)
          → Runs is_address_command (ensure_state system interface value state)
      switched address_healthy = lift-Runs is_address_command
      switched address_missing = run-Runs is_address_command system "ip" _ refl
      switched address_unhealthy =
          bind-Runs is_address_command (run-Runs is_address_command system "ip" _ refl)
            (λ _. run-Runs is_address_command system "ip" _ refl)

  ensure_gateways-Runs :
      (networks : List NetworkConfig) → Runs is_address_command (ensure_gateways system networks)
  unfolding ensure_gateways
  ensure_gateways-Runs [] = lift-Runs is_address_command
  ensure_gateways-Runs (network ∷ networks) =
      bind-Runs is_address_command (lift-Runs is_address_command) (λ gateway.
        bind-Runs is_address_command (ensure_address-Runs network.interface gateway)
          (λ _. ensure_gateways-Runs networks))

  -- RepairAddresses runs no command but `ip -6 addr`, whatever the commands answer: it touches no
  -- tunnel, no route and no firewall rule.
  pub repair_addresses-commands :
      (cfg : Config) (w : W)
      → All (Satisfies is_address_command) (repair_addresses system cfg (fresh w)).1.commands
  unfolding repair_addresses repair_enabled
  repair_addresses-commands cfg w =
      (if-Runs is_address_command cfg.tunnel.enabled
          (bind-Runs is_address_command (ensure_address-Runs _ cfg.tunnel.local_ipv6) (λ _.
            if-Runs is_address_command cfg.lan.enabled (ensure_gateways-Runs cfg.lan.networks)
              (lift-Runs is_address_command)))
          (lift-Runs is_address_command)).kept
        (fresh w) tt

  quiet-Runs :
      (name : String) (args : List String)
      → is_removal (record { name = name; args = args }) ≡ true
      → Runs is_removal (run_best_effort system name args)
  quiet-Runs name args h = run_best_effort-Runs is_removal system name args h

  remove_gateways-Runs :
      (networks : List NetworkStatus) → Runs is_removal (remove_gateways system networks)
  unfolding remove_gateways contains_string
  remove_gateways-Runs [] = lift-Runs is_removal
  remove_gateways-Runs (network ∷ networks) =
      removed (gateway_for_prefix system network.prefix) (remove_gateways-Runs networks)
    where
      removed :
          (r : Result String)
          → Runs is_removal (remove_gateways system networks)
          → Runs is_removal (elim r [
            | err _ ↦ remove_gateways system networks
            | ok value ↦
                run_best_effort system "ip"
                  ("-6" ∷ "addr" ∷ "del" ∷ value ∷ "dev" ∷ network.interface ∷ [])
                >>= λ _. remove_gateways system networks
          ])
      removed (err e) rest = rest
      removed (ok value) rest = bind-Runs is_removal (quiet-Runs "ip" _ refl) (λ _. rest)

  remove_route-Runs : (applied : AppliedState) → Runs is_removal (remove_route system applied)
  unfolding remove_route contains_string
  remove_route-Runs applied =
      if-Runs is_removal (not (applied.remote_endpoint == "") && not (applied.wan_interface == ""))
        (quiet-Runs "ip" _ refl) (lift-Runs is_removal)

  remove_chains-Runs : Runs is_removal (remove_chains system)
  unfolding remove_chains contains_string
  remove_chains-Runs = then_quiet (quiet-Runs "iptables" _ refl) (
      then_quiet (quiet-Runs "iptables" _ refl) (
        then_quiet (quiet-Runs "iptables" _ refl) (
          then_quiet (quiet-Runs "ip6tables" _ refl) (
            then_quiet (quiet-Runs "ip6tables" _ refl) (
              then_quiet (quiet-Runs "ip6tables" _ refl) (
                then_quiet (quiet-Runs "ip6tables" _ refl)
                  (then_quiet (quiet-Runs "ip6tables" _ refl) (quiet-Runs "ip6tables" _ refl))))))))
    where
      then_quiet :
          {m n : Exec W (Unit {0})}
          → Runs is_removal m
          → Runs is_removal n
          → Runs is_removal (m >>= λ _. n)
      then_quiet h k = bind-Runs is_removal h (λ _. k)

  teardown-Runs : (applied : AppliedState) → Runs is_removal (teardown system applied)
  unfolding teardown contains_string
  teardown-Runs applied = bind-Runs is_removal remove_chains-Runs (λ _.
      bind-Runs is_removal (remove_gateways-Runs applied.networks) (λ _.
        bind-Runs is_removal (remove_route-Runs applied)
          (λ _. bind-Runs is_removal (quiet-Runs "ip" _ refl) (λ _. quiet-Runs "ip" _ refl))))

  -- Reconcile of a configuration that is not valid, or whose tunnel is switched off, returns nil,
  -- leaves the configuration as it is, and runs no command but ones that flush or delete.
  pub system_reconcile-off :
      (i : ReconcileInput) (w : W)
      → i.config_valid && i.config.tunnel.enabled ≡ false
      → ((system_reconcile system i (fresh w)).0 ≡ (none, i.config))
        × All (Satisfies is_removal) (system_reconcile system i (fresh w)).1.commands
  unfolding system_reconcile
  system_reconcile-off i w h =
      let clean = (teardown-Runs i.applied).kept (fresh w) tt in
      rw (off i.config_valid i.config.tunnel.enabled h) (refl, clean)
    where
      off : (a b : Bool) → a && b ≡ false → not a || not b ≡ true
      off a b h = ground arith
