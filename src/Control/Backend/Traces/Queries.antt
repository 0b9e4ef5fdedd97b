-- ===== src/Control/Backend/Traces/Queries.antt =====
-- `Observe` and `Probe` of internal/control/backend.go only ask.
use unifi_6in.Prelude.{
  String, true, false, if◌then◌else◌, refl, Bool, Option, none, some, List, [], ◌∷◌, All, ◌||◌,
  ◌==◌,
}
use unifi_6in.Text.{is_blank}
use unifi_6in.Tunnel.{interface_name}
use unifi_6in.Config.Types.{NetworkConfig, Config}
use unifi_6in.Control.Platform.{ObserveInput}
use unifi_6in.Control.Backend.Exec.{Command, System, Machine, combined_output}
use unifi_6in.Control.Backend.Addresses.{
  query_address, append_missing, missing_gateways, missing_enabled, collect_missing,
}
use unifi_6in.Control.Backend.Dataplane.{get_wan_ipv4}
use unifi_6in.Control.Backend.Converge.{observe, probe, resolve_probe_source}
use unifi_6in.Control.Backend.Traces.{
  Satisfies, fresh, Runs, bind-Runs, lift-Runs, if-Runs, combined_output-Runs,
}

abbrev asks : String → Bool
asks verb = verb == "show" || verb == "get"

-- a command with `show` or `get` in its place, or `ping`
abbrev pub is_query : Command → Bool
is_query c =
    c.name == "ping"
    || elim c.args [ _ ∷ second ∷ third ∷ _ ↦ asks second || asks third | _ ↦ false ]

module _ {W : Type 0} (system : System W) where
  query_address-Runs :
      (interface value : String) → Runs is_query (query_address system interface value)
  unfolding query_address
  query_address-Runs interface value = bind-Runs is_query (lift-Runs is_query) (λ _.
      bind-Runs is_query (combined_output-Runs is_query system "ip" _ refl)
        (λ _. bind-Runs is_query (lift-Runs is_query) (λ _. lift-Runs is_query)))

  append_missing-Runs :
      (found : List String) (interface value : String)
      → Runs is_query (append_missing system found interface value)
  unfolding append_missing
  append_missing-Runs found interface value =
      bind-Runs is_query (query_address-Runs interface value) (λ _. lift-Runs is_query)

  missing_gateways-Runs :
      (found : List String) (networks : List NetworkConfig)
      → Runs is_query (missing_gateways system found networks)
  unfolding missing_gateways
  missing_gateways-Runs found [] = lift-Runs is_query
  missing_gateways-Runs found (network ∷ networks) =
      bind-Runs is_query (lift-Runs is_query) (λ gateway.
        bind-Runs is_query (append_missing-Runs found network.interface gateway)
          (λ found'. missing_gateways-Runs found' networks))

  missing_enabled-Runs : (cfg : Config) → Runs is_query (missing_enabled system cfg)
  unfolding missing_enabled
  missing_enabled-Runs cfg =
      bind-Runs is_query (append_missing-Runs [] _ cfg.tunnel.local_ipv6) (λ found.
        if-Runs is_query cfg.lan.enabled (missing_gateways-Runs found cfg.lan.networks)
          (lift-Runs is_query))

  collect_missing-Runs : (cfg : Option Config) → Runs is_query (collect_missing system cfg)
  unfolding collect_missing
  collect_missing-Runs none = lift-Runs is_query
  collect_missing-Runs (some cfg) =
      if-Runs is_query cfg.tunnel.enabled (missing_enabled-Runs cfg) (lift-Runs is_query)

  get_wan_ipv4-Runs : (interface : String) → Runs is_query (get_wan_ipv4 system interface)
  unfolding get_wan_ipv4
  get_wan_ipv4-Runs interface =
      bind-Runs is_query (combined_output-Runs is_query system "ip" _ refl)
        (λ _. bind-Runs is_query (lift-Runs is_query) (λ _. lift-Runs is_query))

  probe-Runs : (target : String) → Runs is_query (probe system target)
  unfolding probe resolve_probe_source
  probe-Runs target =
      bind-Runs is_query
        (bind-Runs is_query (combined_output-Runs is_query system "ip" _ refl)
          (λ _. lift-Runs is_query))
        (λ _.
          bind-Runs is_query (combined_output-Runs is_query system "ping" _ refl)
            (λ _. lift-Runs is_query))

  if-commands :
      (b : Bool) (x y : String × Machine W)
      → All (Satisfies is_query) x.1.commands
      → All (Satisfies is_query) y.1.commands
      → All (Satisfies is_query) (if b then x else y).1.commands
  if-commands true x y h k = h
  if-commands false x y h k = k

  observe-queries :
      (input : ObserveInput) (w : W)
      → All (Satisfies is_query) (observe system input (fresh w)).1.commands
  unfolding observe
  observe-queries input w =
      let up =
        (combined_output-Runs is_query system "ip" ("link" ∷ "show" ∷ interface_name ∷ [])
            refl).kept
          (fresh w) tt in
      let s1 = (combined_output system "ip" ("link" ∷ "show" ∷ interface_name ∷ []) (fresh w)).1 in
      (collect_missing-Runs input.config).kept _ (
        if-commands (is_blank input.wan_interface) ("", s1) _ up
          ((get_wan_ipv4-Runs input.wan_interface).kept s1 up))

  -- Observe and Probe run no command but ones that show or get, and `ping`, whatever the
  -- commands answer.
  pub observe-commands :
      (input : ObserveInput) (target : String) (w : W)
      → All (Satisfies is_query) (observe system input (fresh w)).1.commands
        × All (Satisfies is_query) (probe system target (fresh w)).1.commands
  observe-commands input target w = (observe-queries input w, (probe-Runs target).kept (fresh w) tt)
