-- ===== src/Control/Backend/Converge.antt =====
-- `Reconcile`, `Observe` and `Probe` of SystemBackend in internal/control/backend.go, and the
-- backend that they make for the service.
use unifi_6in.Prelude.{
  String, ℤ, Bool, true, false, not, ◌||◌, Option, none, some, List, [], ◌∷◌, ◌++◌, if◌then◌else◌,
  ◌==◌,
}
use unifi_6in.Text.{◌<>◌, is_blank}
use unifi_6in.Errors.{Error, ok, err}
use unifi_6in.Tunnel.{interface_name}
use unifi_6in.Config.Types.{Config}
use unifi_6in.Control.Reasons.{Observation}
use unifi_6in.Control.Platform.{Backend, ReconcileInput, ObserveInput, ProbeResult}
use unifi_6in.Control.Backend.Exec.{System, Machine, Exec, ◌>>=◌, give, lift, combined_output, run}
use unifi_6in.Control.Backend.Addresses.{ensure_address, repair_addresses, collect_missing}
use unifi_6in.Control.Backend.Dataplane.{
  int_text, error_of, quiet, get_wan_ipv4, resolve_tunnel_mtu, set_sysctl, set_up_networks,
  is_preferred_source, default_route_args,
}
use unifi_6in.Control.Backend.Firewall.{teardown, add_input_chain, add_forward_chain, add_mss_chain}

module _ {W : Type 0} (system : System W) where
  -- Reconcile up to its write of the MTU: the WAN address and the MTU
  unfoldable pub prepare : Config → Exec W (String × ℤ)
  prepare cfg = do
    wan_ip ← get_wan_ipv4 system cfg.server.wan_interface
    mtu ← resolve_tunnel_mtu system cfg.tunnel.mtu cfg.server.wan_interface
    give (wan_ip, mtu)

  -- Reconcile after its write of the MTU
  unfoldable pub set_up : Config → String → Exec W (Unit {0})
  unfolding add_input_chain add_forward_chain add_mss_chain
  set_up cfg wan_ip = do
    _ ← quiet system "modprobe" ("sit" ∷ [])
    _ ← run system "ip" (
        "route"
        ∷ "replace"
        ∷ (cfg.tunnel.remote_endpoint <> "/32")
        ∷ "dev"
        ∷ cfg.server.wan_interface
        ∷ "src"
        ∷ wan_ip
        ∷ [])
    _ ← run system "ip" (
        "tunnel"
        ∷ "add"
        ∷ interface_name
        ∷ "mode"
        ∷ "sit"
        ∷ "remote"
        ∷ cfg.tunnel.remote_endpoint
        ∷ "local"
        ∷ wan_ip
        ∷ "ttl"
        ∷ int_text cfg.tunnel.ttl
        ∷ [])
    _ ← run system "ip" ("link" ∷ "set" ∷ interface_name ∷ "mtu" ∷ int_text cfg.tunnel.mtu ∷ [])
    _ ← run system "ip" ("link" ∷ "set" ∷ interface_name ∷ "up" ∷ [])
    _ ← ensure_address system interface_name cfg.tunnel.local_ipv6
    _ ← set_sysctl system "net.ipv6.conf.all.forwarding=1"
    _ ← if cfg.lan.enabled then set_up_networks system [] cfg.lan.networks else give tt
    args ← lift (default_route_args system cfg)
    _ ← run system "ip" args
    _ ← add_input_chain system cfg.server.wan_interface
    _ ← add_forward_chain system
    add_mss_chain system

  abbrev pub with_mtu : Config → ℤ → Config
  with_mtu cfg mtu = record cfg { tunnel = record (cfg.tunnel) { mtu = mtu } }

  -- Reconcile after its teardown and its guard
  unfoldable pub converge : Config → Machine W → (Option Error × Config) × Machine W
  converge cfg s =
      let (prepared, s1) = prepare cfg s in
      elim prepared [
        | err e ↦ ((some e, cfg), s1)
        | ok (wan_ip, mtu) ↦
            let cfg' = with_mtu cfg mtu in
            let (result, s2) = set_up cfg' wan_ip s1 in ((error_of result, cfg'), s2)
      ]

  -- func (b *SystemBackend) Reconcile, of a config that is not nil
  unfoldable pub system_reconcile : ReconcileInput → Machine W → (Option Error × Config) × Machine W
  unfolding converge teardown
  system_reconcile input s =
      let s1 = (teardown system input.applied s).1 in
      if not input.config_valid || not input.config.tunnel.enabled
      then ((none, input.config), s1)
      else converge input.config s1

  abbrev link_up : Machine W → Bool × Machine W
  link_up s =
      let (result, s1) = combined_output system "ip" ("link" ∷ "show" ∷ interface_name ∷ []) s in
      (elim result [ ok (_, none) ↦ true | ok (_, some _) ↦ false | err _ ↦ false ], s1)

  abbrev observed_wan : String → Machine W → String × Machine W
  observed_wan interface s =
      let (result, s1) = get_wan_ipv4 system interface s in
      if is_blank interface
      then ("", s)
      else (elim result [ ok address ↦ address | err _ ↦ "" ], s1)

  -- func (b *SystemBackend) Observe
  unfoldable pub observe :
      ObserveInput → Machine W → (Option Observation × Option Error) × Machine W
  observe input s =
      let (up, s1) = link_up s in
      let (wan, s2) = observed_wan input.wan_interface s1 in
      let (missing, s3) = collect_missing system input.config s2 in
      let found : List String = elim missing [ ok addresses ↦ addresses | err _ ↦ [] ] in
      (
        (
          some (record { tunnel_up = up; wan_ipv4 = wan; missing_ipv6_addresses = found }),
          error_of missing,
        ),
        s3,
      )

  -- the address in the output of `ip -6 route get`, empty where there is none to prefer
  unfoldable pub source_of : String × Option Error → String
  source_of (output, some _) = ""
  source_of (output, none) = elim (system.find_source output) [
    | none ↦ ""
    | some value ↦ elim (system.net.parse_addr value) [
      | err _ ↦ ""
      | ok a ↦ if is_preferred_source system a then system.net.addr_string a else ""
    ]
  ]

  -- func (b *SystemBackend) resolveProbeSourceAddress
  unfoldable pub resolve_probe_source : String → Exec W String
  unfolding source_of
  resolve_probe_source target = do
    result ← combined_output system "ip" ("-6" ∷ "route" ∷ "get" ∷ target ∷ [])
    give (source_of result)

  unfoldable pub ping_result : String × Option Error → ProbeResult
  ping_result (output, some _) = record { ping_ok = false; ping_ms = 0 }
  ping_result (output, none) = elim (system.find_time output) [
    | none ↦ record { ping_ok = true; ping_ms = 0 }
    | some value ↦ elim (system.parse_millis value) [
      | err _ ↦ record { ping_ok = true; ping_ms = 0 }
      | ok ms ↦ record { ping_ok = true; ping_ms = ms }
    ]
  ]

  -- func (b *SystemBackend) Probe
  unfoldable pub probe : String → Exec W ProbeResult
  unfolding resolve_probe_source ping_result
  probe target = do
    source ← resolve_probe_source target
    result ← combined_output system "ping" (
        "-6"
        ∷ "-n"
        ∷ "-c"
        ∷ "1"
        ∷ "-W"
        ∷ "3"
        ∷ ((if source == "" then [] else "-I" ∷ source ∷ []) ++ target ∷ []))
    give (ping_result result)

  -- SystemBackend as the interface Backend
  unfoldable pub system_backend : Backend (Machine W)
  unfolding system_reconcile observe probe
  system_backend = record {
    reconcile = system_reconcile;
    observe = observe;
    probe = probe;
    repair_addresses =
        λ cfg s. let (result, s1) = repair_addresses system cfg s in (error_of result, s1);
  }
