-- ===== src/Control/Backend/Dataplane.antt =====
-- SystemBackend of internal/control/backend.go: its `Reconcile`, `Observe` and `Probe`, with what
-- they call, and the backend that the service is given.
use unifi_6in.Prelude.{
  ◌-◌, ◌+◌, String, ℤ, pos, negsuc, is_positive, Bool, not, ◌&&◌, Option, none, some, List, [], ◌∷◌,
  ◌++◌, leb, ltb, if◌then◌else◌, ◌==◌,
}
use unifi_6in.Text.{◌<>◌, itoa}
use unifi_6in.Errors.{Error, plain, Result, ok, err, wrap}
use unifi_6in.Net.{Addr, is6}
use unifi_6in.Tunnel.{interface_name}
use unifi_6in.Config.Types.{NetworkConfig, Config}
use unifi_6in.Config.Validation.{contains_string}
use unifi_6in.Control.Backend.Exec.{
  System, Exec, ◌>>=◌, give, lift, combined_output, or_fail, run, run_best_effort, sleep_ms,
}
use unifi_6in.Control.Backend.Addresses.{
  has_problematic_link_local, gateway_for_prefix, ensure_address,
}

abbrev pub chain_input : String
chain_input = "IPV6TUNNEL_INPUT"

abbrev pub chain_forward : String
chain_forward = "IPV6TUNNEL_FORWARD"

abbrev pub chain_mss : String
chain_mss = "IPV6TUNNEL_MSS"

-- `%d` of an int
unfoldable pub int_text : ℤ → String
int_text (pos n) = itoa n
int_text (negsuc n) = "-" <> itoa (n + 1)

-- wanMTU - tunnelOverhead, and its test against the minimum of IPv6
unfoldable pub tunnel_mtu : ℤ → Result ℤ
unfolding int_text
tunnel_mtu (negsuc n) =
    err (
      plain ("resolved tunnel MTU " <> int_text (negsuc (n + 20)) <> " is below IPv6 minimum 1280"))
tunnel_mtu (pos n) =
    let low = if leb 20 n then pos (n - 20) else negsuc (19 - n) in
    if ltb n 1300
    then err (plain ("resolved tunnel MTU " <> int_text low <> " is below IPv6 minimum 1280"))
    else ok low

abbrev pub error_of {ℓ} : {A : Type ℓ} → Result A → Option Error
error_of (ok _) = none
error_of (err e) = some e

module _ {W : Type 0} (system : System W) where
  abbrev pub quiet : String → List String → Exec W (Unit {0})
  quiet = run_best_effort system

  abbrev found_or : Error → Option String → Result String
  found_or e none = err e
  found_or e (some s) = ok s

  -- func (b *SystemBackend) getWANIPv4
  unfoldable pub get_wan_ipv4 : String → Exec W String
  get_wan_ipv4 interface = do
    result ← combined_output system "ip" ("-4" ∷ "addr" ∷ "show" ∷ interface ∷ [])
    output ← lift (or_fail system "read WAN IPv4: " result)
    lift (found_or (plain ("WAN IPv4 not found on " <> interface)) (system.find_ipv4 output))

  -- func (b *SystemBackend) getInterfaceMTU
  unfoldable pub get_interface_mtu : String → Exec W ℤ
  get_interface_mtu interface = do
    result ← combined_output system "ip" ("link" ∷ "show" ∷ interface ∷ [])
    output ← lift (or_fail system "read interface MTU: " result)
    digits ← lift (found_or (plain ("MTU not found on " <> interface)) (system.find_mtu output))
    lift (wrap ("parse MTU on " <> interface <> ": ") "" (system.atoi digits))

  unfoldable pub read_tunnel_mtu : String → Exec W ℤ
  read_tunnel_mtu interface = do wan_mtu ← get_interface_mtu interface; lift (tunnel_mtu wan_mtu)

  -- func (b *SystemBackend) resolveTunnelMTU
  unfoldable pub resolve_tunnel_mtu : ℤ → String → Exec W ℤ
  unfolding read_tunnel_mtu
  resolve_tunnel_mtu configured interface =
      if is_positive configured then give configured else read_tunnel_mtu interface

  abbrev pub set_sysctl : String → Exec W (Unit {0})
  set_sysctl setting = run system "sysctl" ("-w" ∷ setting ∷ [])

  -- the toggle of disable_ipv6 in ensureLANInterfaceReady
  unfoldable pub reset_ipv6 : String → Exec W (Unit {0})
  reset_ipv6 interface = do
    _ ← set_sysctl ("net.ipv6.conf." <> interface <> ".disable_ipv6=1")
    _ ← sleep_ms system 300
    _ ← set_sysctl ("net.ipv6.conf." <> interface <> ".disable_ipv6=0")
    sleep_ms system 500

  -- func (b *SystemBackend) ensureLANInterfaceReady
  unfoldable pub ensure_lan_ready : String → Exec W (Unit {0})
  unfolding reset_ipv6
  ensure_lan_ready interface = do
    _ ← set_sysctl ("net.ipv6.conf." <> interface <> ".accept_dad=0")
    result ← combined_output system "ip" ("-6" ∷ "addr" ∷ "show" ∷ "dev" ∷ interface ∷ [])
    output ← lift (or_fail system ("read IPv6 addresses on " <> interface <> ": ") result)
    if has_problematic_link_local system output then reset_ipv6 interface else give tt

  -- the loop of Reconcile over the networks, `managed` being the interfaces so far
  unfoldable pub set_up_networks : List String → List NetworkConfig → Exec W (Unit {0})
  set_up_networks managed [] = give tt
  set_up_networks managed (network ∷ networks) = do
    _ ←
        if contains_string managed network.interface
        then give tt
        else ensure_lan_ready network.interface
    gateway ← lift (gateway_for_prefix system network.prefix)
    _ ← ensure_address system network.interface gateway
    set_up_networks (network.interface ∷ managed) networks

  -- func isPreferredIPv6SourceAddress
  unfoldable pub is_preferred_source : Addr → Bool
  is_preferred_source a = is6 a && system.is_global_unicast a && not (system.is_private a)

  -- func addressFromPrefix
  unfoldable pub address_from_prefix : String → Result Addr
  address_from_prefix value = elim (system.net.parse_prefix value) [
    | err e ↦ wrap "parse IPv6 prefix: " "" (err e)
    | ok prefix ↦ ok prefix.addr
  ]

  -- an address of selectDefaultRouteSource, or else the rest of the search
  abbrev preferred_or : Result String → Addr → Result String
  preferred_or rest a = if is_preferred_source a then ok (system.net.addr_string a) else rest

  -- the loop of selectDefaultRouteSource
  unfoldable pub gateway_source : List NetworkConfig → Result String
  gateway_source [] = ok ""
  gateway_source (network ∷ networks) =
      let rest = gateway_source networks in
      elim (gateway_for_prefix system network.prefix) [
        | err e ↦ err e
        | ok gateway ↦ elim (address_from_prefix gateway) [
          | err e ↦ err e
          | ok a ↦ preferred_or rest a
        ]
      ]

  -- func selectDefaultRouteSource
  unfoldable pub select_source : Config → Result String
  unfolding gateway_source
  select_source cfg = elim (address_from_prefix cfg.tunnel.local_ipv6) [
    | err e ↦ err e
    | ok a ↦ preferred_or (gateway_source cfg.lan.networks) a
  ]

  -- func buildDefaultRouteArgs
  unfoldable pub default_route_args : Config → Result (List String)
  unfolding select_source
  default_route_args cfg =
      let args = "-6" ∷ "route" ∷ "replace" ∷ "::/0" ∷ "dev" ∷ interface_name ∷ [] in
      elim (select_source cfg) [
        | err e ↦ err e
        | ok source ↦ ok (if source == "" then args else args ++ "src" ∷ source ∷ [])
      ]
