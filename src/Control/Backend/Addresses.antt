-- ===== src/Control/Backend/Addresses.antt =====
-- The managed IPv6 addresses in internal/control/backend.go: how the output of `ip -6 addr show` is
-- read, and `ensureIPv6AddressPresent`, `RepairAddresses` and `collectMissingManagedIPv6Addresses`.
use unifi_6in.Prelude.{
  String, Bool, true, false, ◌&&◌, ◌||◌, Option, none, some, List, [], ◌∷◌, ◌++◌, nat_eq,
  if◌then◌else◌, ◌==◌,
}
use unifi_6in.Text.{◌<>◌, itoa, lines, fields}
use unifi_6in.Errors.{Result, ok, err, wrap}
use unifi_6in.Net.{Family, invalid, v4, v6, Prefix, next, network_addr}
use unifi_6in.Tunnel.{interface_name}
use unifi_6in.Config.Types.{NetworkConfig, Config}
use unifi_6in.Config.Validation.{contains_string}
use unifi_6in.Control.Backend.Exec.{
  System, Exec, ◌>>=◌, ◌>>◌, give, lift, combined_output, or_fail, run,
}

pub data AddressState : Type 0 where
  address_missing : AddressState
  address_healthy : AddressState
  address_unhealthy : AddressState

abbrev pub same_family : Family → Family → Bool
same_family invalid f = elim f [ invalid ↦ true | _ ↦ false ]
same_family v4 f = elim f [ v4 ↦ true | _ ↦ false ]
same_family v6 f = elim f [ v6 ↦ true | _ ↦ false ]

-- p == q of netip.Prefix
unfoldable pub same_prefix : Prefix → Prefix → Bool
same_prefix p q =
    same_family p.addr.family q.addr.family
    && nat_eq p.addr.number q.addr.number
    && p.addr.zone == q.addr.zone
    && nat_eq p.bits q.bits

-- `flag == "dadfailed" || flag == "tentative"` for one of the flags
unfoldable pub is_unusable : List String → Bool
is_unusable flags = contains_string flags "dadfailed" || contains_string flags "tentative"

-- the fields of a line of an address: its prefix and its flags
unfoldable pub address_line : List String → Option (String × List String)
address_line [] = none
address_line (_ ∷ []) = none
address_line (kind ∷ prefix ∷ flags) = if kind == "inet6" then some (prefix, flags) else none

module _ {W : Type 0} (system : System W) where
  -- a line of `ip -6 addr show` that netip can read
  unfoldable pub read_line : String → Option (Prefix × List String)
  unfolding address_line
  read_line line = elim (address_line (fields line)) [
    | none ↦ none
    | some (prefix, flags) ↦ elim (system.net.parse_prefix prefix) [
      | err _ ↦ none
      | ok p ↦ some (p, flags)
    ]
  ]

  unfoldable pub find_state : List String → Prefix → AddressState
  find_state [] desired = address_missing
  find_state (l ∷ ls) desired =
      let rest = find_state ls desired in
      elim (read_line l) [
        | none ↦ rest
        | some (existing, flags) ↦
            if same_prefix existing desired
            then (if is_unusable flags then address_unhealthy else address_healthy)
            else rest
      ]

  -- func findIPv6PrefixState
  unfoldable pub find_ipv6_prefix_state : String → Prefix → AddressState
  unfolding find_state
  find_ipv6_prefix_state output desired = find_state (lines output) desired

  unfoldable pub has_problem : List String → Bool
  has_problem [] = false
  has_problem (l ∷ ls) =
      let rest = has_problem ls in
      elim (read_line l) [
        | none ↦ rest
        | some (existing, flags) ↦
            if system.is_link_local existing.addr && is_unusable flags then true else rest
      ]

  -- func hasProblematicLinkLocal
  unfoldable pub has_problematic_link_local : String → Bool
  unfolding has_problem
  has_problematic_link_local output = has_problem (lines output)

  -- func gatewayForPrefix
  unfoldable pub gateway_for_prefix : String → Result String
  gateway_for_prefix value = elim (system.net.parse_prefix value) [
    | err e ↦ wrap "parse gateway prefix: " "" (err e)
    | ok prefix ↦
        ok (system.net.addr_string (next (network_addr prefix)) <> "/" <> itoa prefix.bits)
  ]

  -- func (b *SystemBackend) queryInterfaceIPv6Address
  unfoldable pub query_address : String → String → Exec W AddressState
  query_address interface value = do
    desired ← lift (
        wrap ("parse IPv6 prefix " <> system.net.quote value <> ": ") ""
          (system.net.parse_prefix value))
    result ← combined_output system "ip" ("-6" ∷ "addr" ∷ "show" ∷ "dev" ∷ interface ∷ [])
    output ← lift (or_fail system ("read IPv6 addresses on " <> interface <> ": ") result)
    give (find_ipv6_prefix_state output desired)

  abbrev pub add_address : String → String → Exec W (Unit {0})
  add_address interface value =
      run system "ip" ("-6" ∷ "addr" ∷ "add" ∷ value ∷ "dev" ∷ interface ∷ [])

  abbrev pub del_address : String → String → Exec W (Unit {0})
  del_address interface value =
      run system "ip" ("-6" ∷ "addr" ∷ "del" ∷ value ∷ "dev" ∷ interface ∷ [])

  -- the switch of ensureIPv6AddressPresent
  unfoldable pub ensure_state : String → String → AddressState → Exec W (Unit {0})
  ensure_state interface value address_healthy = give tt
  ensure_state interface value address_unhealthy =
      del_address interface value >> add_address interface value
  ensure_state interface value address_missing = add_address interface value

  -- func (b *SystemBackend) ensureIPv6AddressPresent
  unfoldable pub ensure_address : String → String → Exec W (Unit {0})
  unfolding query_address ensure_state
  ensure_address interface value = do
    state ← query_address interface value
    ensure_state interface value state

  -- the loop of RepairAddresses
  unfoldable pub ensure_gateways : List NetworkConfig → Exec W (Unit {0})
  ensure_gateways [] = give tt
  ensure_gateways (network ∷ networks) = do
    gateway ← lift (gateway_for_prefix network.prefix)
    _ ← ensure_address network.interface gateway
    ensure_gateways networks

  -- RepairAddresses of a configuration whose tunnel is switched on
  unfoldable pub repair_enabled : Config → Exec W (Unit {0})
  unfolding ensure_gateways
  repair_enabled cfg = do
    _ ← ensure_address interface_name cfg.tunnel.local_ipv6
    if cfg.lan.enabled then ensure_gateways cfg.lan.networks else give tt

  -- func (b *SystemBackend) RepairAddresses
  unfoldable pub repair_addresses : Config → Exec W (Unit {0})
  unfolding repair_enabled
  repair_addresses cfg = if cfg.tunnel.enabled then repair_enabled cfg else give tt

  -- what appendMissingIPv6Address appends
  unfoldable pub missing_reason : String → String → AddressState → List String
  missing_reason interface value address_healthy = []
  missing_reason interface value address_unhealthy = (interface <> " unhealthy " <> value) ∷ []
  missing_reason interface value address_missing = (interface <> " missing " <> value) ∷ []

  -- func (b *SystemBackend) appendMissingIPv6Address
  unfoldable pub append_missing : List String → String → String → Exec W (List String)
  append_missing found interface value = do
    state ← query_address interface value
    give (found ++ missing_reason interface value state)

  -- the loop of collectMissingManagedIPv6Addresses
  unfoldable pub missing_gateways : List String → List NetworkConfig → Exec W (List String)
  missing_gateways found [] = give found
  missing_gateways found (network ∷ networks) = do
    gateway ← lift (gateway_for_prefix network.prefix)
    found' ← append_missing found network.interface gateway
    missing_gateways found' networks

  unfoldable pub missing_enabled : Config → Exec W (List String)
  unfolding missing_gateways
  missing_enabled cfg = do
    found ← append_missing [] interface_name cfg.tunnel.local_ipv6
    if cfg.lan.enabled then missing_gateways found cfg.lan.networks else give found

  -- func (b *SystemBackend) collectMissingManagedIPv6Addresses
  unfoldable pub collect_missing : Option Config → Exec W (List String)
  unfolding missing_enabled
  collect_missing none = give []
  collect_missing (some cfg) = if cfg.tunnel.enabled then missing_enabled cfg else give []
