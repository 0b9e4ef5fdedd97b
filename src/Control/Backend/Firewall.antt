-- ===== src/Control/Backend/Firewall.antt =====
-- The chains of the firewall in internal/control/backend.go, and `teardown`.
use unifi_6in.Prelude.{String, not, ◌&&◌, none, some, List, [], ◌∷◌, ◌++◌, if◌then◌else◌, ◌==◌}
use unifi_6in.Text.{◌<>◌}
use unifi_6in.Errors.{ok, err}
use unifi_6in.Tunnel.{interface_name, NetworkStatus}
use unifi_6in.Control.State.{AppliedState}
use unifi_6in.Control.Backend.Exec.{System, Exec, ◌>>=◌, ◌>>◌, give, combined_output}
use unifi_6in.Control.Backend.Addresses.{gateway_for_prefix}
use unifi_6in.Control.Backend.Dataplane.{chain_input, chain_forward, chain_mss, quiet}

module _ {W : Type 0} (system : System W) where
  -- func (b *SystemBackend) removeJump and removeJumpTable, `table` being empty or `-t` with a
  -- table
  abbrev pub remove_jump : String → List String → String → String → Exec W (Unit {0})
  remove_jump binary table parent target =
      quiet system binary (table ++ "-D" ∷ parent ∷ "-j" ∷ target ∷ [])

  -- func (b *SystemBackend) ensureJump and ensureJumpTable
  unfoldable pub ensure_jump : String → List String → String → String → Exec W (Unit {0})
  ensure_jump binary table parent target = do
    result ← combined_output system binary (table ++ "-C" ∷ parent ∷ "-j" ∷ target ∷ [])
    elim (result.1) [
      | none ↦ give tt
      | some _ ↦ quiet system binary (table ++ "-I" ∷ parent ∷ "-j" ∷ target ∷ [])
    ]

  abbrev mangle : List String
  mangle = "-t" ∷ "mangle" ∷ []

  -- the loop of teardown over the networks
  unfoldable pub remove_gateways : List NetworkStatus → Exec W (Unit {0})
  remove_gateways [] = give tt
  remove_gateways (network ∷ networks) = elim (gateway_for_prefix system network.prefix) [
    | err _ ↦ remove_gateways networks
    | ok gateway ↦
        quiet system "ip" ("-6" ∷ "addr" ∷ "del" ∷ gateway ∷ "dev" ∷ network.interface ∷ [])
        >> remove_gateways networks
  ]

  -- the chains of teardown
  unfoldable pub remove_chains : Exec W (Unit {0})
  remove_chains = do
    _ ← remove_jump "iptables" [] "INPUT" chain_input
    _ ← quiet system "iptables" ("-F" ∷ chain_input ∷ [])
    _ ← quiet system "iptables" ("-X" ∷ chain_input ∷ [])
    _ ← remove_jump "ip6tables" [] "FORWARD" chain_forward
    _ ← quiet system "ip6tables" ("-F" ∷ chain_forward ∷ [])
    _ ← quiet system "ip6tables" ("-X" ∷ chain_forward ∷ [])
    _ ← remove_jump "ip6tables" mangle "FORWARD" chain_mss
    _ ← quiet system "ip6tables" ("-t" ∷ "mangle" ∷ "-F" ∷ chain_mss ∷ [])
    quiet system "ip6tables" ("-t" ∷ "mangle" ∷ "-X" ∷ chain_mss ∷ [])

  unfoldable pub remove_route : AppliedState → Exec W (Unit {0})
  remove_route applied =
      if not (applied.remote_endpoint == "") && not (applied.wan_interface == "")
      then quiet system "ip" (
          "route" ∷ "del" ∷ (applied.remote_endpoint <> "/32") ∷ "dev" ∷ applied.wan_interface ∷ [])
      else give tt

  -- func (b *SystemBackend) teardown
  unfoldable pub teardown : AppliedState → Exec W (Unit {0})
  unfolding remove_chains remove_gateways remove_route
  teardown applied = do
    _ ← remove_chains
    _ ← remove_gateways applied.networks
    _ ← remove_route applied
    _ ← quiet system "ip" ("-6" ∷ "route" ∷ "del" ∷ "::/0" ∷ "dev" ∷ interface_name ∷ [])
    quiet system "ip" ("tunnel" ∷ "del" ∷ interface_name ∷ [])

  -- the IPv4 chain of Reconcile
  unfoldable pub add_input_chain : String → Exec W (Unit {0})
  unfolding ensure_jump
  add_input_chain wan = do
    _ ← quiet system "iptables" ("-N" ∷ chain_input ∷ [])
    _ ← quiet system "iptables" ("-F" ∷ chain_input ∷ [])
    _ ←
        quiet system "iptables"
          ("-A" ∷ chain_input ∷ "-i" ∷ wan ∷ "-p" ∷ "41" ∷ "-j" ∷ "ACCEPT" ∷ [])
    ensure_jump "iptables" [] "INPUT" chain_input

  abbrev append_forward : List String → Exec W (Unit {0})
  append_forward rule = quiet system "ip6tables" ("-A" ∷ chain_forward ∷ rule)

  -- the IPv6 chain of Reconcile
  unfoldable pub add_forward_chain : Exec W (Unit {0})
  unfolding ensure_jump
  add_forward_chain = do
    _ ← quiet system "ip6tables" ("-N" ∷ chain_forward ∷ [])
    _ ← quiet system "ip6tables" ("-F" ∷ chain_forward ∷ [])
    _ ← append_forward (
        "-i" ∷ interface_name ∷ "-m" ∷ "state" ∷ "--state" ∷ "ESTABLISHED,RELATED" ∷ "-j" ∷ "ACCEPT"
        ∷ [])
    _ ← append_forward ("-o" ∷ interface_name ∷ "-j" ∷ "ACCEPT" ∷ [])
    _ ←
        append_forward
          ("-i" ∷ interface_name ∷ "-m" ∷ "state" ∷ "--state" ∷ "NEW" ∷ "-j" ∷ "DROP" ∷ [])
    ensure_jump "ip6tables" [] "FORWARD" chain_forward

  -- the MSS chain of Reconcile
  unfoldable pub add_mss_chain : Exec W (Unit {0})
  unfolding ensure_jump
  add_mss_chain = do
    _ ← quiet system "ip6tables" ("-t" ∷ "mangle" ∷ "-N" ∷ chain_mss ∷ [])
    _ ← quiet system "ip6tables" ("-t" ∷ "mangle" ∷ "-F" ∷ chain_mss ∷ [])
    _ ← quiet system "ip6tables" (
        "-t" ∷ "mangle" ∷ "-A" ∷ chain_mss ∷ "-o" ∷ interface_name ∷ "-p" ∷ "tcp" ∷ "--tcp-flags"
        ∷ "SYN,RST" ∷ "SYN" ∷ "-j" ∷ "TCPMSS" ∷ "--clamp-mss-to-pmtu" ∷ [])
    ensure_jump "ip6tables" mangle "FORWARD" chain_mss
