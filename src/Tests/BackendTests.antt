-- ===== src/Tests/BackendTests.antt =====
-- The theorems about SystemBackend of internal/control/backend.go applied to a sample system, on
-- which every command succeeds.
use unifi_6in.Prelude.{
  if◌then◌else◌, ◌||◌, [], String, List, ◌++◌, ◌∷◌, ◌+◌, ◌≡◌, refl, pos, true, false, none, some,
  All,
}
use unifi_6in.Text.{has_colon, itoa, fields, lines, trim_space}
use unifi_6in.Errors.{is_not_exist, plain, ok, err}
use unifi_6in.Config.Validation.{contains_string}
use unifi_6in.Control.State.{empty_applied_state}
use unifi_6in.Control.Platform.{Platform, ReconcileInput}
use unifi_6in.Control.Backend.Exec.{
  System, Machine, continue, combined_output, run, run_error, run_best_effort, sleep_ms,
}
use unifi_6in.Control.Backend.Addresses.{
  address_missing, address_healthy, address_unhealthy, read_line, repair_addresses, ensure_address,
  ensure_state, query_address, find_ipv6_prefix_state, gateway_for_prefix,
  has_problematic_link_local,
}
use unifi_6in.Control.Backend.Dataplane.{
  resolve_tunnel_mtu, read_tunnel_mtu, get_wan_ipv4, get_interface_mtu, tunnel_mtu, int_text,
  set_up_networks, ensure_lan_ready, reset_ipv6, is_preferred_source, address_from_prefix,
  select_source, default_route_args,
}
use unifi_6in.Control.Backend.Converge.{system_backend, system_reconcile, converge, prepare, set_up}
use unifi_6in.Control.Backend.Firewall.{teardown, remove_gateways, remove_route}
use unifi_6in.Control.Backend.Traces.{
  Satisfies, is_address_command, is_removal, fresh, repair_addresses-commands, system_reconcile-off,
}
use unifi_6in.Net.{Prefix}
use unifi_6in.Control.Backend.States.{IsOther, IsAddress, find_ipv6_prefix_state-first}
use unifi_6in.Control.Backend.Laws.{IsResolved, system_reconcile-mtu}
use unifi_6in.Control.Interleaving.Soundness.{IsSound}
use unifi_6in.Control.Lifetime.{lifetime-IsSound}
use unifi_6in.Control.Interleaving
use unifi_6in.Control.Interleaving.{update, reconcile, stop}
use unifi_6in.Control.Reconcile.{Service}
use unifi_6in.Control.Service.{new_service, load_or_create, start, switch}
use unifi_6in.Control.Platform.{load_state}
use unifi_6in.Config.Storage.{
  load_document, parse_document, is_profiles_format, has_profiles_key, parse_profiles_document,
  document_of_raw, validated,
}
use unifi_6in.Config.Raw.{build_raw_profile_document}
use unifi_6in.Config.Documents.{validate_document, active_config, profiles_reasons}
use unifi_6in.Config.Defaults.{
  config_defaults, document_defaults, profile_config_defaults, tunnel_defaults, lan_defaults,
  health_defaults, server_defaults,
}
use unifi_6in.Config.Validation.{
  refresh_profile_validation, validate_profile_config, validate_server_config,
}
use unifi_6in.Tests.ControlTests.{sample_disk}
use unifi_6in.Tests.Fixtures.{
  sample_service, sample_addr, Stored, Disk, found, empty_disk, sample_net, sample_json,
  sample_platform, sample_config, sample_tunnel,
}

abbrev sample_system : System Disk
sample_system = record {
  net = sample_net;
  is_link_local = λ _. false;
  is_global_unicast = λ _. true;
  is_private = λ _. false;
  find_ipv4 = λ _. some "198.51.100.7";
  find_mtu = λ _. some "1500";
  find_time = λ _. none;
  find_source = λ _. none;
  atoi = λ _. ok (pos 1500);
  parse_millis = λ _. ok 12;
  execute = λ _ w. (("", none), w);
  sleep = λ ms w. record w { clock = w.clock + ms };
}

-- the tunnel switched on, its MTU to be found
abbrev sample_input : ReconcileInput
sample_input = record {
  config = record sample_config { tunnel = record sample_tunnel { enabled = true; mtu = pos 0 } };
  config_valid = true;
  force = false;
  applied = empty_applied_state;
}

repair_addresses-commands_example :
    All
      (Satisfies is_address_command)
      (repair_addresses sample_system sample_config (fresh empty_disk)).1.commands
repair_addresses-commands_example = repair_addresses-commands sample_system sample_config empty_disk

abbrev invalid_input : ReconcileInput
invalid_input = record sample_input { config_valid = false }

system_reconcile-off_example :
    ((system_reconcile sample_system invalid_input (fresh empty_disk)).0
      ≡ (none, invalid_input.config))
    × All
        (Satisfies is_removal)
        (system_reconcile sample_system invalid_input (fresh empty_disk)).1.commands
system_reconcile-off_example = system_reconcile-off sample_system invalid_input empty_disk refl

sample_converges : (system_reconcile sample_system sample_input (fresh empty_disk)).0.0 ≡ none
unfolding system_reconcile teardown remove_gateways remove_route converge prepare set_up continue
    combined_output run run_error run_best_effort sleep_ms resolve_tunnel_mtu read_tunnel_mtu
    get_wan_ipv4 get_interface_mtu tunnel_mtu set_up_networks ensure_lan_ready reset_ipv6
    is_preferred_source address_from_prefix select_source default_route_args ensure_address
    ensure_state query_address find_ipv6_prefix_state gateway_for_prefix has_problematic_link_local
    read_line contains_string has_colon itoa fields lines trim_space int_text
sample_converges = refl

system_reconcile-mtu_example :
    IsResolved sample_system
      (pos 0)
      (system_reconcile sample_system sample_input (fresh empty_disk)).0.1.tunnel.mtu
system_reconcile-mtu_example =
    system_reconcile-mtu sample_system sample_input (fresh empty_disk) refl refl sample_converges

-- the sample platform with the system's backend, on which no interface is found
abbrev real_platform : Platform Stored (Machine Disk)
real_platform = record {
  net = sample_net;
  json = sample_json;
  backend = system_backend sample_system;
  ra = record {
    interface_by_name = λ _ m. (err (plain "no such interface"), m);
    listen = λ _ m. (err (plain "no such interface"), m);
    close = λ _ m. m;
    quote = λ s. s;
  };
  now = λ m. (m.world.clock, m);
  config_file = record {
    read_file = λ m. found m.world.config;
    write_atomically =
        λ text m. (none, record m { world = record (m.world) { config = some text } });
  };
  state_file = record {
    read_file = λ m. found m.world.state;
    write_atomically =
        λ text m. (none, record m { world = record (m.world) { state = some text } });
  };
  encode_state = sample_platform.encode_state;
  decode_state = sample_platform.decode_state;
}

abbrev real_service : Service (Machine Disk)
real_service = record {
  document = sample_service.document;
  config = sample_service.config;
  state = sample_service.state;
  advertiser = none;
  world = fresh sample_disk;
}

real_created : (new_service real_platform (fresh sample_disk)).0 ≡ ok real_service
unfolding new_service load_or_create load_document load_state parse_document is_profiles_format
    has_profiles_key parse_profiles_document document_of_raw validated build_raw_profile_document
    is_not_exist validate_document refresh_profile_validation document_defaults server_defaults
    trim_space validate_server_config validate_profile_config profile_config_defaults
    tunnel_defaults health_defaults has_colon lan_defaults active_config itoa profiles_reasons
    config_defaults
real_created = refl

lifetime-IsSound_example : IsSound real_platform (
    Interleaving.run real_platform
      (update (some (switch false sample_service.document)) ∷ reconcile true ∷ stop ∷ [])
      (start real_platform real_service).1)
lifetime-IsSound_example =
    lifetime-IsSound sample_system real_platform refl (fresh sample_disk) real_service real_created
      (update (some (switch false sample_service.document)) ∷ reconcile true ∷ stop ∷ [])

-- two lines of addresses
abbrev sample_output : String
sample_output = "4: br0\n  inet6 fe80::1/64 scope link\n  inet6 2001:db8::1/64 dadfailed"

find_ipv6_prefix_state-first_example :
    let desired : Prefix = record { addr = sample_addr; bits = 64 } in
    (All (IsOther sample_system desired) (lines sample_output)
      → find_ipv6_prefix_state sample_system sample_output desired ≡ address_missing)
    × ((before : List String) (line : String) (after flags : List String)
        → lines sample_output ≡ before ++ line ∷ after
        → All (IsOther sample_system desired) before
        → IsAddress sample_system desired line flags
        → find_ipv6_prefix_state sample_system sample_output desired ≡ (
            if contains_string flags "dadfailed" || contains_string flags "tentative"
            then address_unhealthy
            else address_healthy))
find_ipv6_prefix_state-first_example =
    find_ipv6_prefix_state-first sample_system (record { addr = sample_addr; bits = 64 })
      sample_output
