-- ===== src/Tests/ControlTests.antt =====
-- The theorems about internal/control applied to the sample platform.
use unifi_6in.Prelude.{
  ℕ, ◌≡◌, ◌≤◌, ◌<◌, ◌*◌, ◌^◌, refl, pos, true, false, not, ◌&&◌, ◌||◌, none, some, [], ◌∷◌, ◌==◌,
  starts_with, arith, eq_iff, if◌then◌else◌,
}
use unifi_6in.Errors.{plain, ok, is_not_exist}
use unifi_6in.Text.{trim_space, has_colon, itoa}
use unifi_6in.Tunnel.{
  reconcile_idle, reconcile_reconciling, reconcile_down, reason_health_probe_failed,
}
use unifi_6in.Config.Defaults.{
  config_defaults, document_defaults, profile_config_defaults, tunnel_defaults, lan_defaults,
  health_defaults, server_defaults,
}
use unifi_6in.Config.Validation.{
  contains_string, validate_config, config_reasons, refresh_profile_validation,
  validate_profile_config, validate_server_config,
}
use unifi_6in.Config.Documents.{validate_document, active_config, active_profile, profiles_reasons}
use unifi_6in.Config.Storage.{
  save_document, save_checked, save_profiles, write_profiles, write_data, should_save_legacy,
  load_document, parse_document, is_profiles_format, has_profiles_key, parse_profiles_document,
  document_of_raw, validated,
}
use unifi_6in.Config.Raw.{build_raw_profile_document}
use unifi_6in.Control.State.{empty_applied_state}
use unifi_6in.Control.Platform.{save_state, load_state}
use unifi_6in.Control.Reasons.{managed_prefix, managed_reasons, first_reason, validation_reasons}
use unifi_6in.Control.Reasons.Laws.{has_error}
use unifi_6in.Control.Reconcile.{
  Service, wants_advertiser, reconcile_locked, stop_advertiser, begin, drive, call_reconcile,
  maybe_start, start_advertiser, advertiser_config, call_observe, call_probe, run_probe, finish,
  network_entries, resolve_ra_dns,
}
use unifi_6in.Control.Outcome.{build_observe_input}
use unifi_6in.Control.Outcome.{outcome_error, conclude}
use unifi_6in.Control.Service.Durability.{update_config_document-IsDurable}
use unifi_6in.Tests.ConfigTests.{sample_ReadsBack}
use unifi_6in.Control.Service.{
  update_config_document, mutate_from, switch, down, new_service, load_or_create, after_validate,
  after_active, apply_document, after_reconcile, after_save, preserve_startup_fields,
}
use unifi_6in.Control.Service.Laws.{Updates, update_config_document-Updates}
use unifi_6in.Control.Service.Switch.{down-success, mutate_from-forgets}
use unifi_6in.Control.Health.{Checkup, record_checkup, health_interval}
use unifi_6in.Control.Health.Laws.{health_interval_bounds, contains-record_checkup}
use unifi_6in.Control.Interleaving.Soundness.{KeepsSwitch, IsSound}
use unifi_6in.Ra.{new_advertiser, open_conns}
use unifi_6in.Tests.Fixtures.{
  profiles, Disk, sample_tunnel, empty_disk, sample_platform, sample_document, sample_config,
  sample_service,
}

pub sample_KeepsSwitch : KeepsSwitch sample_platform
sample_KeepsSwitch i w = refl

update_config_document-Updates_example :
    Updates sample_platform sample_document sample_service
      (update_config_document sample_platform (some sample_document) sample_service)
update_config_document-Updates_example =
    update_config_document-Updates sample_platform sample_document sample_service

sample_IsSound : IsSound sample_platform sample_service
unfolding active_config config_defaults tunnel_defaults lan_defaults health_defaults server_defaults
    trim_space first_reason
sample_IsSound = record {
  coherent = refl;
  last_error = refl;
  settled = ground (arith, eq_iff reconcile_idle reconcile_reconciling);
  quiet = λ _. refl;
}

-- a checkup that has found the tunnel down
abbrev sample_checkup : Checkup
sample_checkup = record {
  observe_error = some (plain "no interface");
  observation = record {
    tunnel_up = false;
    wan_ipv4 = "";
    missing_ipv6_addresses = "2001:db8::2" ∷ [];
  };
  probe = record { ping_ok = false; ping_ms = 0 };
  probe_time = none;
}

sample_down : (down sample_platform sample_service).0 ≡ none
unfolding down after_validate after_active apply_document reconcile_locked stop_advertiser begin
    drive call_reconcile maybe_start start_advertiser advertiser_config network_entries
    resolve_ra_dns call_observe call_probe run_probe finish outcome_error save_state after_reconcile
    after_save save_document save_checked save_profiles write_profiles write_data should_save_legacy
    validate_config new_advertiser open_conns wants_advertiser preserve_startup_fields
    build_observe_input conclude validation_reasons active_profile config_reasons validate_document
    refresh_profile_validation document_defaults server_defaults trim_space validate_server_config
    validate_profile_config profile_config_defaults tunnel_defaults health_defaults has_colon
    lan_defaults active_config itoa profiles_reasons config_defaults
sample_down = refl

down-success_example :
    ((down sample_platform sample_service).1.document.tunnel_enabled ≡ false)
    × ((down sample_platform sample_service).1.config.tunnel.enabled ≡ false)
    × ((down sample_platform sample_service).1.state.status.reconcile_state ≡ reconcile_down)
    × ((down sample_platform sample_service).1.state.applied ≡ empty_applied_state)
    × ((down sample_platform sample_service).1.advertiser ≡ none)
down-success_example = down-success sample_platform sample_KeepsSwitch sample_service sample_down

-- the sample service after the tunnel has been switched off
abbrev switched_off : Service Disk
switched_off = record sample_service {
  document = switch false sample_document;
  config = record sample_config { tunnel = sample_tunnel };
}

sample_up : (mutate_from sample_platform (switch true) sample_document sample_service).0 ≡ none
unfolding mutate_from after_validate after_active apply_document reconcile_locked stop_advertiser
    begin drive call_reconcile maybe_start start_advertiser advertiser_config network_entries
    resolve_ra_dns call_observe call_probe run_probe finish outcome_error save_state after_reconcile
    after_save save_document save_checked save_profiles write_profiles write_data should_save_legacy
    validate_config new_advertiser open_conns wants_advertiser preserve_startup_fields
    build_observe_input conclude validation_reasons active_profile config_reasons validate_document
    refresh_profile_validation document_defaults server_defaults trim_space validate_server_config
    validate_profile_config profile_config_defaults tunnel_defaults health_defaults has_colon
    lan_defaults active_config itoa profiles_reasons config_defaults
sample_up = refl

switched_up : (mutate_from sample_platform (switch true) sample_document switched_off).0 ≡ none
unfolding mutate_from after_validate after_active apply_document reconcile_locked stop_advertiser
    begin drive call_reconcile maybe_start start_advertiser advertiser_config network_entries
    resolve_ra_dns call_observe call_probe run_probe finish outcome_error save_state after_reconcile
    after_save save_document save_checked save_profiles write_profiles write_data should_save_legacy
    validate_config new_advertiser open_conns wants_advertiser preserve_startup_fields
    build_observe_input conclude validation_reasons active_profile config_reasons validate_document
    refresh_profile_validation document_defaults server_defaults trim_space validate_server_config
    validate_profile_config profile_config_defaults tunnel_defaults health_defaults has_colon
    lan_defaults active_config itoa profiles_reasons config_defaults
switched_up = refl

mutate_from-forgets_example :
    (mutate_from sample_platform (switch true) sample_document sample_service).1.document
    ≡ (mutate_from sample_platform (switch true) sample_document switched_off).1.document
mutate_from-forgets_example =
    mutate_from-forgets sample_platform (switch true) sample_document sample_service switched_off
      refl sample_up switched_up

-- the disk with the sample document
abbrev pub sample_disk : Disk
sample_disk = record empty_disk {
  config = some (profiles (build_raw_profile_document sample_document));
}

pub sample_created :
    (new_service sample_platform sample_disk).0 ≡ ok (record sample_service { world = sample_disk })
unfolding new_service load_or_create load_document load_state parse_document is_profiles_format
    has_profiles_key parse_profiles_document document_of_raw validated build_raw_profile_document
    is_not_exist validate_document refresh_profile_validation document_defaults server_defaults
    trim_space validate_server_config validate_profile_config profile_config_defaults
    tunnel_defaults health_defaults has_colon lan_defaults active_config itoa profiles_reasons
    config_defaults
sample_created = refl

contains-record_checkup_example :
    contains_string
      (record_checkup sample_config sample_checkup sample_service.state).status.degraded_reasons
      "no interface"
    ≡ (let kept =
          contains_string sample_service.state.status.degraded_reasons "no interface"
            && not (starts_with "no interface" managed_prefix)
          || contains_string (managed_reasons sample_checkup.observation) "no interface"
          || has_error sample_checkup.observe_error "no interface" in
        if sample_config.health.enabled
        then (if sample_checkup.probe.ping_ok
            then kept && not (reason_health_probe_failed == "no interface")
            else kept
              || sample_config.tunnel.enabled && reason_health_probe_failed == "no interface")
        else kept)
contains-record_checkup_example =
    contains-record_checkup sample_config sample_checkup sample_service.state "no interface"

health_interval_bounds_example :
    (5_000_000_000 ≤ health_interval sample_config)
    × (health_interval sample_config < 2 ^ 63)
    × ((n : ℕ)
        → sample_config.health.interval_sec ≡ pos n
        → 5 ≤ n
        → n ≤ 9_223_372_036
        → health_interval sample_config ≡ n * 1_000_000_000)
health_interval_bounds_example = health_interval_bounds sample_config

update_config_document-IsDurable_example :
    let t : Service Disk =
      (update_config_document sample_platform (some sample_document) sample_service).1 in
    load_or_create sample_platform t.world ≡ (ok (t.document, t.config), t.world)
unfolding mutate_from
update_config_document-IsDurable_example =
    update_config_document-IsDurable sample_platform sample_ReadsBack (λ text w e. refl)
      (switch true sample_document) sample_service refl (refl, tt) sample_up
