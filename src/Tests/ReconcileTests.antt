-- ===== src/Tests/ReconcileTests.antt =====
-- The theorems about reconcileLocked of internal/control/service.go applied to the sample platform.
use unifi_6in.Prelude.{
  ◌+◌, ◌≡◌, ◌↔◌, refl, String, pos, true, false, not, ◌&&◌, ◌||◌, none, some, [], ◌∷◌, map,
  is_empty, ◌==◌,
}
use unifi_6in.Text.{◌<>◌, trim_space, has_colon, itoa}
use unifi_6in.Tunnel.{reconcile_ready}
use unifi_6in.Config.Defaults.{
  profile_config_defaults, tunnel_defaults, lan_defaults, health_defaults,
}
use unifi_6in.Config.Validation.{
  contains_string, validate_config, config_reasons, validate_profile_config, validate_server_config,
}
use unifi_6in.Config.Documents.{active_profile}
use unifi_6in.Control.Platform.{save_state}
use unifi_6in.Control.Reasons.{Observation, validation_reasons}
use unifi_6in.Control.Reasons.Laws.{has_error}
use unifi_6in.Control.Reconcile.{
  wants_advertiser, reconcile_locked, stop_advertiser, begin, drive, call_reconcile, maybe_start,
  start_advertiser, advertiser_config, call_observe, call_probe, run_probe, finish, network_entries,
  resolve_ra_dns,
}
use unifi_6in.Control.Outcome.{build_observe_input}
use unifi_6in.Control.Outcome.{conclude}
use unifi_6in.Control.Reconcile.Advertising.{IsStarted}
use unifi_6in.Control.Reconcile.Answers.{
  left, reconciled, advertised, observed, missing, is_reached, reconcile_locked-ready_iff,
  reconcile_locked-reasons, reconcile_locked-advertiser_iff,
}
use unifi_6in.Ra.{Advertiser, new_advertiser, open_conns}
use unifi_6in.Tests.Fixtures.{
  sample_platform, sample_config, sample_service, sample_net, sample_addr,
}
use unifi_6in.Net.{next, network_addr}

reconcile_locked-ready_iff_example :
    ((reconcile_locked sample_platform true sample_service).1.state.status.reconcile_state
      ≡ reconcile_ready)
    ↔ (((left sample_platform true sample_service).tunnel.enabled ≡ true)
        × (validate_config sample_net sample_config ≡ none)
        × ((reconciled sample_platform true sample_service).0.0 ≡ none)
        × ((advertised sample_platform true sample_service).0 ≡ none)
        × ((observed sample_platform true sample_service).0.1 ≡ none)
        × (o : Observation) × ((observed sample_platform true sample_service).0.0 ≡ some o)
        × (o.missing_ipv6_addresses ≡ [])
        × (o.tunnel_up ≡ true))
reconcile_locked-ready_iff_example = reconcile_locked-ready_iff sample_platform true sample_service

reconcile_locked-reasons_example :
    let t : String = "health probe failed" in
    contains_string
      (reconcile_locked sample_platform true sample_service).1.state.status.degraded_reasons
      t
    ≡ contains_string (config_reasons sample_net sample_config) t
      || contains_string
          (map
            (λ address. "managed IPv6 address missing: " <> address)
            (missing sample_platform true sample_service))
          t
      || has_error (reconciled sample_platform true sample_service).0.0 t
      || has_error (advertised sample_platform true sample_service).0 t
      || has_error (observed sample_platform true sample_service).0.1 t
      || ((left sample_platform true sample_service).tunnel.enabled
          && (left sample_platform true sample_service).health.enabled
          && not (is_reached sample_platform true sample_service)
          && "health probe failed" == t)
reconcile_locked-reasons_example =
    reconcile_locked-reasons sample_platform true sample_service "health probe failed"

-- the advertiser of the sample network
abbrev sample_advertiser : Advertiser
sample_advertiser = record {
  conns =
      record {
        conn = 0;
        iface = record { name = "br0"; hardware_addr = 2 ∷ 0 ∷ 0 ∷ 0 ∷ 0 ∷ 1 ∷ []; mtu = pos 1500 };
        prefix = record { addr = sample_addr; bits = 64 };
      }
      ∷ [];
  dns = record sample_addr { number = sample_addr.number + 1 } ∷ [];
  tunnel_mtu = pos 1480;
  interval = 10;
}

sample_runs :
    (reconcile_locked sample_platform true sample_service).1.advertiser ≡ some sample_advertiser
unfolding reconcile_locked stop_advertiser begin drive call_reconcile maybe_start start_advertiser
    advertiser_config network_entries resolve_ra_dns call_observe call_probe run_probe finish
    save_state validate_config new_advertiser open_conns wants_advertiser build_observe_input
    conclude validation_reasons active_profile config_reasons trim_space validate_server_config
    validate_profile_config has_colon itoa profile_config_defaults tunnel_defaults health_defaults
    lan_defaults next network_addr
sample_runs = refl

reconcile_locked-advertiser_iff_example :
    ((reconcile_locked sample_platform true sample_service).1.advertiser ≡ some sample_advertiser)
    ↔ (((reconciled sample_platform true sample_service).0.0 ≡ none)
        × (validate_config sample_net sample_config ≡ none)
        × ((left sample_platform true sample_service).tunnel.enabled ≡ true)
        × ((left sample_platform true sample_service).lan.enabled ≡ true)
        × (is_empty (left sample_platform true sample_service).lan.networks ≡ false)
        × IsStarted sample_platform
            (left sample_platform true sample_service)
            (reconciled sample_platform true sample_service).1
            sample_advertiser)
reconcile_locked-advertiser_iff_example =
    reconcile_locked-advertiser_iff sample_platform true sample_service sample_advertiser
