-- ===== src/Tests/HealthLoopTests.antt =====
-- The theorems about the health loop of internal/control/service.go applied to the sample platform.
use unifi_6in.Prelude.{ℕ, ◌≡◌, ◌≢◌, refl, true, is_some}
use unifi_6in.Text.{trim_space, has_colon}
use unifi_6in.Config.Defaults.{
  profile_config_defaults, tunnel_defaults, lan_defaults, health_defaults,
}
use unifi_6in.Config.Validation.{
  validate_config, config_reasons, validate_server_config, validate_profile_config,
}
use unifi_6in.Control.Reasons.{validation_reasons}
use unifi_6in.Control.Reconcile.{
  Service, wants_advertiser, reconcile_locked, stop_advertiser, begin, drive, call_reconcile,
  maybe_start, start_advertiser, advertiser_config, call_observe, call_probe, finish,
  network_entries,
}
use unifi_6in.Control.Service.{stop_service, start}
use unifi_6in.Control.Service.Startup.{start-IsSound}
use unifi_6in.Control.Interleaving.{reconcile, perform}
use unifi_6in.Control.Interleaving.Soundness.{IsSound}
use unifi_6in.Control.Loop.{
  LoopState, HealthRun, requests, closes, done, more, serving, closing, ended, retrying, returned,
}
use unifi_6in.Control.Loop.Rounds.{at, HealthRun-IsSound}
use unifi_6in.Control.Loop.Stopping.{CanReturn, stop-CanReturn, stop-leaves_advertiser}
use unifi_6in.Ra.{new_advertiser}
use unifi_6in.Tests.Fixtures.{Disk, sample_platform, sample_service}
use unifi_6in.Tests.ControlTests.{sample_disk, sample_created, sample_KeepsSwitch}

abbrev loop_service : Service Disk
loop_service = (start sample_platform (record sample_service { world = sample_disk })).1

loop_service-IsSound : IsSound sample_platform loop_service
loop_service-IsSound =
    start-IsSound sample_platform sample_KeepsSwitch sample_disk
      (record sample_service { world = sample_disk }) sample_created

-- The loop has decided to retry, a restart comes in between, and Stop begins.
abbrev overtaken : Service Disk
overtaken = (reconcile_locked sample_platform true loop_service).1

overtaken_run :
    HealthRun sample_platform 2
      (at sample_platform serving retrying loop_service)
      (at sample_platform closing retrying overtaken)
unfolding perform
overtaken_run = more (requests (reconcile true) loop_service) (more closes done)

HealthRun-IsSound_example : IsSound sample_platform overtaken
HealthRun-IsSound_example =
    HealthRun-IsSound sample_platform sample_KeepsSwitch 2
      (at sample_platform serving retrying loop_service)
      (at sample_platform closing retrying overtaken) overtaken_run loop_service-IsSound

serving-ne-ended : serving ≢ ended
serving-ne-ended h = cc

stop-CanReturn_example :
    CanReturn sample_platform 11 (at sample_platform serving retrying loop_service)
stop-CanReturn_example =
    stop-CanReturn sample_platform serving retrying loop_service serving-ne-ended

sample_starts :
    is_some
      (reconcile_locked sample_platform true
        (stop_service sample_platform sample_service)).1.advertiser
    ≡ true
unfolding stop_service reconcile_locked stop_advertiser begin drive call_reconcile maybe_start
    start_advertiser advertiser_config network_entries finish call_probe call_observe
    wants_advertiser validation_reasons validate_config config_reasons validate_server_config
    trim_space validate_profile_config profile_config_defaults tunnel_defaults health_defaults
    has_colon lan_defaults new_advertiser
sample_starts = refl

stop-leaves_advertiser_example :
    (n : ℕ) × ((y : LoopState sample_platform) × HealthRun sample_platform n
        (at sample_platform serving retrying sample_service)
        y
      × (y.phase ≡ ended)
      × (y.worker ≡ returned)
      × (is_some y.service.advertiser ≡ true))
stop-leaves_advertiser_example = stop-leaves_advertiser sample_platform sample_service sample_starts
