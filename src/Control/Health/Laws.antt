-- ===== src/Control/Health/Laws.antt =====
-- What the health checks of internal/control/service.go record, and how often they run.
use unifi_6in.Prelude.{
  ℕ, ◌*◌, ◌^◌, ◌≤◌, ◌<◌, String, ◌≡◌, pos, Bool, not, ◌&&◌, ◌||◌, List, arith, starts_with,
  if◌then◌else◌, ◌==◌,
}
use unifi_6in.Tunnel.{reason_health_probe_failed}
use unifi_6in.Config.Types.{Config}
use unifi_6in.Config.Validation.{contains_string}
use unifi_6in.Control.State.{StateDocument}
use unifi_6in.Control.Reasons.{
  managed_prefix, managed_reasons, append_error_reason, replace_managed,
}
use unifi_6in.Control.Reasons.Laws.{
  has_error, contains-append_new, contains-append_error, contains-remove_reason,
  contains-replace_managed,
}
use unifi_6in.Control.Health.{Checkup, probe_reasons, record_checkup, seconds, health_interval}

seconds-pos : (n : ℕ) → n ≤ 9_223_372_036 → seconds (pos n) ≡ n * 1_000_000_000
unfolding seconds
seconds-pos n h = omega arith

-- Whatever the configuration says, the interval is at least five seconds, and no negative duration;
-- a number of seconds from 5 to 9223372036 is taken as it is.
pub health_interval_bounds :
    (cfg : Config)
    → (5_000_000_000 ≤ health_interval cfg)
      × (health_interval cfg < 2 ^ 63)
      × ((n : ℕ)
          → cfg.health.interval_sec ≡ pos n
          → 5 ≤ n
          → n ≤ 9_223_372_036
          → health_interval cfg ≡ n * 1_000_000_000)
unfolding health_interval
health_interval_bounds cfg =
    (ground arith, ground arith, λ n e h k. rw e (ground (arith, seconds-pos n k)))

probe_contains :
    (cfg : Config) (ping_ok : Bool) (reasons : List String) (t : String)
    → contains_string (probe_reasons cfg ping_ok reasons) t ≡ (
        if cfg.health.enabled
        then (if ping_ok
            then contains_string reasons t && not (reason_health_probe_failed == t)
            else contains_string reasons t || cfg.tunnel.enabled && reason_health_probe_failed == t)
        else contains_string reasons t)
unfolding probe_reasons
probe_contains cfg ping_ok reasons t = ground (
  arith,
  contains-remove_reason reason_health_probe_failed reasons t,
  contains-append_new reasons reason_health_probe_failed t,
)

-- The reasons that a health check records: the old ones that are no address reasons, those of the
-- addresses that are missing now, and the error of the observation; and, where health checks are
-- enabled, without the failed probe after a probe that went well, and with it after one that failed
-- while the tunnel is switched on.
pub contains-record_checkup :
    (cfg : Config) (c : Checkup) (state : StateDocument) (t : String)
    → contains_string (record_checkup cfg c state).status.degraded_reasons t ≡ (
        let kept =
          contains_string state.status.degraded_reasons t && not (starts_with t managed_prefix)
          || contains_string (managed_reasons c.observation) t
          || has_error c.observe_error t in
        if cfg.health.enabled
        then (if c.probe.ping_ok
            then kept && not (reason_health_probe_failed == t)
            else kept || cfg.tunnel.enabled && reason_health_probe_failed == t)
        else kept)
unfolding record_checkup
contains-record_checkup cfg c state t =
    let replaced = replace_managed (managed_reasons c.observation) state.status.degraded_reasons in
    ground (
      arith,
      probe_contains cfg c.probe.ping_ok (append_error_reason replaced c.observe_error) t,
      contains-append_error replaced c.observe_error t,
      contains-replace_managed (managed_reasons c.observation) state.status.degraded_reasons t,
    )
