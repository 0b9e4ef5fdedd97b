-- ===== src/Control/Outcome.antt =====
-- What the calls of one reconcileLocked of internal/control/service.go bring, and what the state is
-- made of after them.
use unifi_6in.Prelude.{
  ℕ, String, pos, is_positive, Bool, false, not, ◌&&◌, ◌||◌, Option, none, some, is_some, List, [],
  is_empty, if◌then◌else◌,
}
use unifi_6in.Errors.{Error}
use unifi_6in.Tunnel.{
  reconcile_ready, reconcile_degraded, reconcile_down, reason_health_probe_failed,
}
use unifi_6in.Config.Types.{Config}
use unifi_6in.Control.State.{AppliedState, StateDocument, build_applied_state, empty_applied_state}
use unifi_6in.Control.Reasons.{
  Observation, no_observation, append_new, append_error_reason, append_managed_reasons, has_missing,
  first_reason,
}
use unifi_6in.Control.Platform.{ProbeResult, ObserveInput}

abbrev pub no_probe : ProbeResult
no_probe = record { ping_ok = false; ping_ms = 0 }

-- func buildObserveInput
unfoldable pub build_observe_input : Config → List String → ObserveInput
build_observe_input cfg reasons = record {
  wan_interface = cfg.server.wan_interface;
  config = if is_empty reasons && cfg.tunnel.enabled then some cfg else none;
}

-- What the calls of one reconcile have brought.
pub record Outcome : Type 0 where
  -- the configuration that the backend has been given, as it leaves it
  pub config : Config
  pub reasons : List String
  pub backend_error : Option Error
  pub advertiser_error : Option Error
  pub observe_error : Option Error
  pub observation : Observation
  pub probe : ProbeResult
  -- none for the zero time
  pub probe_time : Option ℕ

abbrev pub probe_failed_reason : Bool → List String → List String
probe_failed_reason failed reasons =
    if failed then append_new reasons reason_health_probe_failed else reasons

-- the list that reconcileLocked builds in `s.state.DegradedReasons`
unfoldable pub outcome_reasons : Outcome → List String
outcome_reasons o =
    let found = append_managed_reasons o.reasons o.observation in
    let with_backend = append_error_reason found o.backend_error in
    let with_advertiser = append_error_reason with_backend o.advertiser_error in
    let with_observe = append_error_reason with_advertiser o.observe_error in
    probe_failed_reason (o.config.tunnel.enabled && o.config.health.enabled && not o.probe.ping_ok)
      with_observe

-- the switch of reconcileLocked: the reconcile state and the applied state
unfoldable pub settle : Outcome → AppliedState → String × AppliedState
settle o previous =
    if not o.config.tunnel.enabled
    then (reconcile_down, empty_applied_state)
    else if not (is_empty o.reasons)
    then (reconcile_degraded, previous)
    else if is_some o.backend_error
        || is_some o.advertiser_error
        || is_some o.observe_error
        || has_missing o.observation
    then (reconcile_degraded, build_applied_state o.config)
    else if o.observation.tunnel_up
    then (reconcile_ready, build_applied_state o.config)
    else (reconcile_degraded, build_applied_state o.config)

-- the error that reconcileLocked returns after the state is saved
unfoldable pub outcome_error : Outcome → Option Error
outcome_error o = if not (is_empty o.reasons) then none else elim o.backend_error [
  | some e ↦ some e
  | none ↦ elim o.advertiser_error [ some e ↦ some e | none ↦ o.observe_error ]
]

-- the assignments of reconcileLocked after its calls, up to SaveState
unfoldable pub conclude : Outcome → ℕ → StateDocument → StateDocument
unfolding outcome_reasons settle
conclude o finished state =
    let cfg = o.config in
    let reasons = outcome_reasons o in
    let (phase, applied) = settle o state.applied in
    let down = cfg.health.enabled && not cfg.tunnel.enabled in
    record {
      status = record (state.status) {
        wan_ipv4 = o.observation.wan_ipv4;
        local_ipv6 = cfg.tunnel.local_ipv6;
        effective_mtu =
            if is_empty o.reasons && cfg.tunnel.enabled && is_positive cfg.tunnel.mtu
            then cfg.tunnel.mtu
            else pos 0;
        networks = if not cfg.lan.enabled then [] else (build_applied_state cfg).networks;
        tunnel_up = o.observation.tunnel_up;
        ping_ok = if down then false else o.probe.ping_ok;
        ping_ms = if down then 0 else o.probe.ping_ms;
        last_ping_at = elim o.probe_time [ none ↦ state.status.last_ping_at | some t ↦ t ];
        degraded_reasons = reasons;
        last_error = first_reason reasons;
        last_reconcile_at = finished;
        reconcile_state = phase;
      };
      applied = applied;
    }

-- `if observation == nil { observation = &Observation{} }`
abbrev pub or_nothing : Option Observation → Observation
or_nothing none = no_observation
or_nothing (some o) = o
