-- ===== src/Control/Health.antt =====
-- The health checks of internal/control/service.go: `runHealthCheck`, `repairManagedAddresses`,
-- `shouldRetryReconcile`, the interval, and one round of `healthLoop`.
pub mod Laws
use unifi_6in.Prelude.{
  ℤ, pos, negsuc, leb, ltb, ℕ, ◌+◌, ◌-◌, ◌*◌, ◌%◌, ◌^◌, String, pos, negsuc, Bool, true, false, not,
  ◌&&◌, ◌||◌, Option, none, some, is_some, List, [], is_empty, ltb, if◌then◌else◌, ◌==◌,
}
use unifi_6in.Errors.{Error, Result, ok, err}
use unifi_6in.Tunnel.{Status, reconcile_ready, reconcile_degraded, reason_health_probe_failed}
use unifi_6in.Config.Types.{Config}
use unifi_6in.Config.Validation.{validate_config}
use unifi_6in.Control.State.{StateDocument}
use unifi_6in.Control.Reasons.{
  Observation, append_error_reason, managed_reasons, has_missing, remove_reason, replace_managed,
  first_reason, append_new,
}
use unifi_6in.Control.Platform.{Platform, ProbeResult, save_state}
use unifi_6in.Control.Reconcile.{Service, run_probe, current_reasons, reconcile_locked}
use unifi_6in.Control.Outcome.{build_observe_input}
use unifi_6in.Control.Outcome.{or_nothing}

-- What the unlocked part of a health check has brought.
pub record Checkup : Type 0 where
  pub observe_error : Option Error
  pub observation : Observation
  pub probe : ProbeResult
  pub probe_time : Option ℕ

-- the ladder `if cfg.Health.Enabled { … }` of runHealthCheck
unfoldable pub probe_reasons : Config → Bool → List String → List String
probe_reasons cfg ping_ok reasons =
    if cfg.health.enabled
    then (if ping_ok
        then remove_reason reason_health_probe_failed reasons
        else if cfg.tunnel.enabled
        then append_new reasons reason_health_probe_failed
        else reasons)
    else reasons

-- the assignments of runHealthCheck to the state
unfoldable pub record_checkup : Config → Checkup → StateDocument → StateDocument
unfolding probe_reasons
record_checkup cfg c state =
    let old = state.status in
    let seen = is_some c.observe_error in
    let reasons = probe_reasons cfg c.probe.ping_ok (
      append_error_reason (replace_managed (managed_reasons c.observation) old.degraded_reasons)
        c.observe_error) in
    record state {
      status = record old {
        wan_ipv4 = if seen then old.wan_ipv4 else c.observation.wan_ipv4;
        tunnel_up = if seen then old.tunnel_up else c.observation.tunnel_up;
        ping_ok = c.probe.ping_ok;
        ping_ms = c.probe.ping_ms;
        last_ping_at = elim c.probe_time [ none ↦ old.last_ping_at | some t ↦ t ];
        degraded_reasons = reasons;
        reconcile_state =
            if seen || has_missing c.observation then reconcile_degraded else old.reconcile_state;
        last_error = first_reason reasons;
      };
    }

-- the assignments of repairManagedAddresses to the state
unfoldable pub record_repair :
    Option Error → Option Error → Observation → StateDocument → StateDocument
record_repair repair_error observe_error o state =
    let old = state.status in
    let reasons =
      append_error_reason
        (append_error_reason (replace_managed (managed_reasons o) old.degraded_reasons)
          repair_error)
        observe_error in
    record state {
      status = record old {
        degraded_reasons = reasons;
        reconcile_state =
            if not (is_some repair_error) && not (is_some observe_error) && not (has_missing o)
            then (if o.tunnel_up && is_empty reasons then reconcile_ready else old.reconcile_state)
            else reconcile_degraded;
        last_error = first_reason reasons;
      };
    }

-- time.Duration(n) * time.Second in nanoseconds, as the bit pattern of its int64
unfoldable pub seconds : ℤ → ℕ
seconds (pos n) = n * 1_000_000_000 % 2 ^ 64
seconds (negsuc n) = (2 ^ 64 - (n + 1) * 1_000_000_000 % 2 ^ 64) % 2 ^ 64

-- func (s *Service) currentHealthInterval, in nanoseconds; a pattern from 2 ^ 63 on is negative
unfoldable pub health_interval : Config → ℕ
health_interval cfg =
    let interval = seconds cfg.health.interval_sec in
    if leb (2 ^ 63) interval || ltb interval 5_000_000_000 then 30_000_000_000 else interval

module _ {D W : Type 0} (platform : Platform D W) where
  -- func (s *Service) repairManagedAddresses
  unfoldable pub repair : Service W → Option Error × Service W
  repair s =
      let cfg = s.config in
      let (repair_error, w1) = platform.backend.repair_addresses cfg s.world in
      let ((seen, observe_error), w2) = platform.backend.observe (build_observe_input cfg []) w1 in
      let state = record_repair repair_error observe_error (or_nothing seen) s.state in
      let (save_error, w3) = save_state platform state w2 in
      if is_some (validate_config platform.net cfg) || not cfg.tunnel.enabled then (none, s) else (
        elim save_error [
          | some e ↦ some e
          | none ↦ elim repair_error [ some e ↦ some e | none ↦ observe_error ]
        ],
        record s { state = state; world = w3 },
      )

  -- the part of runHealthCheck that runs without the lock, on the configuration `cfg`
  unfoldable pub examine : Config → W → Checkup × W
  examine cfg w =
      let ((seen, observe_error), w1) =
        platform.backend.observe (build_observe_input cfg (current_reasons platform cfg)) w in
      let ((probe, probe_time), w2) = run_probe platform cfg.health.enabled cfg.health.target w1 in
      (
        record {
          observe_error = observe_error;
          observation = or_nothing seen;
          probe = probe;
          probe_time = probe_time;
        },
        w2,
      )

  abbrev pub status_after : Option Error × Service W → Result Status × Service W
  status_after (none, s) = (ok s.state.status, s)
  status_after (some e, s) = (err e, s)

  -- the end of runHealthCheck: restart, repair, or nothing
  unfoldable pub recover : Bool → Config → Checkup → Service W → Result Status × Service W
  unfolding repair
  recover allow cfg c s =
      let again = reconcile_locked platform true s in
      let (repair_error, s1) = repair s in
      let fallback = reconcile_locked platform true s1 in
      if allow
        && cfg.health.auto_restart
        && cfg.tunnel.enabled
        && is_empty (current_reasons platform cfg)
      then (if cfg.health.enabled && not c.probe.ping_ok
          then status_after again
          else if has_missing c.observation
          then elim repair_error [
            | none ↦ (ok s1.state.status, s1)
            | some _ ↦ status_after fallback
          ]
          else (ok s.state.status, s))
      else (ok s.state.status, s)

  -- the second critical section of runHealthCheck: the error of SaveState
  unfoldable pub save_checkup : Config → Checkup → Service W → Option Error × Service W
  unfolding record_checkup
  save_checkup cfg c s =
      let state = record_checkup cfg c s.state in
      let (save_error, w) = save_state platform state s.world in
      (save_error, record s { state = state; world = w })

  -- runHealthCheck from its second critical section on, with the configuration of the first
  unfoldable pub commit_checkup : Bool → Config → Checkup → Service W → Result Status × Service W
  unfolding recover save_checkup
  commit_checkup allow cfg c s =
      let (save_error, s') = save_checkup cfg c s in
      elim save_error [ some e ↦ (err e, s') | none ↦ recover allow cfg c s' ]

  -- func (s *Service) runHealthCheck, with nothing between its critical sections
  unfoldable pub run_health_check : Bool → Service W → Result Status × Service W
  unfolding examine commit_checkup
  run_health_check allow s =
      let (c, w) = examine s.config s.world in
      commit_checkup allow s.config c (record s { world = w })

  -- func (s *Service) shouldRetryReconcile
  unfoldable pub should_retry : Service W → Bool
  should_retry s =
      if not s.document.tunnel_enabled
      then false
      else if s.state.status.reconcile_state == reconcile_ready
      then false
      else not (is_some (validate_config platform.net s.config))

  -- one round of func (s *Service) healthLoop, after its timer
  unfoldable pub health_round : Service W → Service W
  unfolding should_retry run_health_check
  health_round s =
      if should_retry s then (reconcile_locked platform true s).1 else (run_health_check true s).1
