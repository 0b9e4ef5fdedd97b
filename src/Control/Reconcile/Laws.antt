-- ===== src/Control/Reconcile/Laws.antt =====
-- What `reconcileLocked` of internal/control/service.go does on every path: which fields it leaves,
-- when its state is ready, which reasons it keeps, and when an advertiser runs after it.
use unifi_6in.Prelude.{
  is_some, String, ◌≡◌, refl, ◌↔◌, ◌∙◌, ap, Bool, true, false, not, ◌&&◌, ◌||◌, none, List, [],
  arith, eq_iff, ◌==◌,
}
use unifi_6in.Tunnel.{
  reconcile_ready, reconcile_degraded, reconcile_down, reason_health_probe_failed,
}
use unifi_6in.Config.Types.{Config}
use unifi_6in.Config.Validation.{contains_string}
use unifi_6in.Control.State.{AppliedState}
use unifi_6in.Control.Reasons.{
  first_reason, managed_reasons, append_managed_reasons, append_all_new, append_error_reason,
  has_missing,
}
use unifi_6in.Control.Reasons.Laws.{
  has_error, contains-append_new, contains-append_all_new, contains-append_error,
}
use unifi_6in.Control.Platform.{Platform}
use unifi_6in.Control.Reconcile.{
  Service, begin, start_advertiser, stop_advertiser, maybe_start, call_reconcile, call_observe,
  call_probe, drive, finish, current_reasons, reconcile_locked, wants_advertiser,
}
use unifi_6in.Control.Outcome.{Outcome, outcome_reasons, settle, conclude}

-- The reasons after a reconcile are those of the validation, the missing addresses, the errors of
-- the backend, the advertiser and the observation, and the failed probe, and no others.
pub contains-outcome_reasons :
    (o : Outcome) (t : String)
    → contains_string (outcome_reasons o) t
      ≡ contains_string o.reasons t
        || contains_string (managed_reasons o.observation) t
        || has_error o.backend_error t
        || has_error o.advertiser_error t
        || has_error o.observe_error t
        || (o.config.tunnel.enabled
            && o.config.health.enabled
            && not o.probe.ping_ok
            && reason_health_probe_failed == t)
unfolding outcome_reasons append_managed_reasons
contains-outcome_reasons o t =
    let a = append_all_new o.reasons (managed_reasons o.observation) in
    let b = append_error_reason a o.backend_error in
    let c = append_error_reason b o.advertiser_error in
    let d = append_error_reason c o.observe_error in
    ground (
      arith,
      contains-append_new d reason_health_probe_failed t,
      contains-append_error c o.observe_error t,
      contains-append_error b o.advertiser_error t,
      contains-append_error a o.backend_error t,
      contains-append_all_new o.reasons (managed_reasons o.observation) t,
    )

-- What the switch makes of an outcome: ready exactly if the tunnel is wanted and valid, no call has
-- failed, no managed address is missing and the tunnel is up.
pub settle-ready_iff :
    (o : Outcome) (applied : AppliedState)
    → ((settle o applied).0 ≡ reconcile_ready) ↔ (
        (o.config.tunnel.enabled ≡ true)
        × (o.reasons ≡ [])
        × (o.backend_error ≡ none)
        × (o.advertiser_error ≡ none)
        × (o.observe_error ≡ none)
        × (has_missing o.observation ≡ false)
        × (o.observation.tunnel_up ≡ true))
unfolding settle
settle-ready_iff o applied = (
  λ h.
      ground
        (arith, eq_iff reconcile_down reconcile_ready, eq_iff reconcile_degraded reconcile_ready),
  λ h. ground arith,
)

module _ {D W : Type 0} (platform : Platform D W) where
  -- `t` has the document, the configuration and the state of `s`.
  pub record SameDesired (s t : Service W) : Type 0 where
    pub document : t.document ≡ s.document
    pub config : t.config ≡ s.config
    pub state : t.state ≡ s.state

  pub stop_advertiser-SameDesired : (s : Service W) → SameDesired s (stop_advertiser platform s)
  unfolding stop_advertiser
  stop_advertiser-SameDesired s = ground arith

  pub advertiser-stop_advertiser : (s : Service W) → (stop_advertiser platform s).advertiser ≡ none
  unfolding stop_advertiser
  advertiser-stop_advertiser s = ground arith

  start_advertiser-SameDesired :
      (cfg : Config) (s : Service W) → SameDesired s (start_advertiser platform cfg s).1
  unfolding start_advertiser
  start_advertiser-SameDesired cfg s = ground arith

  maybe_start-SameDesired :
      (wanted : Bool) (cfg : Config) (s : Service W)
      → SameDesired s (maybe_start platform wanted cfg s).1
  unfolding maybe_start
  maybe_start-SameDesired wanted cfg s = ground arith

  drive-SameDesired :
      (force : Bool) (reasons : List String) (applied : AppliedState) (s : Service W)
      → SameDesired s (drive platform force reasons applied s).1
  unfolding drive call_reconcile call_observe call_probe
  drive-SameDesired force reasons applied s =
      let ((e, cfg), s1) = call_reconcile platform force reasons applied s in
      let same = maybe_start-SameDesired (wants_advertiser platform e reasons cfg) cfg s1 in
      record { document = same.document; config = same.config; state = same.state }

  -- What one reconcile has brought, and the service before its state is concluded.
  abbrev pub outcome : Bool → Service W → Outcome × Service W
  outcome force s = drive platform force (current_reasons platform s.config) s.state.applied (
      stop_advertiser platform (record s {
        state = begin platform s.document (current_reasons platform s.config) s.state;
      }))

  abbrev pub begun : Service W → Service W
  begun s = record s {
    state = begin platform s.document (current_reasons platform s.config) s.state;
  }

  outcome-SameDesired : (force : Bool) (s : Service W) → SameDesired (begun s) (outcome force s).1
  outcome-SameDesired force s =
      let stopped = stop_advertiser-SameDesired (begun s) in
      let same =
        drive-SameDesired force (current_reasons platform s.config) s.state.applied
          (stop_advertiser platform (begun s)) in
      record {
        document = same.document ∙ stopped.document;
        config = same.config ∙ stopped.config;
        state = same.state ∙ stopped.state;
      }

  -- A reconcile leaves the document and the configuration as they are.
  pub reconcile_locked-desired :
      (force : Bool) (s : Service W)
      → ((reconcile_locked platform force s).1.document ≡ s.document)
        × ((reconcile_locked platform force s).1.config ≡ s.config)
  unfolding reconcile_locked finish
  reconcile_locked-desired force s =
      let same = outcome-SameDesired force s in (same.document, same.config)

  -- The state after a reconcile is the conclusion from what its calls have brought.
  pub state-reconcile_locked :
      (force : Bool) (s : Service W)
      → (reconcile_locked platform force s).1.state
        ≡ conclude (outcome force s).0 (platform.now (outcome force s).1.world).0 (begun s).state
  unfolding reconcile_locked finish
  state-reconcile_locked force s =
      ap (conclude (outcome force s).0 (platform.now (outcome force s).1.world).0)
        ((outcome-SameDesired force s).state)

  pub reasons-outcome :
      (force : Bool) (s : Service W)
      → (outcome force s).0.reasons ≡ current_reasons platform s.config
  unfolding drive
  reasons-outcome force s = refl

  is_some-maybe_start :
      (wanted : Bool) (cfg : Config) (s : Service W)
      → s.advertiser ≡ none
      → is_some (maybe_start platform wanted cfg s).1.advertiser
        ≡ wanted && not (is_some (maybe_start platform wanted cfg s).0)
  unfolding maybe_start
  is_some-maybe_start wanted cfg s h = ground arith

  -- After a reconcile an advertiser runs exactly if `drive` has wanted one and recorded no error of
  -- its start.
  pub advertiser-reconcile_locked :
      (force : Bool) (s : Service W)
      → let o = (outcome force s).0 in
        is_some (reconcile_locked platform force s).1.advertiser
        ≡ wants_advertiser platform o.backend_error o.reasons o.config
          && not (is_some o.advertiser_error)
  unfolding reconcile_locked finish drive call_reconcile call_observe call_probe
  advertiser-reconcile_locked force s =
      let s0 = stop_advertiser platform (begun s) in
      let ((e, cfg), s1) =
        call_reconcile platform force (current_reasons platform s.config) s.state.applied s0 in
      is_some-maybe_start (wants_advertiser platform e (current_reasons platform s.config) cfg) cfg
        s1 (advertiser-stop_advertiser (begun s))

  -- After a reconcile the last error is the first degraded reason, or empty where there is none.
  pub last_error-reconcile_locked :
      (force : Bool) (s : Service W)
      → (reconcile_locked platform force s).1.state.status.last_error
        ≡ first_reason (reconcile_locked platform force s).1.state.status.degraded_reasons
  last_error-reconcile_locked force s =
      rw (state-reconcile_locked force s) (unfold conclude in refl)

  -- After a reconcile the reasons are those of the validation and of what `drive` has recorded: the
  -- missing addresses, the errors of the backend, the advertiser and the observation, and the failed
  -- probe of a tunnel that is switched on and checked, and no others.
  pub contains-reconcile_locked :
      (force : Bool) (s : Service W) (t : String)
      → let o = (outcome force s).0 in
        contains_string (reconcile_locked platform force s).1.state.status.degraded_reasons t
        ≡ contains_string (current_reasons platform s.config) t
          || contains_string (managed_reasons o.observation) t
          || has_error o.backend_error t
          || has_error o.advertiser_error t
          || has_error o.observe_error t
          || (o.config.tunnel.enabled
              && o.config.health.enabled
              && not o.probe.ping_ok
              && reason_health_probe_failed == t)
  unfolding drive
  contains-reconcile_locked force s t =
      rw (state-reconcile_locked force s)
        (unfold conclude in contains-outcome_reasons (outcome force s).0 t)

  -- After a reconcile the state is `ready` exactly if the configuration has no validation reason and
  -- in what `drive` has recorded the tunnel is switched on, no error stands, no managed address is
  -- missing and the tunnel is up.
  pub ready-reconcile_locked :
      (force : Bool) (s : Service W)
      → let o = (outcome force s).0 in
        ((reconcile_locked platform force s).1.state.status.reconcile_state ≡ reconcile_ready) ↔ (
          (o.config.tunnel.enabled ≡ true)
          × (current_reasons platform s.config ≡ [])
          × (o.backend_error ≡ none)
          × (o.advertiser_error ≡ none)
          × (o.observe_error ≡ none)
          × (has_missing o.observation ≡ false)
          × (o.observation.tunnel_up ≡ true))
  unfolding drive
  ready-reconcile_locked force s =
      rw (state-reconcile_locked force s)
        (unfold conclude in settle-ready_iff (outcome force s).0 (begun s).state.applied)
