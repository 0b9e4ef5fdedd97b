-- ===== src/Control/Interleaving/Soundness.antt =====
-- An invariant of the service of internal/control/service.go, and how reconcileLocked makes it hold.
use unifi_6in.Prelude.{◌≡◌, ◌≢◌, ◌∙◌, sym, ap, Bool, false, none, arith, eq_iff}
use unifi_6in.Tunnel.{reconcile_ready, reconcile_degraded, reconcile_down, reconcile_reconciling}
use unifi_6in.Config.Types.{Config}
use unifi_6in.Control.State.{AppliedState}
use unifi_6in.Control.Reasons.{first_reason}
use unifi_6in.Control.Platform.{Platform, ReconcileInput}
use unifi_6in.Control.Reconcile.{Service, drive, call_reconcile, wants_advertiser, reconcile_locked}
use unifi_6in.Control.Outcome.{Outcome, settle, conclude}
use unifi_6in.Control.Reconcile.Laws.{
  outcome, begun, stop_advertiser-SameDesired, reconcile_locked-desired, state-reconcile_locked,
  last_error-reconcile_locked, advertiser-reconcile_locked,
}
use unifi_6in.Control.Service.Laws.{IsCoherent}

-- What the service relies on: its backend does not switch the tunnel in the configuration that it
-- is given.
abbrev pub KeepsSwitch : {D W : Type 0} → Platform D W → Type 0
KeepsSwitch {D} {W} platform =
    (i : ReconcileInput) (w : W)
    → (platform.backend.reconcile i w).0.1.tunnel.enabled ≡ i.config.tunnel.enabled

settle-ne-reconciling :
    (o : Outcome) (applied : AppliedState) → (settle o applied).0 ≢ reconcile_reconciling
unfolding settle
settle-ne-reconciling o applied = ground (
  arith,
  eq_iff reconcile_down reconcile_reconciling,
  eq_iff reconcile_degraded reconcile_reconciling,
  eq_iff reconcile_ready reconcile_reconciling,
)

module _ {D W : Type 0} (platform : Platform D W) where
  -- The effective configuration fits the document, the last error is the first degraded reason, no
  -- reconcile is left half done, and no advertiser runs while the tunnel is switched off.
  pub record IsSound (s : Service W) : Type 0 where
    pub coherent : IsCoherent platform s
    pub last_error : s.state.status.last_error ≡ first_reason s.state.status.degraded_reasons
    pub settled : s.state.status.reconcile_state ≢ reconcile_reconciling
    pub quiet : s.config.tunnel.enabled ≡ false → s.advertiser ≡ none

  module _ (keeps : KeepsSwitch platform) where
    pub switch-outcome :
        (force : Bool) (s : Service W)
        → (outcome platform force s).0.config.tunnel.enabled ≡ s.config.tunnel.enabled
    unfolding drive call_reconcile
    switch-outcome force s =
        keeps _ _
        ∙ ap (λ (c : Config). c.tunnel.enabled)
            (stop_advertiser-SameDesired platform (begun platform s)).config

    pub reconcile_locked-quiet :
        (force : Bool) (s : Service W)
        → s.config.tunnel.enabled ≡ false
        → (reconcile_locked platform force s).1.advertiser ≡ none
    unfolding wants_advertiser
    reconcile_locked-quiet force s off =
        ground (arith, advertiser-reconcile_locked platform force s, switch-outcome force s)

    pub reconcile_locked-IsSound :
        (force : Bool) (s : Service W)
        → IsCoherent platform s
        → IsSound (reconcile_locked platform force s).1
    reconcile_locked-IsSound force s h =
        let (document, config) = reconcile_locked-desired platform force s in
        record {
          coherent = rw (document, config) h;
          last_error = last_error-reconcile_locked platform force s;
          settled = rw (state-reconcile_locked platform force s) (
              unfold conclude in
              settle-ne-reconciling (outcome platform force s).0 (begun platform s).state.applied);
          quiet = λ off.
              reconcile_locked-quiet force s
                (sym (ap (λ (c : Config). c.tunnel.enabled) config) ∙ off);
        }
