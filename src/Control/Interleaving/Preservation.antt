-- ===== src/Control/Interleaving/Preservation.antt =====
-- The critical sections of internal/control/service.go and the invariant of the service.
use unifi_6in.Prelude.{
  if◌then◌else◌, ◌≡◌, refl, ◌≢◌, ◌∙◌, ap, Bool, true, false, Option, none, some, List, [], ◌∷◌,
  arith, eq_iff,
}
use unifi_6in.Errors.{Error, Result, ok, err}
use unifi_6in.Tunnel.{reconcile_ready, reconcile_degraded, reconcile_reconciling}
use unifi_6in.Config.Types.{Config, Document}
use unifi_6in.Config.Documents.{active_config}
use unifi_6in.Control.State.{StateDocument}
use unifi_6in.Control.Reasons.{Observation, first_reason}
use unifi_6in.Control.Platform.{Platform}
use unifi_6in.Control.Reconcile.{Service}
use unifi_6in.Control.Reconcile.Laws.{
  stop_advertiser-SameDesired, advertiser-stop_advertiser, reconcile_locked-desired,
}
use unifi_6in.Control.Service.{
  restore, after_restore, after_rollback, rollback, after_save, after_reconcile, apply_document,
  after_active, after_validate, update_config_document, stop_service,
}
use unifi_6in.Control.Health.{Checkup, record_checkup, record_repair, repair, save_checkup}
use unifi_6in.Control.Interleaving.{
  Event, update, reconcile, repair_addresses, checkup, stop, outside, perform, run,
}
use unifi_6in.Control.Interleaving.Soundness.{KeepsSwitch, IsSound, reconcile_locked-IsSound}

record_repair-settled :
    (repair_error observe_error : Option Error) (o : Observation) (state : StateDocument)
    → state.status.reconcile_state ≢ reconcile_reconciling
    → (record_repair repair_error observe_error o state).status.reconcile_state
      ≢ reconcile_reconciling
unfolding record_repair
record_repair-settled repair_error observe_error o state h = ground (
  arith,
  eq_iff reconcile_degraded reconcile_reconciling,
  eq_iff reconcile_ready reconcile_reconciling,
)

record_repair-last_error :
    (repair_error observe_error : Option Error) (o : Observation) (state : StateDocument)
    → (record_repair repair_error observe_error o state).status.last_error
      ≡ first_reason (record_repair repair_error observe_error o state).status.degraded_reasons
unfolding record_repair
record_repair-last_error repair_error observe_error o state = refl

module _ {D W : Type 0} (platform : Platform D W) where
  IsSound-world :
      (s : Service W) (w : W) → IsSound platform s → IsSound platform (record s { world = w })
  IsSound-world s w h = record {
    coherent = h.coherent;
    last_error = h.last_error;
    settled = h.settled;
    quiet = h.quiet;
  }

  after_restore-IsSound :
      (failure e : Error) (save_error : Option Error) (s : Service W)
      → IsSound platform s
      → IsSound platform (after_restore platform failure e save_error s).1
  unfolding after_restore
  after_restore-IsSound failure e none s h = h
  after_restore-IsSound failure e (some x) s h = h

  module _ (keeps : KeepsSwitch platform) where
    after_rollback-IsSound :
        (previous : Service W) (failure : Error) (again : Option Error) (s : Service W)
        → IsSound platform previous
        → IsSound platform s
        → s.config ≡ previous.config
        → IsSound platform (after_rollback platform previous failure again s).1
    unfolding after_rollback
    after_rollback-IsSound previous failure none s h k e = k
    after_rollback-IsSound previous failure (some x) s h k e =
        after_restore-IsSound failure x _ _ (record {
          coherent = h.coherent;
          last_error = h.last_error;
          settled = h.settled;
          quiet = λ off. k.quiet (ap (λ (c : Config). c.tunnel.enabled) e ∙ off);
        })

    -- After a rollback the service is sound if it was before the update.
    rollback-IsSound :
        (previous : Service W) (failure : Error) (s : Service W)
        → IsSound platform previous
        → IsSound platform (rollback platform previous failure s).1
    unfolding rollback
    rollback-IsSound previous failure s h =
        let restored = restore platform previous s in
        after_rollback-IsSound previous failure _ _ h
          (reconcile_locked-IsSound platform keeps true restored h.coherent)
          (reconcile_locked-desired platform true restored).1

    after_save-IsSound :
        (previous : Service W) (failure : Option Error) (s : Service W)
        → IsSound platform previous
        → IsSound platform s
        → IsSound platform (after_save platform previous failure s).1
    unfolding after_save
    after_save-IsSound previous none s h k = k
    after_save-IsSound previous (some e) s h k = rollback-IsSound previous e s h

    after_reconcile-IsSound :
        (previous : Service W) (updated : Document) (failure : Option Error) (s : Service W)
        → IsSound platform previous
        → IsSound platform s
        → IsSound platform (after_reconcile platform previous updated failure s).1
    unfolding after_reconcile
    after_reconcile-IsSound previous updated none s h k =
        after_save-IsSound previous _ _ h (IsSound-world s _ k)
    after_reconcile-IsSound previous updated (some e) s h k = rollback-IsSound previous e s h

    after_active-IsSound :
        (updated : Document) (active : Result Config) (s : Service W)
        → active_config platform.net updated ≡ active
        → IsSound platform s
        → IsSound platform (after_active platform updated active s).1
    unfolding after_active apply_document
    after_active-IsSound updated (err e) s fits h = h
    after_active-IsSound updated (ok cfg) s fits h =
        let started = record s { document = updated; config = cfg } in
        after_reconcile-IsSound s updated _ _ h
          (reconcile_locked-IsSound platform keeps false started fits)

    after_validate-IsSound :
        (updated : Document) (invalid : Option Error) (s : Service W)
        → IsSound platform s
        → IsSound platform (after_validate platform updated invalid s).1
    unfolding after_validate
    after_validate-IsSound updated none s h = after_active-IsSound updated _ s refl h
    after_validate-IsSound updated (some e) s h = h

    update-IsSound :
        (d : Option Document) (s : Service W)
        → IsSound platform s
        → IsSound platform (update_config_document platform d s).1
    unfolding update_config_document
    update-IsSound none s h = h
    update-IsSound (some d) s h = after_validate-IsSound _ _ s h

  if-IsSound :
      (b : Bool) (x y : Option Error × Service W)
      → IsSound platform x.1
      → IsSound platform y.1
      → IsSound platform (if b then x else y).1
  if-IsSound true x y h k = h
  if-IsSound false x y h k = k

  repair-IsSound : (s : Service W) → IsSound platform s → IsSound platform (repair platform s).1
  unfolding repair
  repair-IsSound s h =
      if-IsSound _ (none, s) _ h
        (record {
          coherent = h.coherent;
          last_error = record_repair-last_error _ _ _ s.state;
          settled = record_repair-settled _ _ _ s.state h.settled;
          quiet = h.quiet;
        })

  save_checkup-IsSound :
      (cfg : Config) (c : Checkup) (s : Service W)
      → IsSound platform s
      → IsSound platform (save_checkup platform cfg c s).1
  unfolding save_checkup
  save_checkup-IsSound cfg c s h = record {
    coherent = h.coherent;
    last_error = refl;
    settled =
        unfold record_checkup in
        ground (arith, h.settled, eq_iff reconcile_degraded reconcile_reconciling);
    quiet = h.quiet;
  }

  stop-IsSound : (s : Service W) → IsSound platform s → IsSound platform (stop_service platform s)
  unfolding stop_service
  stop-IsSound s h =
      let same = stop_advertiser-SameDesired platform s in
      record {
        coherent = rw (same.document, same.config) h.coherent;
        last_error = rw same.state h.last_error;
        settled = rw same.state h.settled;
        quiet = λ _. advertiser-stop_advertiser platform s;
      }

  perform-IsSound :
      KeepsSwitch platform
      → (e : Event W) (s : Service W) → IsSound platform s
      → IsSound platform (perform platform e s)
  unfolding perform
  perform-IsSound keeps (update d) s h = update-IsSound keeps d s h
  perform-IsSound keeps (reconcile force) s h =
      reconcile_locked-IsSound platform keeps force s h.coherent
  perform-IsSound keeps repair_addresses s h = repair-IsSound s h
  perform-IsSound keeps (checkup cfg c) s h = save_checkup-IsSound cfg c s h
  perform-IsSound keeps stop s h = stop-IsSound s h
  perform-IsSound keeps (outside w) s h = IsSound-world s w h

  -- Where the backend does not switch the tunnel, every interleaving of critical sections, with
  -- whatever values were read before and whatever happens outside, keeps a sound service sound: its
  -- effective configuration is the active configuration of its document, its last error is its
  -- first degraded reason, its reconcile state is not the one in between, and no advertiser runs
  -- while the tunnel is switched off.
  pub run-IsSound :
      KeepsSwitch platform
      → (events : List (Event W)) (s : Service W) → IsSound platform s
      → IsSound platform (run platform events s)
  unfolding run
  run-IsSound keeps [] s h = h
  run-IsSound keeps (e ∷ es) s h =
      run-IsSound keeps es (perform platform e s) (perform-IsSound keeps e s h)
