-- ===== src/Control/Interleaving/Sections.antt =====
-- The operations of internal/control/service.go as sequences of critical sections: what each does
-- to the service is a run of events.
use mathlib.Core.Path.{subst}
use unifi_6in.Prelude.{
  ◌≡◌, refl, sym, ap, ◌∙◌, Bool, true, false, not, ◌&&◌, Option, none, some, List, [], ◌∷◌, ◌++◌,
  is_empty, if◌then◌else◌,
}
use unifi_6in.Errors.{Error, Result, ok, err}
use unifi_6in.Tunnel.{Status}
use unifi_6in.Config.Types.{Config, Document}
use unifi_6in.Control.Platform.{Platform}
use unifi_6in.Control.Reasons.{has_missing}
use unifi_6in.Control.Reconcile.{Service, reconcile_locked, current_reasons}
use unifi_6in.Control.Service.{switch, mutate_from, up, down, restart, update_config_document}
use unifi_6in.Control.Health.{
  Checkup, repair, examine, recover, save_checkup, commit_checkup, run_health_check, status_after,
  should_retry, health_round,
}
use unifi_6in.Control.Interleaving.{
  Event, update, reconcile, repair_addresses, checkup, outside, perform, run,
}

module _ {D W : Type 0} (platform : Platform D W) where
  -- the service `t` is what some critical sections make of `s`
  abbrev pub IsRun : Service W → Service W → Type 0
  IsRun s t = (events : List (Event W)) × (t ≡ run platform events s)

  run-append :
      (xs ys : List (Event W)) (s : Service W)
      → run platform (xs ++ ys) s ≡ run platform ys (run platform xs s)
  unfolding run
  run-append [] ys s = refl
  run-append (x ∷ xs) ys s = run-append xs ys (perform platform x s)

  pub IsRun-refl : (s : Service W) → IsRun s s
  unfolding run
  IsRun-refl s = ([], refl)

  pub IsRun-trans : (s t u : Service W) → IsRun s t → IsRun t u → IsRun s u
  IsRun-trans s t u (xs, e) (ys, h) =
      (xs ++ ys, h ∙ ap (run platform ys) e ∙ sym (run-append xs ys s))

  pub IsRun-one : (e : Event W) (s : Service W) → IsRun s (perform platform e s)
  unfolding run
  IsRun-one e s = (e ∷ [], refl)

  pub update-IsRun :
      (d : Option Document) (s : Service W) → IsRun s (update_config_document platform d s).1
  unfolding perform
  update-IsRun d s = IsRun-one (update d) s

  pub restart-IsRun : (s : Service W) → IsRun s (restart platform s).1
  unfolding restart perform
  restart-IsRun s = IsRun-one (reconcile true) s

  pub up-IsRun : (s : Service W) → IsRun s (up platform s).1
  unfolding up mutate_from
  up-IsRun s = update-IsRun (some (switch true s.document)) s

  pub down-IsRun : (s : Service W) → IsRun s (down platform s).1
  unfolding down mutate_from
  down-IsRun s = update-IsRun (some (switch false s.document)) s

  pub status_after-service : (r : Option Error × Service W) → (status_after platform r).1 ≡ r.1
  status_after-service (none, s) = refl
  status_after-service (some e, s) = refl

  again-IsRun :
      (s t : Service W)
      → IsRun s t
      → IsRun s (status_after platform (reconcile_locked platform true t)).1
  unfolding perform
  again-IsRun s t h =
      subst (IsRun s) (sym (status_after-service (reconcile_locked platform true t)))
        (IsRun-trans s t _ h (IsRun-one (reconcile true) t))

  repair-IsRun : (s : Service W) → IsRun s (repair platform s).1
  unfolding perform
  repair-IsRun s = IsRun-one repair_addresses s

  if-IsRun :
      {A : Type 0}
      → (b : Bool) (s : Service W) (r q : A × Service W) → IsRun s r.1
      → IsRun s q.1
      → IsRun s (if b then r else q).1
  if-IsRun true s r q h k = h
  if-IsRun false s r q h k = k

  recover-IsRun :
      (allow : Bool) (cfg : Config) (c : Checkup) (s : Service W)
      → IsRun s (recover platform allow cfg c s).1
  unfolding recover
  recover-IsRun allow cfg c s =
      let again = status_after platform (reconcile_locked platform true s) in
      let nothing : Result Status × Service W = (ok s.state.status, s) in
      let mended = elim (repair platform s).0 as (λ _. Result Status × Service W) [
        | none ↦ (ok (repair platform s).1.state.status, (repair platform s).1)
        | some _ ↦ status_after platform (reconcile_locked platform true (repair platform s).1)
      ] in
      let checked = if has_missing c.observation then mended else nothing in
      let acted = if cfg.health.enabled && not c.probe.ping_ok then again else checked in
      if-IsRun
        (allow
          && cfg.health.auto_restart
          && cfg.tunnel.enabled
          && is_empty (current_reasons platform cfg))
        s acted nothing
        (if-IsRun (cfg.health.enabled && not c.probe.ping_ok) s again checked
          (again-IsRun s s (IsRun-refl s))
          (if-IsRun (has_missing c.observation) s mended nothing (repaired (repair platform s).0)
            (IsRun-refl s)))
        (IsRun-refl s)
    where
      repaired :
          (o : Option Error)
          → IsRun s
              (elim o as (λ _. Result Status × Service W) [
                | none ↦ (ok (repair platform s).1.state.status, (repair platform s).1)
                | some _ ↦
                    status_after platform (reconcile_locked platform true (repair platform s).1)
              ]).1
      repaired none = repair-IsRun s
      repaired (some e) = again-IsRun s (repair platform s).1 (repair-IsRun s)

  commit_checkup-IsRun :
      (allow : Bool) (cfg : Config) (c : Checkup) (s : Service W)
      → IsRun s (commit_checkup platform allow cfg c s).1
  unfolding commit_checkup perform
  commit_checkup-IsRun allow cfg c s = saved (save_checkup platform cfg c s).0
    where
      recorded : IsRun s (save_checkup platform cfg c s).1
      recorded = IsRun-one (checkup cfg c) s

      saved :
          (o : Option Error)
          → IsRun s
              (elim o as (λ _. Result Status × Service W) [
                | some e ↦ (err e, (save_checkup platform cfg c s).1)
                | none ↦ recover platform allow cfg c (save_checkup platform cfg c s).1
              ]).1
      saved (some e) = recorded
      saved none =
          IsRun-trans s _ _ recorded (recover-IsRun allow cfg c (save_checkup platform cfg c s).1)

  pub run_health_check-IsRun :
      (allow : Bool) (s : Service W) → IsRun s (run_health_check platform allow s).1
  unfolding run_health_check perform
  run_health_check-IsRun allow s =
      let w = (examine platform s.config s.world).1 in
      IsRun-trans s (record s { world = w }) _ (IsRun-one (outside w) s)
        (commit_checkup-IsRun allow s.config (examine platform s.config s.world).0
          (record s { world = w }))

  pub health_round-IsRun : (s : Service W) → IsRun s (health_round platform s)
  unfolding health_round perform
  health_round-IsRun s = by_test (should_retry platform s)
    where
      by_test :
          (b : Bool)
          → IsRun s (
              if b
              then (reconcile_locked platform true s).1
              else (run_health_check platform true s).1)
      by_test true = IsRun-one (reconcile true) s
      by_test false = run_health_check-IsRun true s
