-- ===== src/Control/Loop/Rounds.antt =====
-- Rounds of healthLoop in internal/control/service.go: what they do to the service, and that a
-- round which nothing disturbs is `health_round`.
use mathlib.Core.Path.{subst}
use unifi_6in.Prelude.{
  ℕ, ◌+◌, ◌≤◌, ◌≡◌, refl, true, ◌&&◌, not, Option, none, some, is_empty, Bool-cases, inl, inr,
  arith,
}
use unifi_6in.Errors.{Error, Result, ok, err}
use unifi_6in.Tunnel.{Status}
use unifi_6in.Config.Types.{Config}
use unifi_6in.Control.Reasons.{has_missing}
use unifi_6in.Control.Platform.{Platform}
use unifi_6in.Control.Reconcile.{Service, current_reasons, reconcile_locked}
use unifi_6in.Control.Health.{
  Checkup, repair, examine, recover, save_checkup, commit_checkup, run_health_check, status_after,
  should_retry, health_round,
}
use unifi_6in.Control.Interleaving.{reconcile, repair_addresses, checkup, outside, stop, perform}
use unifi_6in.Control.Interleaving.Preservation.{run-IsSound}
use unifi_6in.Control.Interleaving.Soundness.{KeepsSwitch, IsSound}
use unifi_6in.Control.Interleaving.Sections.{
  status_after-service, IsRun, IsRun-refl, IsRun-trans, IsRun-one,
}
use unifi_6in.Control.Loop.{
  Worker, choosing, waiting, deciding, retrying, reading, examining, saving, recovering,
  falling_back, returned, Recovery, reconciles, repairs, rests, Progress, is_busy, recovery, forced,
  after_saving, after_repair, act, advance, LoopState, HealthStep, fires, leaves, advances,
  requests, closes, drains, waits, HealthRun, done, more,
}

module _ {D W : Type 0} (platform : Platform D W) where
  act-IsRun : (r : Recovery) (s : Service W) → IsRun platform s (act platform r s).1
  unfolding act perform
  act-IsRun reconciles s = IsRun-one platform (reconcile true) s
  act-IsRun repairs s = IsRun-one platform repair_addresses s
  act-IsRun rests s = IsRun-refl platform s

  advance-IsRun : (l : Worker) (s : Service W) → IsRun platform s (advance platform l s).1
  unfolding advance perform
  advance-IsRun choosing s = IsRun-refl platform s
  advance-IsRun waiting s = IsRun-refl platform s
  advance-IsRun deciding s = IsRun-refl platform s
  advance-IsRun retrying s = IsRun-one platform (reconcile true) s
  advance-IsRun reading s = IsRun-refl platform s
  advance-IsRun (examining cfg) s = IsRun-one platform (outside (examine platform cfg s.world).1) s
  advance-IsRun (saving cfg c) s = IsRun-one platform (checkup cfg c) s
  advance-IsRun (recovering cfg c) s = act-IsRun (recovery platform cfg c) s
  advance-IsRun falling_back s = IsRun-one platform (reconcile true) s
  advance-IsRun returned s = IsRun-refl platform s

  HealthStep-IsRun :
      (x y : LoopState platform) → HealthStep platform x y → IsRun platform x.service y.service
  unfolding perform
  HealthStep-IsRun x y fires = IsRun-refl platform x.service
  HealthStep-IsRun x y (leaves _) = IsRun-refl platform x.service
  HealthStep-IsRun x y (advances l s _) = advance-IsRun l s
  HealthStep-IsRun x y (requests e s) = IsRun-one platform e s
  HealthStep-IsRun x y closes = IsRun-refl platform x.service
  HealthStep-IsRun x y (drains s) = IsRun-one platform stop s
  HealthStep-IsRun x y waits = IsRun-refl platform x.service

  pub HealthRun-IsRun :
      (n : ℕ) (x y : LoopState platform)
      → HealthRun platform n x y
      → IsRun platform x.service y.service
  HealthRun-IsRun n x y done = IsRun-refl platform x.service
  HealthRun-IsRun n x z (more {y = y} step rest) =
      IsRun-trans platform x.service y.service z.service (HealthStep-IsRun x y step)
        (HealthRun-IsRun _ y z rest)

  -- Where the backend does not switch the tunnel, whatever the health loop, Stop and the other
  -- goroutines do, in any order, and wherever the loop has given its lock back: a sound service is
  -- sound afterwards.
  pub HealthRun-IsSound :
      KeepsSwitch platform
      → (n : ℕ) (x y : LoopState platform) → HealthRun platform n x y
      → IsSound platform x.service
      → IsSound platform y.service
  HealthRun-IsSound keeps n x y path sound =
      let (events, same) = HealthRun-IsRun n x y path in
      rw same (run-IsSound platform keeps events x.service sound)

  -- the loop at a place, with a service, while Stop has got as far as `p`
  abbrev pub at : Progress → Worker → Service W → LoopState platform
  at p l s = record { phase = p; worker = l; service = s }

  next :
      (p : Progress) (l l' : Worker) (s s' : Service W)
      → is_busy l ≡ true
      → advance platform l s ≡ (l', s')
      → HealthStep platform (at p l s) (at p l' s')
  next p l l' s s' busy h =
      subst (λ (r : Worker × Service W). HealthStep platform (at p l s) (at p r.0 r.1)) h
        (advances l s busy)

  -- at most `k` steps of the loop alone, to its next round
  abbrev pub Ends : ℕ → Progress → Worker × Service W → Service W → Type 0
  Ends k p r t = (n : ℕ) × (n ≤ k) × HealthRun platform n (at p r.0 r.1) (at p choosing t)

  Ends-next :
      (k : ℕ) (p : Progress) (l : Worker) (s t : Service W)
      → is_busy l ≡ true
      → Ends k p (advance platform l s) t
      → Ends (k + 1) p (l, s) t
  Ends-next k p l s t busy (n, few, path) = (n + 1, omega arith, more (advances l s busy) path)

  pub falling_back-Ends :
      (k : ℕ) (p : Progress) (s : Service W)
      → Ends (k + 1) p (falling_back, s) (reconcile_locked platform true s).1
  unfolding advance
  falling_back-Ends k p s = Ends-next k p falling_back s _ refl (0, omega arith, done)

  pub retrying-Ends :
      (k : ℕ) (p : Progress) (s : Service W)
      → Ends (k + 1) p (retrying, s) (reconcile_locked platform true s).1
  unfolding advance
  retrying-Ends k p s = Ends-next k p retrying s _ refl (0, omega arith, done)

  repaired-Ends :
      (p : Progress) (s : Service W) (failure : Option Error)
      → Ends 1 p
          (after_repair platform failure, s)
          (elim failure as (λ _. Result Status × Service W) [
            | none ↦ (ok s.state.status, s)
            | some _ ↦ status_after platform (reconcile_locked platform true s)
          ]).1
  repaired-Ends p s none = (0, omega arith, done)
  repaired-Ends p s (some e) =
      rw (status_after-service platform (reconcile_locked platform true s))
        (falling_back-Ends 0 p s)

  recovery-Ends :
      (p : Progress) (cfg : Config) (c : Checkup) (s : Service W)
      → Ends 1 p (act platform (recovery platform cfg c) s) (recover platform true cfg c s).1
  unfolding recovery act recover
  recovery-Ends p cfg c s =
      elim (Bool-cases (
        cfg.health.auto_restart && cfg.tunnel.enabled && is_empty (current_reasons platform cfg))) [
          | inr off ↦ rw off (0, omega arith, done)
          | inl on ↦ elim (Bool-cases (cfg.health.enabled && not c.probe.ping_ok)) [
            | inl failed ↦
                rw (on, failed, status_after-service platform (reconcile_locked platform true s))
                  (0, omega arith, done)
            | inr fine ↦ elim (Bool-cases (has_missing c.observation)) [
              | inr whole ↦ rw (on, fine, whole) (0, omega arith, done)
              | inl missing ↦
                  rw (on, fine, missing)
                    (repaired-Ends p (repair platform s).1 (repair platform s).0)
            ]
          ]
        ]

  pub recovering-Ends :
      (p : Progress) (cfg : Config) (c : Checkup) (s : Service W)
      → Ends 2 p (recovering cfg c, s) (recover platform true cfg c s).1
  unfolding advance
  recovering-Ends p cfg c s = Ends-next 1 p (recovering cfg c) s _ refl (recovery-Ends p cfg c s)

  saved-Ends :
      (p : Progress) (cfg : Config) (c : Checkup) (s : Service W) (failure : Option Error)
      → Ends 2 p
          (after_saving platform cfg c failure, s)
          (elim failure as (λ _. Result Status × Service W) [
            | some e ↦ (err e, s)
            | none ↦ recover platform true cfg c s
          ]).1
  unfolding advance
  saved-Ends p cfg c s (some e) = (0, omega arith, done)
  saved-Ends p cfg c s none = recovering-Ends p cfg c s

  pub saving-Ends :
      (p : Progress) (cfg : Config) (c : Checkup) (s : Service W)
      → Ends 3 p (saving cfg c, s) (commit_checkup platform true cfg c s).1
  unfolding advance commit_checkup
  saving-Ends p cfg c s =
      Ends-next 2 p (saving cfg c) s _ refl
        (saved-Ends p cfg c (save_checkup platform cfg c s).1 (save_checkup platform cfg c s).0)

  pub examining-Ends :
      (p : Progress) (cfg : Config) (s : Service W)
      → let (c, w) = examine platform cfg s.world in
        Ends 4 p (examining cfg, s) (commit_checkup platform true cfg c (record s { world = w })).1
  unfolding advance
  examining-Ends p cfg s =
      let (c, w) = examine platform cfg s.world in
      Ends-next 3 p (examining cfg) s _ refl (saving-Ends p cfg c (record s { world = w }))

  pub reading-Ends :
      (p : Progress) (s : Service W) → Ends 5 p (reading, s) (run_health_check platform true s).1
  unfolding advance run_health_check
  reading-Ends p s = Ends-next 4 p reading s _ refl (examining-Ends p s.config s)

  -- A round of the loop that nothing disturbs takes the service to what health_round makes of it,
  -- in at most six steps from its decision.
  pub round-health_round :
      (p : Progress) (s : Service W)
      → (n : ℕ) × (n ≤ 6)
        × HealthRun platform n (at p deciding s) (at p choosing (health_round platform s))
  unfolding advance health_round
  round-health_round p s = elim (Bool-cases (should_retry platform s)) [
    | inl retry ↦ rw retry (
        Ends-next 5 p deciding s (forced platform s) refl
          (rw retry (Ends-next 4 p retrying s (forced platform s) refl (0, omega arith, done))))
    | inr check ↦ rw check (
        Ends-next 5 p deciding s (run_health_check platform true s).1 refl
          (rw check (reading-Ends p s)))
  ]
