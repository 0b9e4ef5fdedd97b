-- ===== src/Control/Loop/Stopping.antt =====
-- Stop of internal/control/service.go against the health loop.
use mathlib.Core.Path.{subst}
use unifi_6in.Prelude.{ℕ, ◌+◌, ◌≤◌, ◌≡◌, refl, ◌≢◌, true, is_some, arith}
use unifi_6in.Control.Platform.{Platform}
use unifi_6in.Control.Reconcile.{Service, reconcile_locked}
use unifi_6in.Control.Service.{stop_service}
use unifi_6in.Control.Loop.{
  Worker, choosing, waiting, deciding, retrying, reading, examining, saving, recovering,
  falling_back, returned, Progress, serving, closing, drained, ended, forced, advance, LoopState,
  HealthStep, leaves, advances, closes, drains, waits, HealthRun, done, more,
}
use unifi_6in.Control.Loop.Rounds.{
  at, Ends, retrying-Ends, falling_back-Ends, recovering-Ends, saving-Ends, reading-Ends,
  examining-Ends, round-health_round,
}

module _ {D W : Type 0} (platform : Platform D W) where
  HealthRun-append :
      (m n : ℕ) (x y z : LoopState platform)
      → HealthRun platform m x y
      → HealthRun platform n y z
      → HealthRun platform (m + n) x z
  HealthRun-append m n x y z done path =
      let same : n ≡ 0 + n = omega arith in subst (λ i. HealthRun platform i x z) same path
  HealthRun-append m n x y z (more {n = k} {y = v} step rest) path =
      let same : (k + n) + 1 ≡ (k + 1) + n = omega arith in
      subst (λ i. HealthRun platform i x z) same (more step (HealthRun-append k n v y z rest path))

  -- at most `k` steps to the end of the loop
  abbrev Returns : ℕ → Worker → Service W → Type 0
  Returns k l s =
      (n : ℕ) × (n ≤ k)
      × ((t : Service W) × HealthRun platform n (at platform drained l s)
            (at platform drained returned t))

  waiting-Returns : (s : Service W) → Returns 1 waiting s
  waiting-Returns s = (1, omega arith, (s, more (leaves refl) done))

  choosing-Returns : (s : Service W) → Returns 2 choosing s
  unfolding advance
  choosing-Returns s =
      (2, omega arith, (s, more (advances choosing s refl) (more (leaves refl) done)))

  Ends-Returns :
      (k : ℕ) (l : Worker) (s t : Service W)
      → Ends platform k drained (l, s) t
      → Returns (k + 2) l s
  Ends-Returns k l s t (n, few, path) =
      let (m, little, (u, rest)) = choosing-Returns t in
      (n + m, omega arith, (u, HealthRun-append n m _ _ _ path rest))

  widen : (j k : ℕ) (l : Worker) (s : Service W) → j ≤ k → Returns j l s → Returns k l s
  widen j k l s le (n, few, path) = (n, omega arith, path)

  loop-Returns : (l : Worker) (s : Service W) → Returns 8 l s
  loop-Returns choosing s = widen 2 8 choosing s (omega arith) (choosing-Returns s)
  loop-Returns waiting s = widen 1 8 waiting s (omega arith) (waiting-Returns s)
  loop-Returns deciding s = Ends-Returns 6 deciding s _ (round-health_round platform drained s)
  loop-Returns retrying s =
      widen 3 8 retrying s (omega arith)
        (Ends-Returns 1 retrying s _ (retrying-Ends platform 0 drained s))
  loop-Returns reading s =
      widen 7 8 reading s (omega arith)
        (Ends-Returns 5 reading s _ (reading-Ends platform drained s))
  loop-Returns (examining cfg) s =
      widen 6 8 (examining cfg) s (omega arith)
        (Ends-Returns 4 (examining cfg) s _ (examining-Ends platform drained cfg s))
  loop-Returns (saving cfg c) s =
      widen 5 8 (saving cfg c) s (omega arith)
        (Ends-Returns 3 (saving cfg c) s _ (saving-Ends platform drained cfg c s))
  loop-Returns (recovering cfg c) s =
      widen 4 8 (recovering cfg c) s (omega arith)
        (Ends-Returns 2 (recovering cfg c) s _ (recovering-Ends platform drained cfg c s))
  loop-Returns falling_back s =
      widen 3 8 falling_back s (omega arith)
        (Ends-Returns 1 falling_back s _ (falling_back-Ends platform 0 drained s))
  loop-Returns returned s = (0, omega arith, (s, done))

  -- a state from which Stop can return, in at most `k` steps
  abbrev pub CanReturn : ℕ → LoopState platform → Type 0
  CanReturn k x =
      (n : ℕ) × (n ≤ k)
      × ((y : LoopState platform) × HealthRun platform n x y
          × (y.phase ≡ ended)
          × (y.worker ≡ returned))

  drained-CanReturn : (l : Worker) (s : Service W) → CanReturn 9 (at platform drained l s)
  drained-CanReturn l s =
      let (n, few, (t, path)) = loop-Returns l s in
      (
        n + 1,
        omega arith,
        (
          at platform ended returned t,
          HealthRun-append n 1 _ _ _ path (more waits done),
          refl,
          refl,
        ),
      )

  step-CanReturn :
      (k : ℕ) (x y : LoopState platform)
      → HealthStep platform x y
      → CanReturn k y
      → CanReturn (k + 1) x
  step-CanReturn k x y step (n, few, (z, path, over, left)) =
      (n + 1, omega arith, (z, more step path, over, left))

  -- Wherever the health loop stands when Stop has not yet returned, there is a run in which Stop
  -- returns after at most eleven steps, and the loop has returned then.
  pub stop-CanReturn :
      (p : Progress) (l : Worker) (s : Service W) → p ≢ ended → CanReturn 11 (at platform p l s)
  stop-CanReturn serving l s h =
      step-CanReturn 10 _ _ closes
        (step-CanReturn 9 _ _ (drains s) (drained-CanReturn l (stop_service platform s)))
  stop-CanReturn closing l s h =
      let (n, few, path) =
        step-CanReturn 9 _ _ (drains s) (drained-CanReturn l (stop_service platform s)) in
      (n, omega arith, path)
  stop-CanReturn drained l s h =
      let (n, few, path) = drained-CanReturn l s in (n, omega arith, path)
  stop-CanReturn ended l s h = absurd (h refl)

  -- Where the health loop is about to retry a reconcile when Stop begins, and that reconcile starts
  -- an advertiser on the service whose advertiser Stop has stopped: Stop can return and leave that
  -- advertiser running.
  pub stop-leaves_advertiser :
      (s : Service W)
      → is_some (reconcile_locked platform true (stop_service platform s)).1.advertiser ≡ true
      → (n : ℕ) × ((y : LoopState platform) × HealthRun platform n
            (at platform serving retrying s)
            y
          × (y.phase ≡ ended)
          × (y.worker ≡ returned)
          × (is_some y.service.advertiser ≡ true))
  unfolding advance
  stop-leaves_advertiser s starts =
      let stopped = stop_service platform s in
      let t = forced platform stopped in
      (
        6,
        (
          at platform ended returned t,
          more closes (
              more (drains s) (
                more (advances retrying stopped refl)
                  (more (advances choosing t refl) (more (leaves refl) (more waits done))))),
          refl,
          refl,
          starts,
        ),
      )
