-- ===== src/Control/Loop.antt =====
-- The goroutine healthLoop of internal/control/service.go and `Stop`, as steps between which other
-- goroutines use the service. The loop gives its lock back between its steps.
pub mod Rounds
pub mod Stopping
use unifi_6in.Prelude.{
  ℕ, ◌+◌, ◌≡◌, Bool, true, false, ◌&&◌, not, Option, none, some, is_empty, if◌then◌else◌,
}
use unifi_6in.Errors.{Error}
use unifi_6in.Config.Types.{Config}
use unifi_6in.Control.Reasons.{has_missing}
use unifi_6in.Control.Platform.{Platform}
use unifi_6in.Control.Reconcile.{Service, current_reasons, reconcile_locked}
use unifi_6in.Control.Service.{stop_service}
use unifi_6in.Control.Health.{Checkup, repair, examine, save_checkup, should_retry}
use unifi_6in.Control.Interleaving.{Event, perform}

-- where the loop stands
pub data Worker : Type 0 where
  -- before currentHealthInterval, and at the select
  choosing waiting : Worker
  -- before shouldRetryReconcile, and before the reconcile of a retry
  deciding retrying : Worker
  -- in runHealthCheck: before its first critical section, after it, before its second, and after it
  reading : Worker
  examining : Config → Worker
  saving recovering : Config → Checkup → Worker
  -- after a repair that has failed
  falling_back : Worker
  returned : Worker

-- what runHealthCheck does after it has recorded a checkup
pub data Recovery : Type 0 where
  reconciles repairs rests : Recovery

-- How far Stop has got: past close(s.stopCh), past stopAdvertiserLocked, and past s.wg.Wait().
pub data Progress : Type 0 where
  serving closing drained ended : Progress

abbrev pub is_closed : Progress → Bool
is_closed serving = false
is_closed closing = true
is_closed drained = true
is_closed ended = true

-- the loop neither waits nor has it returned
abbrev pub is_busy : Worker → Bool
is_busy waiting = false
is_busy returned = false
is_busy choosing = true
is_busy deciding = true
is_busy retrying = true
is_busy reading = true
is_busy (examining _) = true
is_busy (saving _ _) = true
is_busy (recovering _ _) = true
is_busy falling_back = true

module _ {D W : Type 0} (platform : Platform D W) where
  unfoldable pub recovery : Config → Checkup → Recovery
  recovery cfg c =
      if cfg.health.auto_restart && cfg.tunnel.enabled && is_empty (current_reasons platform cfg)
      then (if cfg.health.enabled && not c.probe.ping_ok
          then reconciles
          else if has_missing c.observation
          then repairs
          else rests)
      else rests

  abbrev pub forced : Service W → Service W
  forced s = (reconcile_locked platform true s).1

  abbrev pub after_saving : Config → Checkup → Option Error → Worker
  after_saving cfg c none = recovering cfg c
  after_saving cfg c (some e) = choosing

  abbrev pub after_repair : Option Error → Worker
  after_repair none = choosing
  after_repair (some e) = falling_back

  unfoldable pub act : Recovery → Service W → Worker × Service W
  act reconciles s = (choosing, forced s)
  act repairs s = let (failure, s') = repair platform s in (after_repair failure, s')
  act rests s = (choosing, s)

  -- what a busy loop does next
  unfoldable pub advance : Worker → Service W → Worker × Service W
  unfolding recovery act
  advance choosing s = (waiting, s)
  advance waiting s = (waiting, s)
  advance deciding s = (if should_retry platform s then retrying else reading, s)
  advance retrying s = (choosing, forced s)
  advance reading s = (examining s.config, s)
  advance (examining cfg) s =
      let (c, w) = examine platform cfg s.world in (saving cfg c, record s { world = w })
  advance (saving cfg c) s =
      let (failure, s') = save_checkup platform cfg c s in (after_saving cfg c failure, s')
  advance (recovering cfg c) s = act (recovery cfg c) s
  advance falling_back s = (choosing, forced s)
  advance returned s = (returned, s)

  pub record LoopState : Type 0 where
    pub phase : Progress
    pub worker : Worker
    pub service : Service W

  -- A step of the loop, of Stop, or of another goroutine.
  pub data HealthStep : LoopState → LoopState → Type 0 where
    -- the two cases of the select
    fires :
        {p : Progress} {s : Service W}
        → HealthStep
            (record { phase = p; worker = waiting; service = s })
            (record { phase = p; worker = deciding; service = s })
    leaves :
        {p : Progress} {s : Service W}
        → is_closed p ≡ true
        → HealthStep
            (record { phase = p; worker = waiting; service = s })
            (record { phase = p; worker = returned; service = s })
    advances :
        {p : Progress} (l : Worker) (s : Service W)
        → is_busy l ≡ true
        → HealthStep
            (record { phase = p; worker = l; service = s })
            (record { phase = p; worker = (advance l s).0; service = (advance l s).1 })
    -- a critical section of another goroutine, or a change of the world
    requests :
        {p : Progress} {l : Worker} (e : Event W) (s : Service W)
        → HealthStep
            (record { phase = p; worker = l; service = s })
            (record { phase = p; worker = l; service = perform platform e s })
    closes :
        {l : Worker} {s : Service W}
        → HealthStep
            (record { phase = serving; worker = l; service = s })
            (record { phase = closing; worker = l; service = s })
    drains :
        {l : Worker} (s : Service W)
        → HealthStep
            (record { phase = closing; worker = l; service = s })
            (record { phase = drained; worker = l; service = stop_service platform s })
    waits :
        {s : Service W}
        → HealthStep
            (record { phase = drained; worker = returned; service = s })
            (record { phase = ended; worker = returned; service = s })

  -- a number of steps, one after the other
  pub data HealthRun : ℕ → LoopState → LoopState → Type 0 where
    done : {x : LoopState} → HealthRun 0 x x
    more : {n : ℕ} {x y z : LoopState} → HealthStep x y → HealthRun n y z → HealthRun (n + 1) x z
