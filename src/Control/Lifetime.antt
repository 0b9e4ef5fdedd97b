-- ===== src/Control/Lifetime.antt =====
-- The service of internal/control from `NewService` on, over the backend that cmd/server gives it.
use unifi_6in.Prelude.{◌≡◌, List}
use unifi_6in.Errors.{ok}
use unifi_6in.Control.Backend.Exec.{System, Machine}
use unifi_6in.Control.Backend.Converge.{system_backend}
use unifi_6in.Control.Backend.Laws.{system_backend-KeepsSwitch}
use unifi_6in.Control.Platform.{Platform}
use unifi_6in.Control.Reconcile.{Service}
use unifi_6in.Control.Service.{new_service, start}
use unifi_6in.Control.Service.Startup.{start-IsSound}
use unifi_6in.Control.Interleaving.{Event, run}
use unifi_6in.Control.Interleaving.Preservation.{run-IsSound}
use unifi_6in.Control.Interleaving.Soundness.{IsSound}

module _ {D W : Type 0} (system : System W) (platform : Platform D (Machine W)) where
  -- Of a platform with the system's backend, and whatever its commands answer and its files hold: a
  -- service that NewService has made is sound after Start, and after every interleaving of critical
  -- sections that follows.
  pub lifetime-IsSound :
      platform.backend ≡ system_backend system
      → (m : Machine W) (s : Service (Machine W)) → (new_service platform m).0 ≡ ok s
      → (events : List (Event (Machine W)))
      → IsSound platform (run platform events (start platform s).1)
  lifetime-IsSound real m s created events =
      let keeps = system_backend-KeepsSwitch system platform real in
      run-IsSound platform keeps events (start platform s).1
        (start-IsSound platform keeps m s created)
