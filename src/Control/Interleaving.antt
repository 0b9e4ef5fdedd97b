-- ===== src/Control/Interleaving.antt =====
-- The service of internal/control/service.go under concurrent requests. Every change of its fields
-- happens in a critical section of its mutex; a run is a sequence of such sections, in any order
-- and with any values that were read before, and of changes of the world from outside.
pub mod Preservation
pub mod Soundness
pub mod Sections
use unifi_6in.Prelude.{Bool, Option, List, [], ◌∷◌}
use unifi_6in.Config.Types.{Config, Document}
use unifi_6in.Control.Platform.{Platform}
use unifi_6in.Control.Reconcile.{Service, reconcile_locked}
use unifi_6in.Control.Service.{update_config_document, stop_service}
use unifi_6in.Control.Health.{Checkup, repair, save_checkup}

pub data Event (W : Type 0) : Type 0 where
  -- UpdateConfigDocument, also as the second half of UpdateConfig, Up and Down
  update : Option Document → Event W
  -- reconcile: Start, Restart, a retry of the health loop, or a recovery
  reconcile : Bool → Event W
  -- repairManagedAddresses
  repair_addresses : Event W
  -- the second critical section of runHealthCheck, with what its first read and what it found
  checkup : Config → Checkup → Event W
  -- Stop
  stop : Event W
  -- what happens outside of the critical sections
  outside : W → Event W

module _ {D W : Type 0} (platform : Platform D W) where
  unfoldable pub perform : Event W → Service W → Service W
  perform (update d) s = (update_config_document platform d s).1
  perform (reconcile force) s = (reconcile_locked platform force s).1
  perform repair_addresses s = (repair platform s).1
  perform (checkup cfg c) s = (save_checkup platform cfg c s).1
  perform stop s = stop_service platform s
  perform (outside w) s = record s { world = w }

  unfoldable pub run : List (Event W) → Service W → Service W
  run [] s = s
  run (e ∷ es) s = run es (perform e s)
