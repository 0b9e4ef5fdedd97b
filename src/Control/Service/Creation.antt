-- ===== src/Control/Service/Creation.antt =====
-- NewService of internal/control/service.go from its parameters.
use unifi_6in.Prelude.{String, Option, none, some, if◌then◌else◌, ◌==◌}
use unifi_6in.Errors.{plain, Result, err}
use unifi_6in.Control.Platform.{Backend, Platform}
use unifi_6in.Control.Reconcile.{Service}
use unifi_6in.Control.Service.{new_service}

-- type ServiceParams
pub record ServiceParams (W : Type 0) : Type 0 where
  pub config_path : String
  pub state_path : String
  pub backend : Option (Backend W)

-- the backend of the parameters, or else that of NewSystemBackend
unfoldable pub backend_or : {W : Type 0} → Backend W → Option (Backend W) → Backend W
backend_or system none = system
backend_or system (some backend) = backend

-- func NewService, where `platform_at` gives the platform of a backend and two paths, and `system`
-- is NewSystemBackend
unfoldable pub new_service_from :
    {D W : Type 0}
    → (Backend W → String → String → Platform D W)
    → Backend W
    → ServiceParams W
    → W
    → Result (Service W) × W
unfolding backend_or
new_service_from platform_at system params w =
    if params.config_path == ""
    then (err (plain "config path is required"), w)
    else if params.state_path == ""
    then (err (plain "state path is required"), w)
    else new_service
        (platform_at (backend_or system params.backend) params.config_path params.state_path) w
