-- ===== src/Api/Daemon.antt =====
-- The daemon as the handlers of internal/api see it: the control service as the controller, and the
-- logger of internal/logging as the log, as `runServe` of cmd/server/main.go joins them.
use unifi_6in.Errors.{ok}
use unifi_6in.Control.Platform.{Platform}
use unifi_6in.Control.Reconcile.{Service}
use unifi_6in.Control.Service.{up, down, restart, get_config_document, update_config_document}
use unifi_6in.Control.Health.{run_health_check}
use unifi_6in.Logging.Logger.{LogOs, Logger, tail}
use unifi_6in.Api.Handler.{Controller, Log}
use unifi_6in.Prelude.{false, some}

pub record Daemon (W V : Type 0) : Type 0 where
  pub service : Service W
  pub logger : Logger V

-- a result of the service in the daemon
abbrev pub in_daemon {ℓ} :
    {A : Type ℓ} → {W V : Type 0} → (Service W → A × Service W) → Daemon W V → A × Daemon W V
in_daemon call d = let (a, service) = call d.service in (a, record d { service = service })

abbrev pub controller_of :
    {D W : Type 0} → (V : Type 0) → (platform : Platform D W) → Controller (Daemon W V)
controller_of V platform = record {
  status = λ d. (ok d.service.state.status, d);
  health = in_daemon (run_health_check platform false);
  up = in_daemon (up platform);
  down = in_daemon (down platform);
  restart = in_daemon (restart platform);
  get_config_document = λ d. get_config_document platform d.service;
  update_config_document = λ document. in_daemon (update_config_document platform (some document));
}

abbrev pub log_of : {V : Type 0} → (W : Type 0) → (os : LogOs V) → Log (Daemon W V)
log_of W os = record { tail = λ n d. tail os n d.logger; path = λ d. d.logger.current_path }
