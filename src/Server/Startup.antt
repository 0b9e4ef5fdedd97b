-- ===== src/Server/Startup.antt =====
-- `runServe` of cmd/server/main.go up to its listening: the log, the control service with its first
-- reconcile, and the control socket. Each part has the part of the machine that it works on: `V`
-- for the log, `W` for the service, `U` for the sockets. After that the process serves until it
-- ends.
use unifi_6in.Prelude.{ℕ, String, Option, none, some, List}
use unifi_6in.Text.{◌<>◌}
use unifi_6in.Errors.{Error, message, Result, ok, err}
use unifi_6in.Logging.Logger.{LogOs, Logger, init}
use unifi_6in.Control.Platform.{Platform}
use unifi_6in.Control.Reconcile.{Service}
use unifi_6in.Control.Service.{new_service, start}
use unifi_6in.Api.Daemon.{Daemon}
use unifi_6in.Server.{
  Paths, executable_dir, config_path_of, socket_path, SocketOs, listen_unix_socket,
}

pub data Served (W V : Type 0) : Type 0 where
  -- log.Fatalf, or os.Exit(1) after a message
  died : String → Served W V
  -- the daemon and the listener of its control socket
  serving : Daemon W V → ℕ → Served W V

module _ {D W V U : Type 0} (paths : Paths) (platform_at : String → String → Platform D W)
    (logs : LogOs V) (sockets : SocketOs U) where
  abbrev pub state_path : String
  state_path = paths.join (executable_dir paths) "state.json"

  -- the platform of the files that runServe gives to NewService
  abbrev pub platform_of : String → Platform D W
  platform_of config = platform_at config state_path

  -- runServe after listenUnixSocket
  unfoldable pub after_socket : Daemon W V → Result ℕ → U → Served W V × U
  after_socket d (err e) u = (died ("listen control socket failed: " <> message e), u)
  after_socket d (ok listener) u = (serving d listener, u)

  -- runServe after control.NewService; a failure of Start is only logged
  unfoldable pub after_create : String → Logger V → Result (Service W) → U → Served W V × U
  unfolding after_socket
  after_create config logger (err e) u = (died ("create control service failed: " <> message e), u)
  after_create config logger (ok s) u =
      let (_, service) = start (platform_of config) s in
      let (listening, u') = listen_unix_socket sockets (socket_path paths config) u in
      after_socket (record { service = service; logger = logger }) listening u'

  -- runServe after logging.Init
  unfoldable pub after_init : String → Option Error → Logger V → W → U → Served W V × U
  unfolding after_create
  after_init config (some e) logger w u = (died ("init logging: " <> message e), u)
  after_init config none logger w u =
      let (created, _) = new_service (platform_of config) w in after_create config logger created u

  -- func runServe
  unfoldable pub run_serve : List String → Logger V → W → U → Served W V × U
  unfolding after_init
  run_serve args l w u =
      let (flag, _) = paths.parse_flags args in
      let config = config_path_of paths flag in
      let (failure, logger) = init logs (paths.dir config) l in after_init config failure logger w u
