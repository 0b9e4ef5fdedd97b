-- ===== src/Server/Readiness.antt =====
-- What holds once `runServe` of cmd/server/main.go serves.
use unifi_6in.Prelude.{ℕ, String, ◌≡◌, refl, Option, none, some, List}
use unifi_6in.Errors.{Error, Result, ok, err}
use unifi_6in.Logging.Logger.{LogOs, Logger, init, log_file_name}
use unifi_6in.Logging.Rotation.{Sizes, IsBounded, init-bounds}
use unifi_6in.Control.Platform.{Platform}
use unifi_6in.Control.Reconcile.{Service}
use unifi_6in.Control.Service.{new_service, start}
use unifi_6in.Control.Service.Startup.{start-IsSound}
use unifi_6in.Control.Interleaving.Soundness.{KeepsSwitch, IsSound}
use unifi_6in.Api.Daemon.{Daemon}
use unifi_6in.Server.{Paths, config_path_of, socket_path, SocketOs, listen_unix_socket}
use unifi_6in.Server.Socket.{Listeners, Listens, listen_unix_socket-Listens}
use unifi_6in.Server.Startup.{
  Served, died, serving, platform_of, after_socket, after_create, after_init, run_serve,
}

module _ {D W V U : Type 0} (paths : Paths) (platform_at : String → String → Platform D W)
    (logs : LogOs V) (sockets : SocketOs U) (sizes : Sizes logs) (laws : Listeners sockets)
    (keeps : (config state : String) → KeepsSwitch (platform_at config state)) where
  abbrev platform : String → Platform D W
  platform config = platform_of paths platform_at logs sockets config

  -- A daemon that serves has a sound service, a log file of its directory below the limit, and one
  -- listener more than before, on a socket that only its owner can use. One that has died has as
  -- many listeners as before.
  abbrev pub IsReady : String → U → Served W V × U → Type 0
  IsReady config u (died _, u') = laws.open_count u' ≡ laws.open_count u
  IsReady config u (serving d listener, u') =
      IsSound (platform config) d.service
      × (d.logger.current_path ≡ logs.join_path (paths.dir config) log_file_name)
      × IsBounded logs sizes d.logger.world d.logger.current_path
      × Listens sockets laws (socket_path paths config) u (ok listener, u')

  module _ (config : String) (u : U) where
    after_socket-IsReady :
        (d : Daemon W V) (r : Result ℕ × U)
        → IsSound (platform config) d.service
        → (d.logger.current_path ≡ logs.join_path (paths.dir config) log_file_name)
          × IsBounded logs sizes d.logger.world d.logger.current_path
        → Listens sockets laws (socket_path paths config) u r
        → IsReady config u (after_socket paths platform_at logs sockets d r.0 r.1)
    unfolding after_socket
    after_socket-IsReady d (err e, u') sound opened listens = listens
    after_socket-IsReady d (ok listener, u') sound (same, bounded) listens =
        (sound, same, bounded, listens)

    after_create-IsReady :
        (logger : Logger V) (w : W) (created : Result (Service W))
        → (logger.current_path ≡ logs.join_path (paths.dir config) log_file_name)
          × IsBounded logs sizes logger.world logger.current_path
        → (new_service (platform config) w).0 ≡ created
        → IsReady config u (after_create paths platform_at logs sockets config logger created u)
    unfolding after_create
    after_create-IsReady logger w (err e) opened h = refl
    after_create-IsReady logger w (ok s) opened h =
        after_socket-IsReady (record { service = (start (platform config) s).1; logger = logger })
          (listen_unix_socket sockets (socket_path paths config) u)
          (start-IsSound (platform config) (keeps _ _) w s h) opened
          (listen_unix_socket-Listens sockets laws (socket_path paths config) u)

    after_init-IsReady :
        (l : Logger V) (w : W) (failure : Option Error)
        → (init logs (paths.dir config) l).0 ≡ failure
        → IsReady config u (
            after_init paths platform_at logs sockets config failure
              (init logs (paths.dir config) l).1
              w
              u)
    unfolding after_init
    after_init-IsReady l w (some e) h = refl
    after_init-IsReady l w none h =
        after_create-IsReady (init logs (paths.dir config) l).1 w _
          (init-bounds logs sizes (paths.dir config) l h) refl

  pub run_serve-IsReady :
      (args : List String) (l : Logger V) (w : W) (u : U)
      → IsReady
          (config_path_of paths (paths.parse_flags args).0)
          u
          (run_serve paths platform_at logs sockets args l w u)
  unfolding run_serve
  run_serve-IsReady args l w u =
      let config = config_path_of paths (paths.parse_flags args).0 in
      after_init-IsReady config u l w (init logs (paths.dir config) l).0 refl
