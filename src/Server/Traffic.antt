-- ===== src/Server/Traffic.antt =====
-- The daemon that `runServe` of cmd/server/main.go serves: requests over the network and over the
-- control socket, rounds of the health loop, and what happens to the machine in between, in any
-- order. Each of them ends before the next one begins; where they overlap, their critical sections
-- are those of Control/Interleaving, and the health loop's steps those of Control/Loop.
use mathlib.Core.Path.{subst}
use unifi_6in.Prelude.{ℕ, ap, false, String, ◌≡◌, refl, ◌∙◌, Option, some, List, [], ◌∷◌}
use unifi_6in.Text.{◌<>◌}
use unifi_6in.Control.Backend.Dataplane.{int_text}
use unifi_6in.Errors.{Result, ok, err}
use unifi_6in.Config.Types.{Document}
use unifi_6in.Config.Storage.{parse_update_document}
use unifi_6in.Logging.Logger.{LogOs, Logger, log_file_name}
use unifi_6in.Logging.Rotation.{Sizes}
use unifi_6in.Control.Platform.{Platform}
use unifi_6in.Control.Service.{get_config, get_config_document, current_token}
use unifi_6in.Control.Health.{health_round}
use unifi_6in.Control.Interleaving.{outside, perform}
use unifi_6in.Control.Interleaving.Preservation.{run-IsSound}
use unifi_6in.Control.Interleaving.Soundness.{KeepsSwitch, IsSound}
use unifi_6in.Control.Interleaving.Sections.{
  IsRun, IsRun-refl, IsRun-trans, IsRun-one, update-IsRun, restart-IsRun, up-IsRun, down-IsRun,
  run_health_check-IsRun, health_round-IsRun,
}
use unifi_6in.Api.Http.{Request, Response}
use unifi_6in.Api.Handler.{
  handle_get_status, handle_get_config, handle_update_config, handle_get_health, handle_get_logs,
  handle_tunnel_up, handle_tunnel_down, handle_tunnel_restart, after_body, after_parse,
}
use unifi_6in.Api.Server.{HandlerOf, new_control_server, new_server}
use unifi_6in.Api.Daemon.{Daemon, controller_of, log_of}
use unifi_6in.Api.Keeping.{HandlersKeep, new_server-Keeps, new_control_server-Keeps}
use unifi_6in.Server.{Paths, config_path_of, SocketOs}
use unifi_6in.Server.Socket.{Listeners}
use unifi_6in.Server.Startup.{serving, state_path, platform_of, run_serve}
use unifi_6in.Server.Readiness.{IsReady, run_serve-IsReady}

-- what reaches a daemon that serves
pub data Arrival (D W : Type 0) : Type 0 where
  -- at http.ListenAndServe
  over_network : Request D → Arrival D W
  -- at http.Serve of the control socket
  over_socket : Request D → Arrival D W
  -- the timer of healthLoop
  health_timer : Arrival D W
  -- the machine changes
  meanwhile : W → Arrival D W

module _ {D W V : Type 0} (platform : Platform D W) (os : LogOs V)
    (web : Option (Request D → Response)) where
  -- the servers that runServe makes
  unfoldable pub network_server : HandlerOf D (Daemon W V)
  network_server r d =
      new_server platform.net platform.json (controller_of V platform) (log_of W os)
        (λ e. current_token platform e.service) web r d

  unfoldable pub socket_server : HandlerOf D (Daemon W V)
  socket_server r d =
      new_control_server platform.net platform.json (controller_of V platform) (log_of W os) r d

  -- the address that runServe listens at
  unfoldable pub network_address : Daemon W V → String
  network_address d = "0.0.0.0:" <> int_text (get_config platform d.service).server.port

  unfoldable pub handle : Arrival D W → Daemon W V → Daemon W V
  unfolding network_server socket_server
  handle (over_network r) d = (network_server r d).1
  handle (over_socket r) d = (socket_server r d).1
  handle health_timer d = record d { service = health_round platform d.service }
  handle (meanwhile w) d = record d { service = record (d.service) { world = w } }

  unfoldable pub handle_all : List (Arrival D W) → Daemon W V → Daemon W V
  unfolding handle
  handle_all [] d = d
  handle_all (a ∷ arrivals) d = handle_all arrivals (handle a d)

  -- The service of `e` comes from that of `d` by critical sections, and the logger is the same.
  abbrev pub Continues : Daemon W V → Daemon W V → Type 0
  Continues d e = IsRun platform d.service e.service × (e.logger ≡ d.logger)

  Continues-refl : (d : Daemon W V) → Continues d d
  Continues-refl d = (IsRun-refl platform d.service, refl)

  update-Continues :
      (document : Result Document) (d : Daemon W V)
      → Continues d
          (after_parse platform.net platform.json
            (controller_of V platform)
            (log_of W os)
            document
            d).1
  unfolding after_parse
  update-Continues (err e) d = Continues-refl d
  update-Continues (ok document) d = (update-IsRun platform (some document) d.service, refl)

  body-Continues :
      (body : Result D) (d : Daemon W V)
      → Continues d
          (after_body platform.net platform.json (controller_of V platform) (log_of W os) body d).1
  unfolding after_body
  body-Continues (err e) d = Continues-refl d
  body-Continues (ok body) d =
      update-Continues
        (parse_update_document platform.net platform.json body
          (get_config_document platform d.service))
        d

  handlers :
      (r : Request D)
      → HandlersKeep Continues Continues-refl r platform.net platform.json
          (controller_of V platform)
          (log_of W os)
  unfolding handle_get_status handle_get_config handle_update_config handle_get_health
      handle_get_logs handle_tunnel_up handle_tunnel_down handle_tunnel_restart
  handlers r = record {
    status = λ _ d. Continues-refl d;
    get_config = λ _ d. Continues-refl d;
    update_config = λ _ d. body-Continues r.body d;
    health = λ _ d. (run_health_check-IsRun platform false d.service, refl);
    logs = λ _ d. Continues-refl d;
    up = λ _ d. (up-IsRun platform d.service, refl);
    down = λ _ d. (down-IsRun platform d.service, refl);
    restart = λ _ d. (restart-IsRun platform d.service, refl);
  }

  pub handle-Continues : (a : Arrival D W) (d : Daemon W V) → Continues d (handle a d)
  unfolding handle network_server socket_server
  handle-Continues (over_network r) d =
      new_server-Keeps Continues Continues-refl r platform.net platform.json
        (controller_of V platform) (log_of W os) (handlers r)
        (λ e. current_token platform e.service) web d
  handle-Continues (over_socket r) d =
      new_control_server-Keeps Continues Continues-refl r platform.net platform.json
        (controller_of V platform) (log_of W os) (handlers r) d
  handle-Continues health_timer d = (health_round-IsRun platform d.service, refl)
  handle-Continues (meanwhile w) d =
      (unfold perform in IsRun-one platform (outside w) d.service, refl)

  -- Whatever reaches the daemon, in any order: its service does nothing but critical sections of
  -- its mutex, between which the machine may change, and its logger stays.
  pub handle_all-Continues :
      (arrivals : List (Arrival D W)) (d : Daemon W V) → Continues d (handle_all arrivals d)
  unfolding handle_all
  handle_all-Continues [] d = Continues-refl d
  handle_all-Continues (a ∷ arrivals) d =
      let (first, kept) = handle-Continues a d in
      let (rest, kept_on) = handle_all-Continues arrivals (handle a d) in
      (IsRun-trans platform d.service (handle a d).service _ first rest, kept_on ∙ kept)

  handle_all-IsSound :
      KeepsSwitch platform
      → (arrivals : List (Arrival D W)) (d : Daemon W V) → IsSound platform d.service
      → IsSound platform (handle_all arrivals d).service
  handle_all-IsSound keeps arrivals d sound =
      let ((events, same), _) = handle_all-Continues arrivals d in
      rw same (run-IsSound platform keeps events d.service sound)

module _ {D W V U : Type 0} (paths : Paths) (platform_at : String → String → Platform D W)
    (logs : LogOs V) (sockets : SocketOs U) (sizes : Sizes logs) (laws : Listeners sockets)
    (keeps : (config state : String) → KeepsSwitch (platform_at config state)) where
  -- Where the backend does not switch the tunnel, and the calls of packages os and net do what
  -- Sizes and Listeners say: if runServe serves, then after any requests over the network and over
  -- the control socket, rounds of the health loop and changes of the machine, in any order, the
  -- service is sound, and the log is still `daemon.log` in the directory of the configuration.
  pub run_serve-StaysSound :
      (args : List String) (l : Logger V) (w : W) (u : U) (d : Daemon W V) (listener : ℕ)
      → (run_serve paths platform_at logs sockets args l w u).0 ≡ serving d listener
      → (web : Option (Request D → Response)) (arrivals : List (Arrival D W))
      → let config : String = config_path_of paths (paths.parse_flags args).0 in
        let platform = platform_of paths platform_at logs sockets config in
        IsSound platform (handle_all platform logs web arrivals d).service
        × ((handle_all platform logs web arrivals d).logger.current_path
            ≡ logs.join_path (paths.dir config) log_file_name)
  run_serve-StaysSound args l w u d listener serves web arrivals =
      let config : String = config_path_of paths (paths.parse_flags args).0 in
      let platform = platform_of paths platform_at logs sockets config in
      let result = run_serve paths platform_at logs sockets args l w u in
      let (sound, at_path, _, _) =
        subst
          (λ served.
            IsReady paths platform_at logs sockets sizes laws keeps config u (served, result.1))
          serves (run_serve-IsReady paths platform_at logs sockets sizes laws keeps args l w u) in
      let (_, same) = handle_all-Continues platform logs web arrivals d in
      (
        handle_all-IsSound platform logs web
            (keeps config (state_path paths platform_at logs sockets)) arrivals d sound,
        ap (λ logger. logger.current_path) same ∙ at_path,
      )
