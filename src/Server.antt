-- ===== src/Server.antt =====
-- cmd/server/main.go: the choice of the command, the command `ctl` over the client of the daemon,
-- and the control socket. Packages flag, path/filepath, net and os are parameters.
pub mod Socket
pub mod Ctl
pub mod Startup
pub mod Readiness
pub mod Traffic
use unifi_6in.Prelude.{
  ℕ, ◌*◌, String, true, false, ◌&&◌, not, Option, none, some, List, [], ◌∷◌, if◌then◌else◌, ◌==◌,
}
use unifi_6in.Text.{◌<>◌}
use unifi_6in.Errors.{Error, is_not_exist, message, Result, ok, err}
use unifi_6in.Tunnel.{Status}
use unifi_6in.Tunnel.Client.{Client, Http, new_client, status, health, up, down, restart}

-- func firstArgument, of os.Args
unfoldable pub first_argument : List String → String
first_argument [] = ""
first_argument (_ ∷ []) = ""
first_argument (_ ∷ x ∷ _) = x

-- what main runs, with the arguments of it
pub data Command : Type 0 where
  run_ctl_of : List String → Command
  run_serve_of : List String → Command

-- os.Args[1:], of arguments that are there
abbrev pub rest_of : List String → List String
rest_of [] = []
rest_of (_ ∷ xs) = xs

-- func main
unfoldable pub main_command : List String → Command
unfolding first_argument
main_command args =
    let command = first_argument args in
    if command == "ctl"
    then run_ctl_of (rest_of (rest_of args))
    else if command == "serve"
    then run_serve_of (rest_of (rest_of args))
    else run_serve_of (rest_of args)

-- package path/filepath, and os.Args[0]
pub record Paths : Type 0 where
  pub program : String
  pub dir : String → String
  pub base : String → String
  pub join : String → String → String
  -- the flags of a command line: the value of `config`, and the arguments after the flags
  pub parse_flags : List String → String × List String
  -- the verb %q
  pub quote : String → String

-- how runCtl ends
pub data Ended : Type 0 where
  quiet : Ended
  printed : Status → Ended
  -- log.Fatal
  fatal : String → Ended

abbrev pub ended_status : Result Status → Ended
ended_status (ok st) = printed st
ended_status (err e) = fatal (message e)

abbrev pub ended_command : Option Error → Ended
ended_command none = quiet
ended_command (some e) = fatal (message e)

module _ (paths : Paths) where
  -- func executableDir
  abbrev pub executable_dir : String
  executable_dir = paths.dir paths.program

  -- the configuration file: the flag, or the one beside the program
  abbrev pub config_path_of : String → String
  config_path_of flag = if flag == "" then paths.join executable_dir "config.json" else flag

  -- the path of the control socket, beside the configuration file
  abbrev pub socket_path : String → String
  socket_path config = paths.join (paths.dir config) "daemon.sock"

  module _ {B S : Type 0} (http : Http B S) where
    -- the switch of runCtl
    unfoldable pub run_command : Client → String → S → Ended × S
    run_command client command s =
        let (status_found, after_status) = status http client s in
        let (health_found, after_health) = health http client s in
        let (up_failure, after_up) = up http client s in
        let (down_failure, after_down) = down http client s in
        let (restart_failure, after_restart) = restart http client s in
        if command == "status"
        then (ended_status status_found, after_status)
        else if command == "health"
        then (ended_status health_found, after_health)
        else if command == "up"
        then (ended_command up_failure, after_up)
        else if command == "down"
        then (ended_command down_failure, after_down)
        else if command == "restart"
        then (ended_command restart_failure, after_restart)
        else (fatal ("unknown ctl command " <> paths.quote command), s)

    unfoldable pub run_parsed : String → List String → S → Ended × S
    unfolding run_command
    run_parsed flag [] s =
        (fatal ("usage: " <> paths.base paths.program <> " ctl {status|up|down|restart|health}"), s)
    run_parsed flag (command ∷ _) s =
        run_command
          (new_client
            (record { base_url = ""; socket_path = socket_path (config_path_of flag); token = "" }))
          command s

    -- func runCtl; the client's transport dials the socket of its configuration
    unfoldable pub run_ctl : List String → S → Ended × S
    unfolding run_parsed
    run_ctl args s = let (flag, rest) = paths.parse_flags args in run_parsed flag rest s

pub record SocketOs (W : Type 0) : Type 0 where
  -- filepath.Dir, os.MkdirAll of mode 0755
  pub dir : String → String
  pub mkdir_all : String → W → Option Error × W
  pub remove : String → W → Option Error × W
  -- net.Listen("unix", path)
  pub listen : String → W → Result ℕ × W
  pub chmod : String → ℕ → W → Option Error × W
  pub close : ℕ → W → W

-- 0600
abbrev pub socket_mode : ℕ
socket_mode = 6 * 64

module _ {W : Type 0} (os : SocketOs W) where
  -- listenUnixSocket after os.Chmod
  unfoldable pub after_chmod : String → ℕ → Option Error → W → Result ℕ × W
  after_chmod path listener none w = (ok listener, w)
  after_chmod path listener (some e) w = (err e, (os.remove path (os.close listener w)).1)

  unfoldable pub after_listen : String → Result ℕ → W → Result ℕ × W
  after_listen path (err e) w = (err e, w)
  after_listen path (ok listener) w =
      let (failure, w') = os.chmod path socket_mode w in after_chmod path listener failure w'

  abbrev pub listen_at : String → W → Result ℕ × W
  listen_at path w = let (listening, w') = os.listen path w in after_listen path listening w'

  unfoldable pub after_remove : String → Option Error → W → Result ℕ × W
  after_remove path none w = listen_at path w
  after_remove path (some e) w =
      let rest = listen_at path w in if not (is_not_exist e) then (err e, w) else rest

  unfoldable pub after_make_dir : String → Option Error → W → Result ℕ × W
  after_make_dir path (some e) w = (err e, w)
  after_make_dir path none w = let (failure, w') = os.remove path w in after_remove path failure w'

  -- func listenUnixSocket
  unfoldable pub listen_unix_socket : String → W → Result ℕ × W
  listen_unix_socket path w =
      let (failure, w') = os.mkdir_all (os.dir path) w in after_make_dir path failure w'
