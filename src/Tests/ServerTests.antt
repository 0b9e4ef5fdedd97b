-- ===== src/Tests/ServerTests.antt =====
-- The theorem about cmd/server applied to a machine with a stale control socket, and a run of the
-- choice of the command.
use unifi_6in.Prelude.{
  List, Bool, true, false, ℕ, ◌+◌, ◌-◌, String, ◌≡◌, refl, Option, none, some, [], ◌∷◌, ◌==◌,
  if◌then◌else◌, eq_refl,
}
use unifi_6in.Errors.{Error, plain, not_exist, Result, ok, err}
use unifi_6in.Server.{
  run_ctl_of, main_command, SocketOs, after_chmod, after_listen, after_remove, after_make_dir,
  listen_unix_socket, socket_mode,
}
use unifi_6in.Server.Startup.{
  Served, died, serving, after_init, after_create, after_socket, run_serve,
}
use unifi_6in.Logging.Logger.{
  Logger, log_file_name, init, after_mkdir, after_rotate, rotate_if_large, after_stat, install,
}
use unifi_6in.Control.Interleaving.Soundness.{IsSound}
use unifi_6in.Control.Service.{start}
use unifi_6in.Api.Daemon.{Daemon}
use unifi_6in.Server.Traffic.{
  Arrival, over_network, over_socket, health_timer, handle_all, Continues, handle_all-Continues,
  run_serve-StaysSound,
}
use unifi_6in.Tests.Fixtures.{sample_service, Stored, Disk, sample_platform}
use unifi_6in.Tests.LoggingTests.{Table, sample_log_os, sample_sizes, full_logger}
use unifi_6in.Tests.ApiTests.{sample_paths, put_request}
use unifi_6in.Tests.ControlTests.{sample_disk, sample_created, sample_KeepsSwitch}
use unifi_6in.Server.Socket.{Listeners}

main_command_runs : main_command ("unifi" ∷ "ctl" ∷ "down" ∷ []) ≡ run_ctl_of ("down" ∷ [])
unfolding main_command
main_command_runs = refl

record Machine : Type 0 where
  listeners : ℕ
  modes : String → Option ℕ

abbrev with_mode : Machine → String → Option ℕ → Machine
with_mode w path m = record w { modes = λ q. if q == path then m else w.modes q }

abbrev removed : Option ℕ → String → Machine → Option Error × Machine
removed none path w = (some (not_exist "no such file"), w)
removed (some _) path w = (none, with_mode w path none)

abbrev listening : Option ℕ → String → Machine → Result ℕ × Machine
listening none path w =
    (ok 7, record { listeners = w.listeners + 1; modes = (with_mode w path (some 509)).modes })
listening (some _) path w = (err (plain "address already in use"), w)

abbrev sample_os : SocketOs Machine
sample_os = record {
  dir = λ _. "/data";
  mkdir_all = λ _ w. (none, w);
  remove = λ path w. removed (w.modes path) path w;
  listen = λ path w. listening (w.modes path) path w;
  chmod = λ path m w. (none, with_mode w path (some m));
  close = λ _ w. record w { listeners = w.listeners - 1 };
}

removed-same :
    (m : Option ℕ) (path : String) (w : Machine) → (removed m path w).1.listeners ≡ w.listeners
removed-same none path w = refl
removed-same (some _) path w = refl

listening-opens :
    (m : Option ℕ) (path : String) (w : Machine) (listener : ℕ)
    → (listening m path w).0 ≡ ok listener
    → (listening m path w).1.listeners ≡ w.listeners + 1
listening-opens none path w listener h = refl
listening-opens (some _) path w listener h = absurd (cc)

listening-fails :
    (m : Option ℕ) (path : String) (w : Machine) (e : Error)
    → (listening m path w).0 ≡ err e
    → (listening m path w).1.listeners ≡ w.listeners
listening-fails none path w e h = absurd (cc)
listening-fails (some _) path w e h = refl

abbrev sample_listeners : Listeners sample_os
sample_listeners = record {
  open_count = λ w. w.listeners;
  mode = λ w path. w.modes path;
  mkdir_opens = λ _ w. refl;
  remove_opens = λ path w. removed-same (w.modes path) path w;
  listen_opens = λ path w listener h. listening-opens (w.modes path) path w listener h;
  listen_fails = λ path w e h. listening-fails (w.modes path) path w e h;
  chmod_opens = λ _ _ w. refl;
  chmod_sets = λ path m w _. rw (eq_refl path) refl;
  close_closes = λ _ w. refl;
}

-- a socket that an earlier run has left behind
abbrev stale_machine : Machine
stale_machine = record {
  listeners = 1;
  modes = λ q. if q == "/data/daemon.sock" then some socket_mode else none;
}

stale_socket_replaced : (listen_unix_socket sample_os "/data/daemon.sock" stale_machine).0 ≡ ok 7
unfolding listen_unix_socket after_make_dir after_remove after_listen after_chmod
stale_socket_replaced = refl

-- a start over the sample platform, with a full log and a stale socket
abbrev sample_served : Served Disk Table × Machine
sample_served =
    run_serve sample_paths (λ _ _. sample_platform) sample_log_os sample_os ("unifi" ∷ [])
      full_logger sample_disk stale_machine

abbrev is_serving : Served Disk Table → Bool
is_serving (died _) = false
is_serving (serving _ _) = true

sample_serves : is_serving sample_served.0 ≡ true
unfolding run_serve after_init after_create after_socket init after_mkdir after_rotate
    rotate_if_large after_stat install listen_unix_socket after_make_dir after_remove after_listen
    after_chmod
sample_serves = rw sample_created refl

abbrev sample_logger : Logger Table
sample_logger = (init sample_log_os "/data" full_logger).1

abbrev served : Daemon Disk Table
served = record {
  service = (start sample_platform (record sample_service { world = sample_disk })).1;
  logger = sample_logger;
}

sample_starts : sample_served.0 ≡ serving served 7
unfolding run_serve after_init after_create after_socket init after_mkdir after_rotate
    rotate_if_large after_stat install listen_unix_socket after_make_dir after_remove after_listen
    after_chmod
sample_starts = rw sample_created refl

-- a request over the network, a round of the health loop, and a request over the socket
abbrev sample_arrivals : List (Arrival Stored Disk)
sample_arrivals =
    over_network put_request
    ∷ health_timer
    ∷ over_socket (record put_request { method = "POST"; path = "/api/tunnel/down" })
    ∷ []

handle_all-Continues_example :
    Continues sample_platform sample_log_os none served
      (handle_all sample_platform sample_log_os none sample_arrivals served)
handle_all-Continues_example =
    handle_all-Continues sample_platform sample_log_os none sample_arrivals served

run_serve-StaysSound_example :
    IsSound sample_platform
      (handle_all sample_platform sample_log_os none sample_arrivals served).service
    × ((handle_all sample_platform sample_log_os none sample_arrivals served).logger.current_path
        ≡ sample_log_os.join_path "/data" log_file_name)
run_serve-StaysSound_example =
    run_serve-StaysSound sample_paths (λ _ _. sample_platform) sample_log_os sample_os sample_sizes
      sample_listeners (λ _ _. sample_KeepsSwitch) ("unifi" ∷ []) full_logger sample_disk
      stale_machine served 7 sample_starts none sample_arrivals
