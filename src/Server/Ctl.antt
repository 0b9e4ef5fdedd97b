-- ===== src/Server/Ctl.antt =====
-- The command `ctl` of cmd/server/main.go from its arguments to the daemon: by way of the client of
-- internal/tunnel/manager.go, the control socket, and the control server of internal/api.
use mathlib.Core.Path.{subst}
use unifi_6in.Prelude.{
  String, ◌≡◌, refl, sym, ap, ◌≢◌, Option, none, some, List, ◌∷◌, Bool-cases, inl, inr, eq_iff,
  ◌==◌,
}
use unifi_6in.Errors.{Error, message, Result, ok, err}
use unifi_6in.Net.{NetIp}
use unifi_6in.Config.Raw.{Json}
use unifi_6in.Tunnel.{Status}
use unifi_6in.Tunnel.Client.{Client, Http, new_client, unix_base_url, trim_slashes}
use unifi_6in.Api.Handler.{Controller, Log}
use unifi_6in.Api.Server.{new_control_server}
use unifi_6in.Api.Local.{
  Connects, AgreesStatus, AgreesCommand, status-AgreesStatus, command-AgreesCommand,
}
use unifi_6in.Server.{
  Paths, Ended, quiet, printed, fatal, ended_status, ended_command, config_path_of, socket_path,
  run_command, run_parsed, run_ctl,
}

-- how a command ends for what the controller has given
abbrev pub IsCommandEnd : Option Error → Ended → Type 0
IsCommandEnd none ended = ended ≡ quiet
IsCommandEnd (some _) ended = (text : String) × (ended ≡ fatal text)

abbrev pub IsStatusEnd : Result Status → Ended → Type 0
IsStatusEnd (ok st) ended = ended ≡ printed st
IsStatusEnd (err _) ended = (text : String) × (ended ≡ fatal text)

AgreesCommand-end :
    (given found : Option Error)
    → AgreesCommand given found
    → IsCommandEnd given (ended_command found)
AgreesCommand-end none none h = refl
AgreesCommand-end none (some e) h = absurd (cc)
AgreesCommand-end (some _) none h = absurd (cc)
AgreesCommand-end (some _) (some e) h = (message e, refl)

AgreesStatus-end :
    (given found : Result Status)
    → AgreesStatus given found
    → IsStatusEnd given (ended_status found)
AgreesStatus-end (ok st) found h = ap ended_status h
AgreesStatus-end (err _) found (e, h) = (message e, ap ended_status h)

new_client-base_url :
    (path : String)
    → path ≢ ""
    → (new_client (record { base_url = ""; socket_path = path; token = "" })).base_url
      ≡ unix_base_url
unfolding new_client trim_slashes
new_client-base_url path h = elim (Bool-cases (path == "")) [
  | inl same ↦ absurd (h ((eq_iff path "").0 same))
  | inr other ↦ rw other refl
]

module _ {B D S : Type 0} (paths : Paths) (http : Http B S) (net : NetIp) (codec : Json D)
    (controller : Controller S) (log : Log S)
    (socket : Connects http (new_control_server {D = D} {S = S} net codec controller log)) where
  -- What a run of `ctl` with a command does: it ends as the controller does for that command, and
  -- leaves the daemon as the controller does.
  abbrev pub Serves : String → S → Ended × S → Type 0
  Serves command s result =
      (command ≡ "status"
        → IsStatusEnd (controller.status s).0 result.0 × (result.1 ≡ (controller.status s).1))
      × (command ≡ "health"
          → IsStatusEnd (controller.health s).0 result.0 × (result.1 ≡ (controller.health s).1))
      × (command ≡ "up"
          → IsCommandEnd (controller.up s).0 result.0 × (result.1 ≡ (controller.up s).1))
      × (command ≡ "down"
          → IsCommandEnd (controller.down s).0 result.0 × (result.1 ≡ (controller.down s).1))
      × (command ≡ "restart"
          → IsCommandEnd (controller.restart s).0 result.0 × (result.1 ≡ (controller.restart s).1))

  run_command-Serves :
      (c : Client)
      → c.base_url ≡ unix_base_url
      → (command : String) (s : S) → Serves command s (run_command paths http c command s)
  unfolding run_command
  run_command-Serves c local command s =
      let ((status_end, status_state), (health_end, health_state)) =
        status-AgreesStatus http net codec controller log socket c local s in
      let ((up_end, up_state), (down_end, down_state), (restart_end, restart_state)) =
        command-AgreesCommand http net codec controller log socket c local s in
      (
        λ e. rw e (AgreesStatus-end _ _ status_end, status_state),
        λ e. rw e (AgreesStatus-end _ _ health_end, health_state),
        λ e. rw e (AgreesCommand-end _ _ up_end, up_state),
        λ e. rw e (AgreesCommand-end _ _ down_end, down_state),
        λ e. rw e (AgreesCommand-end _ _ restart_end, restart_state),
      )

  -- Where the arguments of `ctl` name a command after their flags, the control socket has a path,
  -- and it does what Connects says: each of the five commands ends as the daemon's controller does,
  -- with the status that it gives or quietly, or with a fatal error where it gives an error, and
  -- leaves the daemon as it does.
  pub run_ctl-Serves :
      (args : List String) (flag command : String) (rest : List String) (s : S)
      → paths.parse_flags args ≡ (flag, command ∷ rest)
      → socket_path paths (config_path_of paths flag) ≢ ""
      → Serves command s (run_ctl paths http args s)
  unfolding run_ctl run_parsed
  run_ctl-Serves args flag command rest s parsed named =
      let path = socket_path paths (config_path_of paths flag) in
      let client = new_client (record { base_url = ""; socket_path = path; token = "" }) in
      subst (λ (x : String × List String). Serves command s (run_parsed paths http x.0 x.1 s))
        (sym parsed) (run_command-Serves client (new_client-base_url path named) command s)
