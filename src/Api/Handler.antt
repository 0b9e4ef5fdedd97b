-- ===== src/Api/Handler.antt =====
-- internal/api/handler.go: the handlers, over a controller and the log. A handler gives its
-- response and the state after it.
use unifi_6in.Prelude.{ℕ, String, Option, none, some, List}
use unifi_6in.Text.{◌<>◌}
use unifi_6in.Errors.{Error, message, Result, ok, err}
use unifi_6in.Net.{NetIp}
use unifi_6in.Tunnel.{Status}
use unifi_6in.Config.Types.{Document}
use unifi_6in.Config.Raw.{Json}
use unifi_6in.Config.Storage.{parse_update_document}
use unifi_6in.Logging.Lines.{Bytes}
use unifi_6in.Api.Http.{
  Request, status_answer, done_answer, config_answer, log_answer, Response, http_error, write_json,
  write_control_error,
}
use unifi_6in.Api.Limit.{tail_limit}

-- type Controller
pub record Controller (S : Type 0) : Type 0 where
  pub status : S → Result Status × S
  pub health : S → Result Status × S
  pub up : S → Option Error × S
  pub down : S → Option Error × S
  pub restart : S → Option Error × S
  pub get_config_document : S → Document
  pub update_config_document : Document → S → Option Error × S

-- logging.Tail, of a number that is not negative, and logging.Path
pub record Log (S : Type 0) : Type 0 where
  pub tail : ℕ → S → Result (List Bytes)
  pub path : S → String

-- what comes after a controller's Status or Health
unfoldable pub answer_status : Result Status → Response
answer_status (ok status) = write_json 200 (status_answer status)
answer_status (err e) = http_error (message e) 500

-- what comes after a controller's command
unfoldable pub answer_command : Option Error → Response
answer_command none = write_json 200 done_answer
answer_command (some e) = write_control_error e

unfoldable pub answer_lines : String → Result (List Bytes) → Response
answer_lines path (ok lines) = write_json 200 (log_answer path lines)
answer_lines path (err e) = http_error (message e) 500

module _ {D S : Type 0} (net : NetIp) (codec : Json D) (controller : Controller S)
    (log : Log S) where
  -- func (h *Handler) HandleGetStatus
  unfoldable pub handle_get_status : Request D → S → Response × S
  handle_get_status r s = let (status, s') = controller.status s in (answer_status status, s')

  -- func (h *Handler) HandleGetHealth
  unfoldable pub handle_get_health : Request D → S → Response × S
  handle_get_health r s = let (status, s') = controller.health s in (answer_status status, s')

  -- func (h *Handler) handleTunnelCommand
  unfoldable pub handle_tunnel_command : (S → Option Error × S) → S → Response × S
  handle_tunnel_command command s = let (failure, s') = command s in (answer_command failure, s')

  -- func (h *Handler) HandleTunnelUp
  unfoldable pub handle_tunnel_up : Request D → S → Response × S
  unfolding handle_tunnel_command
  handle_tunnel_up r s = handle_tunnel_command controller.up s

  -- func (h *Handler) HandleTunnelDown
  unfoldable pub handle_tunnel_down : Request D → S → Response × S
  unfolding handle_tunnel_command
  handle_tunnel_down r s = handle_tunnel_command controller.down s

  -- func (h *Handler) HandleTunnelRestart
  unfoldable pub handle_tunnel_restart : Request D → S → Response × S
  unfolding handle_tunnel_command
  handle_tunnel_restart r s = handle_tunnel_command controller.restart s

  -- func (h *Handler) HandleGetConfig
  unfoldable pub handle_get_config : Request D → S → Response × S
  handle_get_config r s = (write_json 200 (config_answer (controller.get_config_document s)), s)

  -- HandleGetLogs after its limit
  unfoldable pub answer_logs : Option ℕ → S → Response
  answer_logs none s = http_error "invalid tail parameter" 400
  answer_logs (some limit) s = answer_lines (log.path s) (log.tail limit s)

  -- func (h *Handler) HandleGetLogs
  unfoldable pub handle_get_logs : Request D → S → Response × S
  unfolding answer_logs
  handle_get_logs r s = (answer_logs (tail_limit r.tail) s, s)

  -- HandleUpdateConfig after ParseUpdateDocument
  unfoldable pub after_parse : Result Document → S → Response × S
  after_parse (err e) s = (http_error ("invalid JSON: " <> message e) 400, s)
  after_parse (ok document) s =
      let (failure, s') = controller.update_config_document document s in
      (answer_command failure, s')

  -- HandleUpdateConfig after io.ReadAll
  unfoldable pub after_body : Result D → S → Response × S
  unfolding after_parse
  after_body (err e) s = (http_error ("read request body: " <> message e) 400, s)
  after_body (ok body) s =
      after_parse (parse_update_document net codec body (controller.get_config_document s)) s

  -- func (h *Handler) HandleUpdateConfig
  unfoldable pub handle_update_config : Request D → S → Response × S
  unfolding after_body
  handle_update_config r s = after_body r.body s
