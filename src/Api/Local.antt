-- ===== src/Api/Local.antt =====
-- The client of internal/tunnel/manager.go against the control server of internal/api/server.go:
-- what a command of the client does to the daemon.
use unifi_6in.Prelude.{
  String, ◌≡◌, refl, ap, ◌∙◌, true, false, Option, none, some, is_some, List, leb,
}
use unifi_6in.Text.{◌<>◌}
use unifi_6in.Errors.{Error, message, as_validation, Result, ok, err}
use unifi_6in.Net.{NetIp}
use unifi_6in.Config.Raw.{Json}
use unifi_6in.Tunnel.{Status}
use unifi_6in.Tunnel.Client.{
  Client, ClientRequest, Reply, Http, unix_base_url, authorization_of, failure_of, after_perform,
  request, decode_reply, request_status, error_of, request_command, status, health, up, down,
  restart,
}
use unifi_6in.Api.Http.{
  Request, Response, http_error, control_error_of, write_json, status_answer, write_control_error,
  done_answer,
}
use unifi_6in.Api.Handler.{
  Controller, Log, answer_status, answer_command, handle_get_status, handle_get_health,
  handle_tunnel_up, handle_tunnel_down, handle_tunnel_restart,
}
use unifi_6in.Api.Server.{HandlerOf, new_api_mux, new_control_server}

-- the request of a client without a body, as the server sees it
abbrev pub server_request : {D : Type 0} → D → String → String → String → Request D
server_request empty method path authorization = record {
  method = method;
  path = path;
  authorization = authorization;
  tail = "";
  body = ok empty;
}

-- What the socket does: it takes requests below its URL to the server, and brings back the
-- response, whose code is kept, and whose status, where it has one, is read as it was written.
pub record Connects {B D S : Type 0} (http : Http B S) (server : HandlerOf D S) : Type 0 where
  pub empty : D
  pub reply_of : Response → Reply B
  pub accepts : (method path : String) → http.new_request method (unix_base_url <> path) ≡ none
  pub carries :
      (method path authorization : String) (s : S)
      → http.perform
          (record { method = method; url = unix_base_url <> path; authorization = authorization })
          s
        ≡ (
          ok (reply_of (server (server_request empty method path authorization) s).0),
          (server (server_request empty method path authorization) s).1,
        )
  pub keeps_code : (r : Response) → (reply_of r).status_code ≡ r.code
  pub decodes :
      (st : Status) → http.decode_status (reply_of (write_json 200 (status_answer st))) ≡ ok st

-- a status that the client gives for what the controller has given
abbrev pub AgreesStatus : Result Status → Result Status → Type 0
AgreesStatus (ok st) given = given ≡ ok st
AgreesStatus (err e) given = (failure : Error) × (given ≡ err failure)

-- an error that the client gives for what the controller has given
abbrev pub AgreesCommand : Option Error → Option Error → Type 0
AgreesCommand failure given = is_some given ≡ is_some failure

module _ {B D S : Type 0} (http : Http B S) (net : NetIp) (codec : Json D)
    (controller : Controller S) (log : Log S)
    (socket : Connects http (new_control_server {D = D} {S = S} net codec controller log))
    (c : Client) (local : c.base_url ≡ unix_base_url) where
  -- the response of the control server to the client's request
  abbrev response : String → String → S → Response × S
  response method path s =
      new_control_server net codec controller log
        (server_request socket.empty method path (authorization_of c)) s

  request-response :
      (method path : String) (s : S)
      → request http c method path s ≡ (
        after_perform http (ok (socket.reply_of (response method path s).0)),
        (response method path s).1,
      )
  unfolding request
  request-response method path s =
      let auth = authorization_of c in
      let asks : String → ClientRequest =
        λ base. record { method = method; url = base <> path; authorization = auth } in
      let accepted : http.new_request method (c.base_url <> path) ≡ none =
        ap (λ base. http.new_request method (base <> path)) local ∙ socket.accepts method path in
      let carried =
        ap (λ base. http.perform (asks base) s) local ∙ socket.carries method path auth s in
      rw (request, accepted, carried) refl

  control_error_of-code :
      (found : Option (List String)) (e : Error) → leb 400 (control_error_of found e).code ≡ true
  unfolding control_error_of
  control_error_of-code none e = refl
  control_error_of-code (some reasons) e = refl

  refused-after_perform :
      (r : Response)
      → leb 400 r.code ≡ true
      → (e : Error) × (after_perform http (ok (socket.reply_of r)) ≡ err e)
  unfolding after_perform
  refused-after_perform r h = (
    failure_of http (socket.reply_of r).status_code (socket.reply_of r).body,
    rw (ap (λ n. leb 400 n) (socket.keeps_code r) ∙ h) refl,
  )

  accepted-after_perform :
      (r : Response)
      → leb 400 r.code ≡ false
      → after_perform http (ok (socket.reply_of r)) ≡ ok (socket.reply_of r)
  unfolding after_perform
  accepted-after_perform r h = rw (ap (λ n. leb 400 n) (socket.keeps_code r) ∙ h) refl

  decode-answer_status :
      (given : Result Status)
      → AgreesStatus given
          (decode_reply http (after_perform http (ok (socket.reply_of (answer_status given)))))
  unfolding answer_status decode_reply
  decode-answer_status (ok st) =
      rw
        (
          accepted-after_perform (write_json 200 (status_answer st)) refl,
          decode_reply,
          socket.decodes st,
        )
        refl
  decode-answer_status (err e) =
      let (failure, h) = refused-after_perform (http_error (message e) 500) refl in
      (failure, rw h refl)

  error-answer_command :
      (given : Option Error)
      → AgreesCommand given
          (error_of http (after_perform http (ok (socket.reply_of (answer_command given)))))
  unfolding answer_command error_of
  error-answer_command none = rw (accepted-after_perform (write_json 200 done_answer) refl) refl
  error-answer_command (some e) =
      let (failure, h) =
        refused-after_perform (write_control_error e)
          (unfold write_control_error in control_error_of-code (as_validation e) e) in
      rw h refl

  -- what the daemon answers to the requests of the client
  get_status-served :
      (s : S)
      → response "GET" "/api/status" s
        ≡ (answer_status (controller.status s).0, (controller.status s).1)
  unfolding new_control_server new_api_mux handle_get_status
  get_status-served s = refl

  get_health-served :
      (s : S)
      → response "GET" "/api/health" s
        ≡ (answer_status (controller.health s).0, (controller.health s).1)
  unfolding new_control_server new_api_mux handle_get_health
  get_health-served s = refl

  up-served :
      (s : S)
      → response "POST" "/api/tunnel/up" s
        ≡ (answer_command (controller.up s).0, (controller.up s).1)
  unfolding new_control_server new_api_mux handle_tunnel_up
  up-served s = refl

  down-served :
      (s : S)
      → response "POST" "/api/tunnel/down" s
        ≡ (answer_command (controller.down s).0, (controller.down s).1)
  unfolding new_control_server new_api_mux handle_tunnel_down
  down-served s = refl

  restart-served :
      (s : S)
      → response "POST" "/api/tunnel/restart" s
        ≡ (answer_command (controller.restart s).0, (controller.restart s).1)
  unfolding new_control_server new_api_mux handle_tunnel_restart
  restart-served s = refl

  status-request :
      (path : String) (given : Result Status × S) (s : S)
      → response "GET" path s ≡ (answer_status given.0, given.1)
      → AgreesStatus given.0 (request_status http c path s).0
        × ((request_status http c path s).1 ≡ given.1)
  unfolding request_status
  status-request path given s served =
      rw (request-response "GET" path s, served) (decode-answer_status given.0, refl)

  command-request :
      (path : String) (given : Option Error × S) (s : S)
      → response "POST" path s ≡ (answer_command given.0, given.1)
      → AgreesCommand given.0 (request_command http c path s).0
        × ((request_command http c path s).1 ≡ given.1)
  unfolding request_command
  command-request path given s served =
      rw (request-response "POST" path s, served) (error-answer_command given.0, refl)

  -- Where the socket does what Connects says, and the client has its URL: the client's Status and
  -- Health give the status that the daemon's controller gives, and an error where it gives one, and
  -- leave the daemon as the controller does.
  pub status-AgreesStatus :
      (s : S)
      → (AgreesStatus (controller.status s).0 (status http c s).0
          × ((status http c s).1 ≡ (controller.status s).1))
        × (AgreesStatus (controller.health s).0 (health http c s).0
            × ((health http c s).1 ≡ (controller.health s).1))
  unfolding status health
  status-AgreesStatus s = (
    status-request "/api/status" (controller.status s) s (get_status-served s),
    status-request "/api/health" (controller.health s) s (get_health-served s),
  )

  -- Where the socket does what Connects says, and the client has its URL: the client's Up, Down and
  -- Restart leave the daemon as the controller's do, and give an error exactly where the controller
  -- gives one.
  pub command-AgreesCommand :
      (s : S)
      → (AgreesCommand (controller.up s).0 (up http c s).0
          × ((up http c s).1 ≡ (controller.up s).1))
        × (AgreesCommand (controller.down s).0 (down http c s).0
            × ((down http c s).1 ≡ (controller.down s).1))
        × (AgreesCommand (controller.restart s).0 (restart http c s).0
            × ((restart http c s).1 ≡ (controller.restart s).1))
  unfolding up down restart
  command-AgreesCommand s = (
    command-request "/api/tunnel/up" (controller.up s) s (up-served s),
    command-request "/api/tunnel/down" (controller.down s) s (down-served s),
    command-request "/api/tunnel/restart" (controller.restart s) s (restart-served s),
  )
