-- ===== src/Tunnel/Client.antt =====
-- internal/tunnel/manager.go: the client of the daemon. A value of `S` is what the client talks to;
-- net/http, io and encoding/json are the parameter `http`, with bodies of type `B`.

use Prim.Native.Char.{code}
use unifi_6in.Prelude.{ℕ, String, Option, none, some, leb, nat_eq, ◌&&◌, if◌then◌else◌, ◌==◌}
use unifi_6in.Text.{◌<>◌, trim_space, itoa}
use unifi_6in.Errors.{Error, plain, wrapped, Result, ok, err}
use unifi_6in.Tunnel.{Status}

abbrev pub default_url : String
default_url = "http://127.0.0.1:9086"

abbrev pub unix_base_url : String
unix_base_url = "http://unix"

-- without the HTTPClient, which is the parameter `http`
pub record ClientConfig : Type 0 where
  pub base_url : String
  pub socket_path : String
  pub token : String

pub record Client : Type 0 where
  pub base_url : String
  pub token : String

-- what http.NewRequest is given, with the header that is set after it; there is never a body
pub record ClientRequest : Type 0 where
  pub method : String
  pub url : String
  pub authorization : String

pub record Reply (B : Type 0) : Type 0 where
  pub status_code : ℕ
  -- io.ReadAll(res.Body)
  pub body : Result B

pub record Http (B S : Type 0) : Type 0 where
  -- the error of http.NewRequest
  pub new_request : String → String → Option Error
  -- the client's Do
  pub perform : ClientRequest → S → Result (Reply B) × S
  pub body_text : B → String
  -- json.NewDecoder(res.Body).Decode of a status
  pub decode_status : Reply B → Result Status

-- strings.TrimRight(s, "/")
unfoldable pub trim_slashes : String → String
trim_slashes String.[] = ""
trim_slashes (String.◌∷◌ c s) =
    let rest = trim_slashes s in
    if nat_eq (code c) b'/' && rest == "" then "" else String.◌∷◌ c rest

-- func NewClient
unfoldable pub new_client : ClientConfig → Client
unfolding trim_slashes
new_client cfg =
    let trimmed = trim_slashes cfg.base_url in
    record {
      base_url =
          if trimmed == ""
          then (if cfg.socket_path == "" then default_url else unix_base_url)
          else trimmed;
      token = cfg.token;
    }

abbrev pub authorization_of : Client → String
authorization_of c = if c.token == "" then "" else "Bearer " <> c.token

module _ {B S : Type 0} (http : Http B S) where
  -- the error of a reply with a status from 400 on
  unfoldable pub failure_of : ℕ → Result B → Error
  failure_of status (err _) = plain ("request failed with status " <> itoa status)
  failure_of status (ok body) =
      plain
        ("request failed with status " <> itoa status <> ": " <> trim_space (http.body_text body))

  -- requestJSON after Do, up to the decoding
  unfoldable pub after_perform : Result (Reply B) → Result (Reply B)
  unfolding failure_of
  after_perform (err e) = err (wrapped "perform request: " e "")
  after_perform (ok reply) =
      if leb 400 reply.status_code then err (failure_of reply.status_code reply.body) else ok reply

  -- func requestJSON up to the decoding
  unfoldable pub request : Client → String → String → S → Result (Reply B) × S
  unfolding after_perform
  request c method path s =
      let (performed, s') =
        http.perform
          (record { method = method; url = c.base_url <> path; authorization = authorization_of c })
          s in
      elim (http.new_request method (c.base_url <> path)) [
        | some e ↦ (err (wrapped "build request: " e ""), s)
        | none ↦ (after_perform performed, s')
      ]

  -- requestJSON with a status as its target
  unfoldable pub decode_reply : Result (Reply B) → Result Status
  decode_reply (err e) = err e
  decode_reply (ok reply) = elim (http.decode_status reply) [
    | err e ↦ err (wrapped "decode response: " e "")
    | ok status ↦ ok status
  ]

  unfoldable pub request_status : Client → String → S → Result Status × S
  unfolding request decode_reply
  request_status c path s = let (reply, s') = request c "GET" path s in (decode_reply reply, s')

  -- requestJSON with nil as its target
  unfoldable pub error_of : Result (Reply B) → Option Error
  error_of (err e) = some e
  error_of (ok _) = none

  unfoldable pub request_command : Client → String → S → Option Error × S
  unfolding request error_of
  request_command c path s = let (reply, s') = request c "POST" path s in (error_of reply, s')

  -- func (c *Client) Status, Health, Up, Down and Restart
  unfoldable pub status : Client → S → Result Status × S
  status c s = request_status c "/api/status" s

  unfoldable pub health : Client → S → Result Status × S
  health c s = request_status c "/api/health" s

  unfoldable pub up : Client → S → Option Error × S
  up c s = request_command c "/api/tunnel/up" s

  unfoldable pub down : Client → S → Option Error × S
  down c s = request_command c "/api/tunnel/down" s

  unfoldable pub restart : Client → S → Option Error × S
  restart c s = request_command c "/api/tunnel/restart" s
