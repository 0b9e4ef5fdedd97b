-- ===== src/Api/Http.antt =====
-- The requests and responses of internal/api, as far as its handlers look into them or write them,
-- with `writeJSON` and `writeControlError` of internal/api/handler.go. What net/http adds to a
-- response by itself (the lengths, the type of an error's text, `Allow`) is left out.
use unifi_6in.Prelude.{ℕ, String, Option, none, some, List, [], ◌∷◌}
use unifi_6in.Text.{join}
use unifi_6in.Errors.{Error, message, as_validation, Result}
use unifi_6in.Tunnel.{Status}
use unifi_6in.Config.Types.{Document}
use unifi_6in.Logging.Lines.{Bytes}

pub record Request (D : Type 0) : Type 0 where
  pub method : String
  pub path : String
  -- r.Header.Get("Authorization"), and r.URL.Query().Get("tail")
  pub authorization : String
  pub tail : String
  -- io.ReadAll(r.Body)
  pub body : Result D

-- the values that writeJSON is given
pub data Answer : Type 0 where
  status_answer : Status → Answer
  -- {"status": "ok"}
  done_answer : Answer
  config_answer : Document → Answer
  log_answer : (path : String) → List Bytes → Answer

pub data Content : Type 0 where
  no_content : Content
  -- the text of http.Error
  text : String → Content
  json : Answer → Content

pub record Response : Type 0 where
  pub code : ℕ
  pub headers : List (String × String)
  pub content : Content

-- http.Error
abbrev pub http_error : String → ℕ → Response
http_error message code = record { code = code; headers = []; content = text message }

-- func writeJSON
abbrev pub write_json : ℕ → Answer → Response
write_json code answer = record {
  code = code;
  headers = ("Content-Type", "application/json") ∷ [];
  content = json answer;
}

-- writeControlError after errors.As
unfoldable pub control_error_of : Option (List String) → Error → Response
control_error_of (some reasons) e = http_error (join "; " reasons) 400
control_error_of none e = http_error (message e) 500

-- func writeControlError
unfoldable pub write_control_error : Error → Response
unfolding control_error_of
write_control_error e = control_error_of (as_validation e) e
