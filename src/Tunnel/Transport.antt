-- ===== src/Tunnel/Transport.antt =====
-- The HTTP client that NewClient of internal/tunnel/manager.go makes where it is given none. A client
-- that is given is of type `H`.
use unifi_6in.Prelude.{ℕ, String, Option, none, some, if◌then◌else◌, ◌==◌}
use unifi_6in.Tunnel.Client.{ClientConfig}

-- how a transport connects: as http.DefaultTransport, or to a socket, with a limit in seconds
pub data Dial : Type 0 where
  default_dial : Dial
  unix_dial : (path : String) → (timeout : ℕ) → Dial

pub data HttpClient (H : Type 0) : Type 0 where
  given : H → HttpClient H
  -- an http.Client of its own, with a limit in seconds
  own : Dial → (timeout : ℕ) → HttpClient H

-- the transport's DialContext
unfoldable pub dial_of : ClientConfig → Dial
dial_of cfg = if cfg.socket_path == "" then default_dial else unix_dial cfg.socket_path 5

-- the httpClient of NewClient
unfoldable pub http_client_of : {H : Type 0} → Option H → ClientConfig → HttpClient H
unfolding dial_of
http_client_of (some client) cfg = given client
http_client_of none cfg = own (dial_of cfg) 5
