-- ===== src/Api/Server.antt =====
-- internal/api/server.go: the routes, the authorisation and the headers for browsers. A path is
-- taken to be clean, as http.ServeMux asks for (it redirects any other).
use unifi_6in.Prelude.{
  String, Bool, true, false, ◌&&◌, ◌||◌, Option, none, some, List, [], ◌∷◌, ◌++◌, if◌then◌else◌,
  ◌==◌, starts_with,
}
use unifi_6in.Text.{◌<>◌}
use unifi_6in.Net.{NetIp}
use unifi_6in.Config.Raw.{Json}
use unifi_6in.Api.Http.{Request, Response, no_content, http_error}
use unifi_6in.Api.Handler.{
  Controller, Log, handle_get_status, handle_get_config, handle_update_config, handle_get_health,
  handle_get_logs, handle_tunnel_up, handle_tunnel_down, handle_tunnel_restart,
}

-- an http.Handler: a request and the state give a response and the state after it
abbrev pub HandlerOf : Type 0 → Type 0 → Type 0
HandlerOf D S = Request D → S → Response × S

abbrev pub cors_headers : List (String × String)
cors_headers =
    ("Access-Control-Allow-Origin", "*")
    ∷ ("Access-Control-Allow-Methods", "GET, PUT, POST, OPTIONS")
    ∷ ("Access-Control-Allow-Headers", "Authorization, Content-Type")
    ∷ []

-- strings.HasPrefix(path, "/api/")
abbrev pub is_api : String → Bool
is_api path = starts_with path "/api/"

-- how http.ServeMux matches the method of a pattern
abbrev pub matches_method : String → String → Bool
matches_method pattern method = pattern == method || (pattern == "GET" && method == "HEAD")

module _ {D S : Type 0} where
  -- http.ServeMux, of the routes of the path that is asked for; `found` tells whether there is one
  unfoldable pub serve_routes : Bool → List (String × HandlerOf D S) → HandlerOf D S
  serve_routes found [] r s = (
    if found then http_error "Method Not Allowed" 405 else http_error "404 page not found" 404,
    s,
  )
  serve_routes found ((method, handler) ∷ routes) r s =
      let rest = serve_routes true routes r s in
      if matches_method method r.method then handler r s else rest

  -- func authMiddleware
  unfoldable pub auth_middleware : (S → String) → HandlerOf D S → HandlerOf D S
  auth_middleware get_token next r s =
      let token = get_token s in
      if token == ""
      then next r s
      else if r.authorization == "Bearer " <> token
      then next r s
      else (http_error "unauthorized" 401, s)

  -- func corsMiddleware
  unfoldable pub cors_middleware : HandlerOf D S → HandlerOf D S
  cors_middleware next r s =
      let (response, s') = next r s in
      if is_api r.path
      then if r.method == "OPTIONS"
        then (record { code = 204; headers = cors_headers; content = no_content }, s)
        else (record response { headers = cors_headers ++ response.headers }, s')
      else next r s

  module _ (net : NetIp) (codec : Json D) (controller : Controller S) (log : Log S) where
    -- the calls of HandleFunc in newAPIMux, by their path
    unfoldable pub routes_of : String → List (String × HandlerOf D S)
    routes_of path =
        if path == "/api/status"
        then ("GET", handle_get_status net codec controller log) ∷ []
        else if path == "/api/config"
        then (("GET", handle_get_config net codec controller log)
            ∷ ("PUT", handle_update_config net codec controller log)
            ∷ [])
        else if path == "/api/health"
        then ("GET", handle_get_health net codec controller log) ∷ []
        else if path == "/api/logs"
        then ("GET", handle_get_logs net codec controller log) ∷ []
        else if path == "/api/tunnel/up"
        then ("POST", handle_tunnel_up net codec controller log) ∷ []
        else if path == "/api/tunnel/down"
        then ("POST", handle_tunnel_down net codec controller log) ∷ []
        else if path == "/api/tunnel/restart"
        then ("POST", handle_tunnel_restart net codec controller log) ∷ []
        else []

    -- func newAPIMux
    unfoldable pub new_api_mux : HandlerOf D S
    unfolding routes_of serve_routes
    new_api_mux r s = serve_routes false (routes_of r.path) r s

    -- func NewControlServer
    unfoldable pub new_control_server : HandlerOf D S
    new_control_server r s = new_api_mux r s

    -- the mux of NewServer, with the file server of the web page if there is one
    unfoldable pub outer_mux : (S → String) → Option (Request D → Response) → HandlerOf D S
    unfolding auth_middleware
    outer_mux get_token web r s =
        if is_api r.path
        then auth_middleware get_token new_api_mux r s
        else if r.path == "/api"
        then (http_error "Moved Permanently" 301, s)
        else (elim web [ none ↦ http_error "404 page not found" 404 | some files ↦ files r ], s)

    -- func NewServer
    unfoldable pub new_server : (S → String) → Option (Request D → Response) → HandlerOf D S
    unfolding outer_mux cors_middleware
    new_server get_token web r s = cors_middleware (outer_mux get_token web) r s
