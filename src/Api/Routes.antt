-- ===== src/Api/Routes.antt =====
-- The routes of internal/api/server.go, as a table, and what a request for one of them is answered
-- over the network.
use unifi_6in.Prelude.{
  String, ◌≡◌, refl, ap, ◌∙◌, ◌⊎◌, inl, inr, true, false, Option, ◌++◌, Bool-cases, ◌==◌, eq_iff,
}
use unifi_6in.Text.{◌<>◌}
use unifi_6in.Net.{NetIp}
use unifi_6in.Config.Raw.{Json}
use unifi_6in.Api.Http.{Request, Response}
use unifi_6in.Api.Handler.{
  Controller, Log, handle_get_status, handle_get_config, handle_update_config, handle_get_health,
  handle_get_logs, handle_tunnel_up, handle_tunnel_down, handle_tunnel_restart,
}
use unifi_6in.Api.Server.{
  HandlerOf, is_api, cors_headers, serve_routes, routes_of, auth_middleware, cors_middleware,
  outer_mux, new_server, new_api_mux,
}
use unifi_6in.Api.Auth.{is_api-below}

-- what can be asked for
pub data Route : Type 0 where
  get_status : Route
  get_config : Route
  put_config : Route
  get_health : Route
  get_logs : Route
  tunnel_up : Route
  tunnel_down : Route
  tunnel_restart : Route

abbrev pub method_of : Route → String
method_of get_status = "GET"
method_of get_config = "GET"
method_of put_config = "PUT"
method_of get_health = "GET"
method_of get_logs = "GET"
method_of tunnel_up = "POST"
method_of tunnel_down = "POST"
method_of tunnel_restart = "POST"

-- the path below /api/
abbrev pub name_of : Route → String
name_of get_status = "status"
name_of get_config = "config"
name_of put_config = "config"
name_of get_health = "health"
name_of get_logs = "logs"
name_of tunnel_up = "tunnel/up"
name_of tunnel_down = "tunnel/down"
name_of tunnel_restart = "tunnel/restart"

-- a result, its response with the headers for browsers
abbrev pub with_cors : {S : Type 0} → Response × S → Response × S
with_cors (response, s) = (record response { headers = cors_headers ++ response.headers }, s)

module _ {D S : Type 0} where
  cors_middleware-asks :
      (next : HandlerOf D S) (r : Request D) (s : S)
      → is_api r.path ≡ true
      → r.method == "OPTIONS" ≡ false
      → cors_middleware next r s ≡ with_cors (next r s)
  unfolding cors_middleware
  cors_middleware-asks next r s api asked = rw (api, asked) refl

  auth_middleware-friend :
      (get_token : S → String) (next : HandlerOf D S) (r : Request D) (s : S)
      → (get_token s ≡ "") ⊎ (r.authorization ≡ "Bearer " <> get_token s)
      → auth_middleware get_token next r s ≡ next r s
  unfolding auth_middleware
  auth_middleware-friend get_token next r s (inl unlocked) =
      rw ((eq_iff (get_token s) "").1 unlocked) refl
  auth_middleware-friend get_token next r s (inr right) = elim (Bool-cases (get_token s == "")) [
    | inl unlocked ↦ rw unlocked refl
    | inr locked ↦ rw (locked, (eq_iff r.authorization ("Bearer " <> get_token s)).1 right) refl
  ]

  module _ (net : NetIp) (codec : Json D) (controller : Controller S) (log : Log S) where
    abbrev pub handler_of : Route → HandlerOf D S
    handler_of get_status = handle_get_status net codec controller log
    handler_of get_config = handle_get_config net codec controller log
    handler_of put_config = handle_update_config net codec controller log
    handler_of get_health = handle_get_health net codec controller log
    handler_of get_logs = handle_get_logs net codec controller log
    handler_of tunnel_up = handle_tunnel_up net codec controller log
    handler_of tunnel_down = handle_tunnel_down net codec controller log
    handler_of tunnel_restart = handle_tunnel_restart net codec controller log

    new_api_mux-Route :
        (route : Route) (r : Request D) (s : S)
        → r.method ≡ method_of route
        → "/api/" <> name_of route ≡ r.path
        → new_api_mux net codec controller log r s ≡ handler_of route r s
    unfolding new_api_mux routes_of serve_routes
    new_api_mux-Route get_status r s m p = rw (m, ← p) refl
    new_api_mux-Route get_config r s m p = rw (m, ← p) refl
    new_api_mux-Route put_config r s m p = rw (m, ← p) refl
    new_api_mux-Route get_health r s m p = rw (m, ← p) refl
    new_api_mux-Route get_logs r s m p = rw (m, ← p) refl
    new_api_mux-Route tunnel_up r s m p = rw (m, ← p) refl
    new_api_mux-Route tunnel_down r s m p = rw (m, ← p) refl
    new_api_mux-Route tunnel_restart r s m p = rw (m, ← p) refl

    asks : (route : Route) → method_of route == "OPTIONS" ≡ false
    asks get_status = refl
    asks get_config = refl
    asks put_config = refl
    asks get_health = refl
    asks get_logs = refl
    asks tunnel_up = refl
    asks tunnel_down = refl
    asks tunnel_restart = refl

    -- A request for one of the eight routes, by its method and its path, reaches the handler of that
    -- route over the network where there is no token or the request bears it: the server does what
    -- the handler does, and answers what it answers with the headers for browsers.
    pub new_server-Serves :
        (get_token : S → String) (web : Option (Request D → Response)) (route : Route)
        (r : Request D) (s : S)
        → r.method ≡ method_of route
        → "/api/" <> name_of route ≡ r.path
        → (get_token s ≡ "") ⊎ (r.authorization ≡ "Bearer " <> get_token s)
        → new_server net codec controller log get_token web r s ≡ with_cors (handler_of route r s)
    unfolding new_server outer_mux
    new_server-Serves get_token web route r s m p friend =
        let api = is_api-below r.path (name_of route) p in
        let served =
          auth_middleware-friend get_token (new_api_mux net codec controller log) r s friend
          ∙ new_api_mux-Route route r s m p in
        cors_middleware-asks (outer_mux net codec controller log get_token web) r s api
          (ap (λ method. method == "OPTIONS") m ∙ asks route)
        ∙ ap with_cors (rw api served)
