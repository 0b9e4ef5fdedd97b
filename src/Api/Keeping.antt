-- ===== src/Api/Keeping.antt =====
-- What the servers of internal/api/server.go keep of the state where their handlers keep it.
use unifi_6in.Prelude.{
  All, String, ◌≡◌, Bool, true, false, Option, List, [], ◌∷◌, Bool-cases, inl, inr, if◌then◌else◌,
  ◌==◌,
}
use unifi_6in.Text.{◌<>◌}
use unifi_6in.Net.{NetIp}
use unifi_6in.Config.Raw.{Json}
use unifi_6in.Api.Http.{Request, Response}
use unifi_6in.Api.Handler.{
  Controller, Log, handle_get_status, handle_get_config, handle_update_config, handle_get_health,
  handle_get_logs, handle_tunnel_up, handle_tunnel_down, handle_tunnel_restart,
}
use unifi_6in.Api.Server.{
  HandlerOf, is_api, matches_method, serve_routes, auth_middleware, cors_middleware, routes_of,
  new_api_mux, new_control_server, outer_mux, new_server,
}

module _ {D S : Type 0} (R : S → S → Type 0) (same : (s : S) → R s s) (r : Request D) where
  -- the handler leads from a state to one that `R` allows
  abbrev pub Keeps : HandlerOf D S → Type 0
  Keeps handler = (s : S) → R s (handler r s).1

  -- a handler that is only called for the method of its route
  abbrev pub KeepsRoute : String × HandlerOf D S → Type 0
  KeepsRoute (method, handler) = matches_method method r.method ≡ true → Keeps handler

  serve_routes-Keeps :
      (found : Bool) (routes : List (String × HandlerOf D S))
      → All KeepsRoute routes
      → Keeps (serve_routes found routes)
  unfolding serve_routes
  serve_routes-Keeps found [] h s = same s
  serve_routes-Keeps found ((method, handler) ∷ routes) (first, rest) s =
      elim (Bool-cases (matches_method method r.method)) [
        | inl matching ↦ rw matching (first matching s)
        | inr other ↦ rw other (serve_routes-Keeps true routes rest s)
      ]

  auth_middleware-Keeps :
      (get_token : S → String) (next : HandlerOf D S)
      → Keeps next
      → Keeps (auth_middleware get_token next)
  unfolding auth_middleware
  auth_middleware-Keeps get_token next h s = elim (Bool-cases (get_token s == "")) [
    | inl unlocked ↦ rw unlocked (h s)
    | inr locked ↦ elim (Bool-cases (r.authorization == "Bearer " <> get_token s)) [
      | inl right ↦ rw (locked, right) (h s)
      | inr wrong ↦ rw (locked, wrong) (same s)
    ]
  ]

  cors_middleware-Keeps : (next : HandlerOf D S) → Keeps next → Keeps (cors_middleware next)
  unfolding cors_middleware
  cors_middleware-Keeps next h s = elim (Bool-cases (is_api r.path)) [
    | inr page ↦ rw page (h s)
    | inl api ↦ elim (Bool-cases (r.method == "OPTIONS")) [
      | inl preflight ↦ rw (api, preflight) (same s)
      | inr asks ↦ rw (api, asks) (h s)
    ]
  ]

  module _ (net : NetIp) (codec : Json D) (controller : Controller S) (log : Log S) where
    -- what each of the eight handlers keeps, where its route is taken
    pub record HandlersKeep : Type 0 where
      pub status : KeepsRoute ("GET", handle_get_status net codec controller log)
      pub get_config : KeepsRoute ("GET", handle_get_config net codec controller log)
      pub update_config : KeepsRoute ("PUT", handle_update_config net codec controller log)
      pub health : KeepsRoute ("GET", handle_get_health net codec controller log)
      pub logs : KeepsRoute ("GET", handle_get_logs net codec controller log)
      pub up : KeepsRoute ("POST", handle_tunnel_up net codec controller log)
      pub down : KeepsRoute ("POST", handle_tunnel_down net codec controller log)
      pub restart : KeepsRoute ("POST", handle_tunnel_restart net codec controller log)

    if-All :
        (b : Bool) (xs ys : List (String × HandlerOf D S))
        → All KeepsRoute xs
        → All KeepsRoute ys
        → All KeepsRoute (if b then xs else ys)
    if-All true xs ys h k = h
    if-All false xs ys h k = k

    module _ (keep : HandlersKeep) where
      routes_of-Keeps : (path : String) → All KeepsRoute (routes_of net codec controller log path)
      unfolding routes_of
      routes_of-Keeps path =
          if-All (path == "/api/status") _ _ (keep.status, tt)
            (if-All (path == "/api/config") _ _ (keep.get_config, (keep.update_config, tt))
              (if-All (path == "/api/health") _ _ (keep.health, tt)
                (if-All (path == "/api/logs") _ _ (keep.logs, tt)
                  (if-All (path == "/api/tunnel/up") _ _ (keep.up, tt)
                    (if-All (path == "/api/tunnel/down") _ _ (keep.down, tt)
                      (if-All (path == "/api/tunnel/restart") _ _ (keep.restart, tt) tt))))))

      new_api_mux-Keeps : Keeps (new_api_mux net codec controller log)
      unfolding new_api_mux
      new_api_mux-Keeps s = serve_routes-Keeps false _ (routes_of-Keeps r.path) s

      -- The control server keeps what its handlers keep.
      pub new_control_server-Keeps : Keeps (new_control_server net codec controller log)
      unfolding new_control_server
      new_control_server-Keeps s = new_api_mux-Keeps s

      outer_mux-Keeps :
          (get_token : S → String) (web : Option (Request D → Response))
          → Keeps (outer_mux net codec controller log get_token web)
      unfolding outer_mux
      outer_mux-Keeps get_token web s = elim (Bool-cases (is_api r.path)) [
        | inl api ↦ rw api (
            auth_middleware-Keeps get_token (new_api_mux net codec controller log) new_api_mux-Keeps
              s)
        | inr page ↦ elim (Bool-cases (r.path == "/api")) [
          | inl root ↦ rw (page, root) (same s)
          | inr other ↦ rw (page, other) (same s)
        ]
      ]

      -- The server keeps what its handlers keep.
      pub new_server-Keeps :
          (get_token : S → String) (web : Option (Request D → Response))
          → Keeps (new_server net codec controller log get_token web)
      unfolding new_server
      new_server-Keeps get_token web s =
          cors_middleware-Keeps (outer_mux net codec controller log get_token web)
            (outer_mux-Keeps get_token web) s
