-- ===== src/Api/Auth.antt =====
-- What the authorisation of internal/api/server.go keeps out.
use text.Mathlib.TextPositions.{starts_with_of_prefix}
use unifi_6in.Prelude.{
  String, ◌≡◌, refl, ◌≢◌, true, false, Option, Bool-cases, inl, inr, if◌then◌else◌, ◌==◌, eq_iff,
}
use unifi_6in.Text.{◌<>◌}
use unifi_6in.Net.{NetIp}
use unifi_6in.Config.Raw.{Json}
use unifi_6in.Api.Http.{Request, Response, http_error}
use unifi_6in.Api.Handler.{Controller, Log}
use unifi_6in.Api.Server.{
  HandlerOf, is_api, auth_middleware, cors_middleware, outer_mux, new_server, new_api_mux,
}

eq-false : (s t : String) → s ≢ t → s == t ≡ false
eq-false s t h = elim (Bool-cases (s == t)) [
  | inl same ↦ absurd (h ((eq_iff s t).0 same))
  | inr other ↦ other
]

-- The test of a path sees every path below `/api/`.
pub is_api-below : (path rest : String) → "/api/" <> rest ≡ path → is_api path ≡ true
is_api-below path rest below = starts_with_of_prefix "/api/" path (rest, below)

module _ {D S : Type 0} where
  auth_middleware-stranger :
      (get_token : S → String) (next : HandlerOf D S) (r : Request D) (s : S)
      → get_token s ≢ ""
      → r.authorization ≢ "Bearer " <> get_token s
      → auth_middleware get_token next r s ≡ (http_error "unauthorized" 401, s)
  unfolding auth_middleware
  auth_middleware-stranger get_token next r s locked wrong =
      rw
        (
          eq-false (get_token s) "" locked,
          eq-false r.authorization ("Bearer " <> get_token s) wrong,
        )
        refl

  -- what a server makes of a request for the state `s`: it keeps the state, and under /api/ it
  -- answers 401
  abbrev Refuses : Request D → S → Response × S → Type 0
  Refuses r s result = (result.1 ≡ s) × (is_api r.path ≡ true → result.0.code ≡ 401)

  cors_middleware-Refuses :
      (next : HandlerOf D S) (r : Request D) (s : S)
      → Refuses r s (next r s)
      → ((cors_middleware next r s).1 ≡ s)
        × (is_api r.path ≡ true
            → (cors_middleware next r s).0.code ≡ (if r.method == "OPTIONS" then 204 else 401))
  unfolding cors_middleware
  cors_middleware-Refuses next r s (kept, code) = elim (Bool-cases (is_api r.path)) [
    | inr other ↦ rw other (kept, λ h. absurd (cc))
    | inl api ↦ elim (Bool-cases (r.method == "OPTIONS")) [
      | inl preflight ↦ rw (api, preflight) (refl, λ _. refl)
      | inr asks ↦ rw (api, asks) (kept, λ h. code api)
    ]
  ]

  module _ (net : NetIp) (codec : Json D) (controller : Controller S) (log : Log S) where
    outer_mux-Refuses :
        (get_token : S → String) (web : Option (Request D → Response)) (r : Request D) (s : S)
        → get_token s ≢ ""
        → r.authorization ≢ "Bearer " <> get_token s
        → Refuses r s (outer_mux net codec controller log get_token web r s)
    unfolding outer_mux
    outer_mux-Refuses get_token web r s locked wrong = elim (Bool-cases (is_api r.path)) [
      | inl api ↦
          rw
            (
              api,
              auth_middleware-stranger get_token (new_api_mux net codec controller log) r s locked
                  wrong,
            )
            (refl, λ _. refl)
      | inr other ↦ elim (Bool-cases (r.path == "/api")) [
        | inl root ↦ rw (other, root) (refl, λ h. absurd (cc))
        | inr page ↦ rw (other, page) (refl, λ h. absurd (cc))
      ]
    ]

    -- Where there is a token and a request does not bear it: the server changes nothing, whatever
    -- the method and the path are, and if the path begins with `/api/` it answers 401, or 204 to a
    -- preflight.
    pub new_server-Refuses :
        (get_token : S → String) (web : Option (Request D → Response)) (r : Request D) (s : S)
        → get_token s ≢ ""
        → r.authorization ≢ "Bearer " <> get_token s
        → let (response, s') = new_server net codec controller log get_token web r s in
          (s' ≡ s)
          × ((rest : String)
              → "/api/" <> rest ≡ r.path
              → response.code ≡ (if r.method == "OPTIONS" then 204 else 401))
    unfolding new_server
    new_server-Refuses get_token web r s locked wrong =
        let (kept, code) =
          cors_middleware-Refuses (outer_mux net codec controller log get_token web) r s
            (outer_mux-Refuses get_token web r s locked wrong) in
        (kept, λ rest below. code (is_api-below r.path rest below))
