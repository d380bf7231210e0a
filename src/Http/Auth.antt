-- ===== src/Http/Auth.antt =====
-- pkg/edgeview/http_handler.go and ui_embed.go: who may pass.
use vrtc.Base.{
  ◌≡◌, ◌≢◌, refl, subst, inl, inr, String-cases, str_eq-ne, Bool, true, false, not, ◌&&◌, ◌||◌,
  String, str_eq, join, if◌then◌else◌,
}
use vrtc.Http.Text.{lower_is, has_prefix}
use vrtc.Http.Range.{Response, ok, problem, unauthorized}

-- The parts of a request that the middleware reads: its path, three headers and `?token=`.
pub record Request : Type 0 where
  pub path : String
  pub authorization : String
  pub connection : String
  pub upgrade : String
  pub token : String

-- `isUIPath`, by whether a UI is built in.
unfoldable pub is_ui_path : Bool → String → Bool
is_ui_path ui_available path =
    ui_available
    && not (has_prefix path "/api/")
    && not (has_prefix path "/health")
    && not (has_prefix path "/docs")
    && not (has_prefix path "/openapi")

unfoldable pub is_web_socket_upgrade : Request → Bool
is_web_socket_upgrade r = lower_is r.connection "upgrade" && lower_is r.upgrade "websocket"

abbrev pub is_open_path : Bool → String → Bool
is_open_path ui path =
    str_eq path "/healthz"
    || str_eq path "/health"
    || str_eq path "/docs"
    || str_eq path "/docs/"
    || str_eq path "/openapi.json"
    || str_eq path "/openapi.yaml"
    || is_ui_path ui path

-- The token that counts: the header, or the query's on an upgrade without the header.
unfoldable pub token_of : Request → String
token_of r =
    if str_eq r.authorization "" && is_web_socket_upgrade r
    then join "Bearer " r.token
    else r.authorization

-- `authMiddleware`: whether the request is passed on.
unfoldable pub auth_middleware : Bool → String → Request → Response (Unit {0})
auth_middleware ui auth_token r =
    if is_open_path ui r.path
    then ok tt
    else if str_eq auth_token ""
    then ok tt
    else if not (str_eq (token_of r) (join "Bearer " auth_token))
    then problem 401 unauthorized
    else ok tt

not_path :
    (path q : String)
    → has_prefix q "/api/" ≡ false
    → has_prefix path "/api/" ≡ true
    → str_eq path q ≡ false
not_path path q h k = elim (String-cases path q) [
  | inl (b, e) ↦ let c = subst (λ s. has_prefix s "/api/" ≡ true) e k in cc
  | inr (b, n) ↦ b
]

is_ui_path-api :
    (ui : Bool) (path : String) → has_prefix path "/api/" ≡ true → is_ui_path ui path ≡ false
unfolding is_ui_path
is_ui_path-api true path h = rw h refl
is_ui_path-api false path h = refl

is_open_path-api :
    (ui : Bool) (path : String) → has_prefix path "/api/" ≡ true → is_open_path ui path ≡ false
unfolding has_prefix
is_open_path-api ui path h =
    let other : (q : String) → has_prefix q "/api/" ≡ false → str_eq path q ≡ false =
      λ q f. not_path path q f h in
    rw
      (
        other "/healthz" refl,
        other "/health" refl,
        other "/docs" refl,
        other "/docs/" refl,
        other "/openapi.json" refl,
        other "/openapi.yaml" refl,
        is_ui_path-api ui path h,
      )
      refl

-- Where a token is configured, a request below /api/ passes if and only if the token that counts of
-- it, with the word Bearer, is that token; otherwise it is answered by 401.
pub auth_middleware-api :
    (ui : Bool) (auth_token : String) (r : Request)
    → has_prefix r.path "/api/" ≡ true
    → auth_token ≢ ""
    → auth_middleware ui auth_token r ≡ (
        if str_eq (token_of r) (join "Bearer " auth_token) then ok tt else problem 401 unauthorized)
unfolding auth_middleware
auth_middleware-api ui auth_token r h n =
    rw (is_open_path-api ui r.path h, str_eq-ne auth_token "" n)
      (branches (str_eq (token_of r) (join "Bearer " auth_token)))
  where
    branches :
        (b : Bool)
        → (if not b then problem 401 unauthorized else ok tt)
          ≡ (if b then ok tt else problem 401 unauthorized)
    branches true = refl
    branches false = refl
