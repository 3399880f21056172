-- ===== src/Api/Cors.antt =====
-- api/cors.go, and SetCORS and the middleware of Handler in api/server.go: which requests of a browser
-- are let through, and the headers with which they are answered.
use text.Mathlib.Text.{starts_with}
use obsideo_provider.Base.{
  List, [], ◌∷◌, ◌++◌, String, Bool, false, not, ◌&&◌, ◌||◌, str_eq, if◌then◌else◌,
}

-- strings.TrimSpace and strings.ToLower.
pub record TextCodec : Type 0 where
  pub trim_space : String → String
  pub to_lower : String → String

-- The fields of a request that are read; a header that is not there is empty.
pub record Request : Type 0 where
  pub path : String
  pub method : String
  pub origin : String
  pub request_method : String

-- The request goes on to its handler, or is answered with 204.
pub data Handling : Type 0 where
  next no_content : Handling

-- The headers set here, and what becomes of the request.
pub record Passed : Type 0 where
  pub headers : List (String × String)
  pub handling : Handling

abbrev pub cors_allow_methods : String
cors_allow_methods = "GET, POST, OPTIONS"

abbrev pub cors_allow_headers : String
cors_allow_headers = "Authorization, Content-Type, Range"

abbrev pub cors_expose_header : String
cors_expose_header = "Content-Range, Accept-Ranges, Content-Length"

abbrev pub cors_max_age : String
cors_max_age = "600"

unfoldable pub cors_browser_route : String → Bool
cors_browser_route p =
    str_eq p "/health"
    || str_eq p "/client-challenge"
    || starts_with p "/upload/"
    || starts_with p "/download/"
    || starts_with p "/delete/"

abbrev pub is_preflight : Request → Bool
is_preflight r = str_eq r.method "OPTIONS" && not (str_eq r.request_method "")

abbrev pub origin_headers : Bool → String → List (String × String)
origin_headers any origin =
    if any
    then ("Access-Control-Allow-Origin", "*") ∷ []
    else ("Access-Control-Allow-Origin", origin) ∷ ("Vary", "Origin") ∷ []

abbrev pub preflight_headers : List (String × String)
preflight_headers =
    ("Access-Control-Allow-Methods", cors_allow_methods)
    ∷ ("Access-Control-Allow-Headers", cors_allow_headers)
    ∷ ("Access-Control-Max-Age", cors_max_age)
    ∷ []

-- `SetCORS`: an empty list stands for every origin.
unfoldable pub set_cors : List String → List String
set_cors [] = "*" ∷ []
set_cors (o ∷ os) = o ∷ os

module _ (c : TextCodec) where
  -- The loop over the configured origins: whether one of them is "*", and whether the lowered origin is
  -- among the others.
  unfoldable pub allows_any : List String → Bool
  allows_any [] = false
  allows_any (o ∷ os) = str_eq (c.trim_space o) "*" || allows_any os

  unfoldable pub allows : String → List String → Bool
  allows lowered [] = false
  allows lowered (o ∷ os) =
      let name = c.trim_space o in
      (not (str_eq name "*") && not (str_eq name "") && str_eq (c.to_lower name) lowered)
      || allows lowered os

  -- `corsMiddleware`
  unfoldable pub cors_middleware : List String → Request → Passed
  unfolding allows_any allows cors_browser_route
  cors_middleware origins r =
      let any = allows_any origins in
      if str_eq r.origin "" || not (cors_browser_route r.path)
      then record { headers = []; handling = next }
      else if not (any || allows (c.to_lower r.origin) origins)
      then (if is_preflight r
          then record { headers = []; handling = no_content }
          else record { headers = []; handling = next })
      else if is_preflight r
      then record {
        headers = origin_headers any r.origin ++ preflight_headers;
        handling = no_content;
      }
      else record {
        headers =
            origin_headers any r.origin
            ++ ("Access-Control-Expose-Headers", cors_expose_header) ∷ [];
        handling = next;
      }

  -- `Handler`, up to the router.
  unfoldable pub pass_cors : (enabled : Bool) → List String → Request → Passed
  unfolding cors_middleware set_cors
  pass_cors enabled origins r =
      if enabled
      then cors_middleware (set_cors origins) r
      else record { headers = []; handling = next }
