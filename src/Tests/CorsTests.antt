-- ===== src/Tests/CorsTests.antt =====
-- Requests of pages to a provider that lists two origins.
use obsideo_provider.Base.{◌≡◌, refl, List, [], ◌∷◌, String, true, false, map, replicate}
use obsideo_provider.Api.Cors.{
  TextCodec, Request, next, pass_cors, cors_middleware, cors_browser_route, allows_any, allows,
  set_cors,
}
use obsideo_provider.Api.CorsLaws.{IsGuarded, pass_cors-IsGuarded}

abbrev texts : TextCodec
texts = record { trim_space = λ s. s; to_lower = λ s. s }

abbrev origins : List String
origins = "https://obsideo.io" ∷ "https://a.example" ∷ []

abbrev preflight : Request
preflight = record {
  path = "/upload/ab";
  method = "OPTIONS";
  origin = "https://a.example";
  request_method = "POST";
}

pass_cors-IsGuarded_example :
    IsGuarded texts true origins preflight (pass_cors texts true origins preflight)
pass_cors-IsGuarded_example = pass_cors-IsGuarded texts true origins preflight

-- A page that is not listed is let through without a header.
unlisted :
    pass_cors texts true origins (record preflight { method = "GET"; origin = "https://b.example" })
    ≡ record { headers = []; handling = next }
unfolding pass_cors cors_middleware cors_browser_route allows_any allows set_cors
unlisted = refl

-- The routes of the coordinator and of the operator.
abbrev internal_routes : List String
internal_routes = "/challenge" ∷ "/replicate" ∷ "/control/pause" ∷ []

internal-browser : map cors_browser_route internal_routes ≡ replicate 3 false
unfolding cors_browser_route
internal-browser = refl
