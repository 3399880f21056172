-- ===== src/Api/CorsLaws.antt =====
-- Which pages may call, as api/cors.go decides it, and which requests it keeps from the handlers.
use Prim.Native.String.{◌++◌ as append}
use text.Mathlib.Text.{starts_with}
use text.Mathlib.TextEquality.{starts_with_iff}
use obsideo_provider.Base.{
  ◌++◌, ◌≡◌, ◌≢◌, ◌⊎◌, ◌↔◌, inl, inr, List, [], ◌∷◌, String, Bool, true, false, not, ◌||◌,
  if◌then◌else◌, refl, some, str_eq, arith, Bool-cases, eq_iff, ap,
}
use obsideo_provider.Base.Dir.{lookup}
use obsideo_provider.Api.Cors.{
  origin_headers, preflight_headers, cors_expose_header, TextCodec, Request, next, no_content,
  Passed, cors_browser_route, allows_any, allows, is_preflight, cors_middleware, set_cors,
  pass_cors,
}

-- The paths that a page may call.
abbrev pub IsBrowserPath : String → Type 0
IsBrowserPath p =
    (p ≡ "/health")
    ⊎ (p ≡ "/client-challenge")
    ⊎ ((rest : String) × (append "/upload/" rest ≡ p))
    ⊎ ((rest : String) × (append "/download/" rest ≡ p))
    ⊎ ((rest : String) × (append "/delete/" rest ≡ p))

cors_browser_route_iff : (p : String) → (cors_browser_route p ≡ true) ↔ IsBrowserPath p
unfolding cors_browser_route
cors_browser_route_iff p = (
  λ h. elim (Bool-cases (str_eq p "/health")) [
    | inl e ↦ inl ((eq_iff _ _).0 e)
    | inr a ↦ elim (Bool-cases (str_eq p "/client-challenge")) [
      | inl e ↦ inr (inl ((eq_iff _ _).0 e))
      | inr b ↦ elim (Bool-cases (starts_with p "/upload/")) [
        | inl e ↦ inr (inr (inl ((starts_with_iff p "/upload/").0 e)))
        | inr d ↦ elim (Bool-cases (starts_with p "/download/")) [
          | inl e ↦ inr (inr (inr (inl ((starts_with_iff p "/download/").0 e))))
          | inr f ↦
              inr
                (inr (inr (inr ((starts_with_iff p "/delete/").0 (ground (arith, h, a, b, d, f))))))
        ]
      ]
    ]
  ],
  λ path. elim path [
    | inl e ↦ ground (arith, (eq_iff p "/health").1 e)
    | inr (inl e) ↦ ground (arith, (eq_iff p "/client-challenge").1 e)
    | inr (inr (inl e)) ↦ ground (arith, (starts_with_iff p "/upload/").1 e)
    | inr (inr (inr (inl e))) ↦ ground (arith, (starts_with_iff p "/download/").1 e)
    | inr (inr (inr (inr e))) ↦ ground (arith, (starts_with_iff p "/delete/").1 e)
  ],
)

module _ (c : TextCodec) where
  -- One of the origins is "*", or is the origin of the request but for case and outer spaces.
  abbrev pub Permits : List String → String → Type 0
  Permits [] origin = ⊥
  Permits (o ∷ os) origin =
      (c.trim_space o ≡ "*")
      ⊎ ((c.trim_space o ≢ "") × (c.to_lower (c.trim_space o) ≡ c.to_lower origin))
      ⊎ Permits os origin

  Permits-allows :
      (origins : List String) (origin : String)
      → (allows_any c origins || allows c (c.to_lower origin) origins) ≡ true
      → Permits origins origin
  unfolding allows_any allows
  Permits-allows [] origin h = cc
  Permits-allows (o ∷ os) origin h =
      elim (Bool-cases (allows_any c os || allows c (c.to_lower origin) os)) [
        | inl behind ↦ inr (inr (Permits-allows os origin behind))
        | inr none_behind ↦ elim (Bool-cases (str_eq (c.trim_space o) "*")) [
          | inl any ↦ inl ((eq_iff _ _).0 any)
          | inr other ↦ inr (
              inl (
                λ e.
                    absurd
                      (ground (arith, h, none_behind, other, (eq_iff (c.trim_space o) "").1 e)),
                (eq_iff _ _).0 (ground (arith, h, none_behind, other)),
              ))
        ]
      ]

  allows-Permits :
      (origins : List String) (origin : String)
      → Permits origins origin
      → (allows_any c origins || allows c (c.to_lower origin) origins) ≡ true
  unfolding allows_any allows
  allows-Permits [] origin out = absurd out
  allows-Permits (o ∷ os) origin (inl any) = ground (arith, (eq_iff (c.trim_space o) "*").1 any)
  allows-Permits (o ∷ os) origin (inr (inl (named, same))) =
      elim (Bool-cases (str_eq (c.trim_space o) "")) [
        | inl blank ↦ absurd (named ((eq_iff (c.trim_space o) "").0 blank))
        | inr full ↦
            ground (arith, full, (eq_iff (c.to_lower (c.trim_space o)) (c.to_lower origin)).1 same)
      ]
  allows-Permits (o ∷ os) origin (inr (inr behind)) =
      ground (arith, allows-Permits os origin behind)

  -- One of the origins is "*".
  abbrev pub HasStar : List String → Type 0
  HasStar [] = ⊥
  HasStar (o ∷ os) = (c.trim_space o ≡ "*") ⊎ HasStar os

  allows_any_iff : (origins : List String) → (allows_any c origins ≡ true) ↔ HasStar origins
  unfolding allows_any
  allows_any_iff [] = (λ h. cc, λ out. absurd out)
  allows_any_iff (o ∷ os) = (
    λ h. elim (Bool-cases (str_eq (c.trim_space o) "*")) [
      | inl star ↦ inl ((eq_iff _ _).0 star)
      | inr other ↦ inr ((allows_any_iff os).0 (ground (arith, h, other)))
    ],
    λ star. elim star [
      | inl this ↦ ground (arith, (eq_iff (c.trim_space o) "*").1 this)
      | inr behind ↦ ground (arith, (allows_any_iff os).1 behind)
    ],
  )

  -- A request of a page, to a provider that serves pages.
  abbrev pub IsFromBrowser : Bool → Request → Type 0
  IsFromBrowser enabled r = (enabled ≡ true) × (r.origin ≢ "") × IsBrowserPath r.path

  -- The question that a browser asks before the request of a page.
  abbrev pub IsPreflight : Request → Type 0
  IsPreflight r = (r.method ≡ "OPTIONS") × (r.request_method ≢ "")

  -- What a permitted page is told.
  pub record Tells (origins : List String) (r : Request) (headers : List (String × String))
      : Type 0 where
    pub any_origin : HasStar origins → lookup "Access-Control-Allow-Origin" headers ≡ some "*"
    pub one_origin :
        ¬ HasStar origins
        → (lookup "Access-Control-Allow-Origin" headers ≡ some r.origin)
          × (lookup "Vary" headers ≡ some "Origin")
    pub before_request :
        IsPreflight r
        → (lookup "Access-Control-Allow-Methods" headers ≡ some "GET, POST, OPTIONS")
          × (lookup "Access-Control-Allow-Headers" headers
              ≡ some "Authorization, Content-Type, Range")
          × (lookup "Access-Control-Max-Age" headers ≡ some "600")
    pub on_request :
        ¬ IsPreflight r
        → lookup "Access-Control-Expose-Headers" headers
          ≡ some "Content-Range, Accept-Ranges, Content-Length"

  -- What the browser is told, and what the handlers never see.
  pub record IsGuarded (enabled : Bool) (origins : List String) (r : Request) (p : Passed)
      : Type 0 where
    pub told :
        IsFromBrowser enabled r
        → Permits (set_cors origins) r.origin
        → Tells (set_cors origins) r p.headers
    pub untold : ¬ (IsFromBrowser enabled r × Permits (set_cors origins) r.origin) → p.headers ≡ []
    pub answered : (p.handling ≡ no_content) ↔ (IsFromBrowser enabled r × IsPreflight r)

  from_browser-cases :
      (enabled : Bool) (origins : List String) (r : Request)
      → (IsFromBrowser enabled r
          × (pass_cors c enabled origins r ≡ cors_middleware c (set_cors origins) r)
          × ((str_eq r.origin "" || not (cors_browser_route r.path)) ≡ false))
        ⊎ (¬ IsFromBrowser enabled r
            × (pass_cors c enabled origins r ≡ record { headers = []; handling = next }))
  unfolding pass_cors cors_middleware
  from_browser-cases enabled origins r =
      let route = cors_browser_route_iff r.path in
      elim (Bool-cases (cors_browser_route r.path)) [
        | inl page ↦
            let path = route.0 page in
            elim (Bool-cases enabled) [
              | inl on ↦ elim (Bool-cases (str_eq r.origin "")) [
                | inl blank ↦
                    inr (λ h. h.1 ((eq_iff r.origin "").0 blank), ground (arith, on, blank))
                | inr full ↦ inl (
                  (on, λ e. absurd (ground (arith, full, (eq_iff r.origin "").1 e)), path),
                  ground (arith, on),
                  ground (arith, page, full),
                )
              ]
              | inr off ↦ inr (λ h. absurd (ground (arith, off, h.0)), ground (arith, off))
            ]
        | inr other ↦ inr (λ h. absurd (ground (arith, other, route.1 h.2)), ground (arith, other))
      ]

  preflight_iff : (r : Request) → (is_preflight r ≡ true) ↔ IsPreflight r
  preflight_iff r = (
    λ h. (
      (eq_iff r.method "OPTIONS").0 (ground (arith, h)),
      λ e. absurd (ground (arith, h, (eq_iff r.request_method "").1 e)),
    ),
    λ h. elim (Bool-cases (str_eq r.request_method "")) [
      | inl blank ↦ absurd (h.1 ((eq_iff r.request_method "").0 blank))
      | inr full ↦ ground (arith, full, (eq_iff r.method "OPTIONS").1 h.0)
    ],
  )

  module _ (origins : List String) (r : Request)
      (through : (str_eq r.origin "" || not (cors_browser_route r.path)) ≡ false) where
    abbrev permitted : Bool
    permitted = allows_any c origins || allows c (c.to_lower r.origin) origins

    middleware-headers : permitted ≡ false → (cors_middleware c origins r).headers ≡ []
    unfolding cors_middleware
    middleware-headers barred = ground (arith, through, barred)

    middleware-handling :
        ((cors_middleware c origins r).handling ≡ no_content) ↔ (is_preflight r ≡ true)
    unfolding cors_middleware
    middleware-handling = ground (arith, through)

    middleware-answer :
        permitted ≡ true
        → (cors_middleware c origins r).headers
          ≡ origin_headers (allows_any c origins) r.origin
            ++ (if is_preflight r
                then preflight_headers
                else ("Access-Control-Expose-Headers", cors_expose_header) ∷ [])
    unfolding cors_middleware
    middleware-answer open_door = ground (arith, through, open_door)

    middleware-Tells : permitted ≡ true → Tells origins r (cors_middleware c origins r).headers
    unfolding lookup
    middleware-Tells open_door =
        let same = middleware-answer open_door in
        let star = allows_any_iff origins in
        let asks = preflight_iff r in
        elim (Bool-cases (allows_any c origins)) [
          | inl any ↦ elim (Bool-cases (is_preflight r)) [
            | inl before ↦
                rw (same, any, before)
                  (record {
                    any_origin = λ h. refl;
                    one_origin = λ h. absurd (h (star.0 any));
                    before_request = λ h. (refl, refl, refl);
                    on_request = λ h. absurd (h (asks.0 before));
                  })
            | inr plain ↦
                rw (same, any, plain)
                  (record {
                    any_origin = λ h. refl;
                    one_origin = λ h. absurd (h (star.0 any));
                    before_request = λ h. absurd (ground (arith, plain, asks.1 h));
                    on_request = λ h. refl;
                  })
          ]
          | inr one ↦ elim (Bool-cases (is_preflight r)) [
            | inl before ↦
                rw (same, one, before)
                  (record {
                    any_origin = λ h. absurd (ground (arith, one, star.1 h));
                    one_origin = λ h. (refl, refl);
                    before_request = λ h. (refl, refl, refl);
                    on_request = λ h. absurd (h (asks.0 before));
                  })
            | inr plain ↦
                rw (same, one, plain)
                  (record {
                    any_origin = λ h. absurd (ground (arith, one, star.1 h));
                    one_origin = λ h. (refl, refl);
                    before_request = λ h. absurd (ground (arith, plain, asks.1 h));
                    on_request = λ h. refl;
                  })
          ]
        ]

  -- Where pages are served, a page of a permitted origin that asks for /health, /client-challenge, or a
  -- path below /upload/, /download/ or /delete/ is told "*" if that is among the origins, and else its own
  -- origin, with what it may send before a request and may read after it; any other request gets no such
  -- header. A request is kept from its handler exactly if it is a preflight on such a path with an origin.
  pub pass_cors-IsGuarded :
      (enabled : Bool) (origins : List String) (r : Request)
      → IsGuarded enabled origins r (pass_cors c enabled origins r)
  pass_cors-IsGuarded enabled origins r = elim (from_browser-cases enabled origins r) [
    | inr (other, same) ↦ record {
      told = λ browser. absurd (other browser);
      untold = λ h. ap (λ (p : Passed). p.headers) same;
      answered = (λ h. cc (ap (λ (p : Passed). p.handling) same), λ h. absurd (other h.0));
    }
    | inl (browser, same, through) ↦
        let os = set_cors origins in
        let handling = middleware-handling os r through in
        let asks = preflight_iff r in
        rw same (record {
          told = λ h permits. middleware-Tells os r through (allows-Permits os r.origin permits);
          untold = λ h. elim (Bool-cases (permitted os r through)) [
            | inl open_door ↦ absurd (h (browser, Permits-allows os r.origin open_door))
            | inr barred ↦ middleware-headers os r through barred
          ];
          answered = (λ h. (browser, asks.0 (handling.0 h)), λ h. handling.1 (asks.1 h.1));
        })
  ]
