-- ===== src/Api/ClientChallenge.antt =====
-- `handleClientChallenge` of api/client_challenge.go: a customer challenges the provider directly.
use Prim.Native.String.{◌++◌}
use obsideo_provider.Base.{
  ℕ, ◌≡◌, ◌⊎◌, inl, inr, Option, some, List, String, true, not, ◌&&◌, ◌||◌, arith, str_eq, eq_iff,
  if◌then◌else◌, Result, ok, err, ◌>>=◌, Result-cases,
}
use obsideo_provider.Base.Int.{ℤ}
use obsideo_provider.Base.Time.{Time}
use obsideo_provider.Merkle.Codec.{Bytes}
use obsideo_provider.Store.Disk.{Disk}
use obsideo_provider.Api.Status.{or_status, expect}
use obsideo_provider.Api.Tokens.{Claims, TokenCodec, verify_token, claims_of}
use obsideo_provider.Api.TokenLaws.{IsAuthorized, verify_token-IsAuthorized}
use obsideo_provider.Api.Challenge.{
  Prover, ReadFaults, AuditChallenge, AuditResponse, Reply, failed, answered, serve_challenge,
}
use obsideo_provider.Api.RateLimit.{ChallengeRateLimiter, allow}

-- A request: the token, the body (`none` if it cannot be decoded), and the clock.
pub record ClientRequest : Type 0 where
  pub bearer : Option String
  pub body : Option AuditChallenge
  pub unix_now : ℤ
  pub now : Time
  pub faults : ReadFaults

-- The checks before the attempt is counted.
unfoldable pub admit_client :
    TokenCodec → List Bytes → ClientRequest → Result ℕ (Claims × AuditChallenge)
admit_client t keys r = do
  token ← or_status r.bearer 401
  claims ← claims_of t keys r.unix_now token
  kind ← expect (str_eq claims.type "challenge" || str_eq claims.type "download") 403
  ch ← or_status r.body 400
  right ←
      expect (not (str_eq claims.merkle_root "") && str_eq claims.merkle_root ch.merkle_root) 403
  ok (claims, ch)

abbrev pub limit_key : Claims → AuditChallenge → String
limit_key claims ch = claims.account_id ++ ("/" ++ ch.merkle_root)

unfoldable pub handle_client_challenge :
    Prover
    → TokenCodec
    → List Bytes
    → ClientRequest
    → ChallengeRateLimiter
    → Disk
    → Reply × ChallengeRateLimiter
handle_client_challenge p t keys r limiter disk = elim (admit_client t keys r) [
  | err st ↦ (failed st, limiter)
  | ok (claims, ch) ↦
      let (allowed, limiter') = allow (limit_key claims ch) r.now limiter in
      if allowed
      then (serve_challenge p r.faults r.unix_now ch disk, limiter')
      else (failed 429, limiter')
]

-- What a client that was answered had shown.
pub record IsClientAnswer (p : Prover) (t : TokenCodec) (keys : List Bytes) (r : ClientRequest)
    (limiter : ChallengeRateLimiter) (disk : Disk) (resp : AuditResponse) : Type 0 where
  pub token : String
  pub claims : Claims
  pub ch : AuditChallenge
  pub carried : r.bearer ≡ some token
  pub authorized : IsAuthorized t keys r.unix_now token claims
  pub kind : (claims.type ≡ "challenge") ⊎ (claims.type ≡ "download")
  pub body : r.body ≡ some ch
  pub right_object : claims.merkle_root ≡ ch.merkle_root
  pub allowed : (allow (limit_key claims ch) r.now limiter).0 ≡ true
  pub served : serve_challenge p r.faults r.unix_now ch disk ≡ answered resp

admit_client_steps :
    (t : TokenCodec) (keys : List Bytes) (r : ClientRequest) (claims : Claims) (ch : AuditChallenge)
    → admit_client t keys r ≡ ok (claims, ch)
    → (token : String) × (r.bearer ≡ some token)
      × (verify_token t keys r.unix_now token ≡ ok claims)
      × ((str_eq claims.type "challenge" || str_eq claims.type "download") ≡ true)
      × (r.body ≡ some ch)
      × (str_eq claims.merkle_root ch.merkle_root ≡ true)
unfolding admit_client
admit_client_steps t keys r claims ch h = ground arith

-- A client that is answered carried a token for challenges or downloads, signed by one of the keys and
-- not expired, of the very object that it challenged, and the rate limiter allowed the attempt.
pub handle_client_challenge-IsClientAnswer :
    (p : Prover) (t : TokenCodec) (keys : List Bytes) (r : ClientRequest)
    (limiter : ChallengeRateLimiter) (disk : Disk) (resp : AuditResponse)
    → (handle_client_challenge p t keys r limiter disk).0 ≡ answered resp
    → IsClientAnswer p t keys r limiter disk resp
unfolding handle_client_challenge
handle_client_challenge-IsClientAnswer p t keys r limiter disk resp h =
    elim (Result-cases (admit_client t keys r)) [
      | inr (st, bad) ↦ absurd (ground arith)
      | inl ((claims, ch), fine) ↦
          let (token, carried, verifies, kind, body, root) =
            admit_client_steps t keys r claims ch fine in
          record {
            token = token;
            claims = claims;
            ch = ch;
            carried = carried;
            authorized = verify_token-IsAuthorized t keys r.unix_now token claims verifies;
            kind =
                ground (arith, kind, eq_iff claims.type "challenge", eq_iff claims.type "download");
            body = body;
            right_object = (eq_iff claims.merkle_root ch.merkle_root).0 root;
            allowed = ground arith;
            served = ground arith;
          }
    ]
