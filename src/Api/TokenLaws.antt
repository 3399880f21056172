-- ===== src/Api/TokenLaws.antt =====
-- Which tokens pass, and what a new key changes.
use obsideo_provider.Base.{
  ℕ, ◌≡◌, ◌≢◌, refl, Option, none, some, List, [], ◌∷◌, ◌++◌, String, true, false, arith, eq_iff,
  ok, err,
}
use obsideo_provider.Base.Int.{ℤ, ltb_ℤ}
use obsideo_provider.Merkle.Codec.{Bytes}
use obsideo_provider.Api.Tokens.{Claims, TokenCodec, verify_token, authorize, any_verifies}

-- What a token must be for its claims to be relied on.
pub record IsAuthorized (c : TokenCodec) (keys : List Bytes) (now : ℤ) (token : String)
    (claims : Claims) : Type 0 where
  pub parts : String × String
  pub claims_bytes : Bytes
  pub signature : Bytes
  pub splits : c.split_dot token ≡ some parts
  pub decodes : c.decode_base64 parts.0 ≡ some claims_bytes
  pub signs : c.decode_base64 parts.1 ≡ some signature
  pub verified : any_verifies c keys claims_bytes signature ≡ true
  pub reads : c.unmarshal_claims claims_bytes ≡ some claims
  pub current : ltb_ℤ claims.expires_at now ≡ false

verify_token_steps :
    (c : TokenCodec) (keys : List Bytes) (now : ℤ) (token : String) (claims : Claims)
    → verify_token c keys now token ≡ ok claims
    → (parts : String × String) × (claims_bytes : Bytes) × (signature : Bytes) × (c.split_dot token
        ≡ some parts)
      × (c.decode_base64 parts.0 ≡ some claims_bytes)
      × (c.decode_base64 parts.1 ≡ some signature)
      × (any_verifies c keys claims_bytes signature ≡ true)
      × (c.unmarshal_claims claims_bytes ≡ some claims)
      × (ltb_ℤ claims.expires_at now ≡ false)
unfolding verify_token
verify_token_steps c keys now token claims h = ground arith

pub verify_token-IsAuthorized :
    (c : TokenCodec) (keys : List Bytes) (now : ℤ) (token : String) (claims : Claims)
    → verify_token c keys now token ≡ ok claims
    → IsAuthorized c keys now token claims
verify_token-IsAuthorized c keys now token claims h =
    let (p, b, g, e1, e2, e3, e4, e5, e6) = verify_token_steps c keys now token claims h in
    record {
      parts = p;
      claims_bytes = b;
      signature = g;
      splits = e1;
      decodes = e2;
      signs = e3;
      verified = e4;
      reads = e5;
      current = e6;
    }

-- What a handler that goes on knows of its request.
pub record Passes (c : TokenCodec) (keys : List Bytes) (now : ℤ) (kind merkle : String)
    (bearer : Option String) (claims : Claims) : Type 0 where
  pub token : String
  pub carried : bearer ≡ some token
  pub authorized : IsAuthorized c keys now token claims
  pub right_kind : claims.type ≡ kind
  pub right_object : claims.merkle_root ≡ merkle

-- If `authorize` lets a handler go on with some claims, the request carried a token with these
-- claims, signed by one of the keys and not expired, of this kind and for this object.
pub authorize-Passes :
    (c : TokenCodec) (keys : List Bytes) (now : ℤ) (kind merkle : String) (bearer : Option String)
    (claims : Claims)
    → authorize c keys now kind merkle bearer ≡ ok claims
    → Passes c keys now kind merkle bearer claims
unfolding authorize
authorize-Passes c keys now kind merkle none claims h = cc
authorize-Passes c keys now kind merkle (some token) claims h = record {
  token = token;
  carried = refl;
  authorized = verify_token-IsAuthorized c keys now token claims (ground arith);
  right_kind = ground (arith, eq_iff claims.type kind, eq_iff claims.merkle_root merkle);
  right_object = ground (arith, eq_iff claims.type kind, eq_iff claims.merkle_root merkle);
}

pub authorize_status :
    (c : TokenCodec) (keys : List Bytes) (now : ℤ) (kind merkle : String) (bearer : Option String)
    (st : ℕ)
    → authorize c keys now kind merkle bearer ≡ err st
    → st ≢ 200
unfolding authorize
authorize_status c keys now kind merkle none st h = ground arith
authorize_status c keys now kind merkle (some token) st h = ground arith

-- A signature that some key verified before is verified when there is one key more.
any_verifies-append :
    (c : TokenCodec) (keys : List Bytes) (key claims sig : Bytes)
    → any_verifies c keys claims sig ≡ true
    → any_verifies c (keys ++ key ∷ []) claims sig ≡ true
unfolding any_verifies
any_verifies-append c [] key claims sig h = cc
any_verifies-append c (k ∷ keys) key claims sig h =
    ground (arith, any_verifies-append c keys key claims sig)
