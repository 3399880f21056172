-- ===== src/Api/Tokens.antt =====
-- tokens/tokens.go: the keys that may sign, and the verification of a token; and the checks on a
-- bearer token with which the handlers of api/ begin.
use Prim.Native.String.{len, slice}
use obsideo_provider.Base.{
  ℕ, Option, none, some, List, [], ◌∷◌, ◌++◌, String, Bool, true, false, not, ◌&&◌, ◌||◌, str_eq,
  ◌==◌, ltb, if◌then◌else◌, length, Result, ok, err, ◌>>=◌,
}
use obsideo_provider.Base.Int.{ℤ, ltb_ℤ}
use obsideo_provider.Merkle.Codec.{Bytes}

pub record Claims : Type 0 where
  pub type : String
  pub merkle_root : String
  pub provider_id : String
  pub account_id : String
  pub owner_pubkey : String
  pub owner_sig_pubkey : String
  pub contracted : Bool
  pub issued_at : ℤ
  pub expires_at : ℤ

-- strings.SplitN at the first dot, base64, ed25519.Verify and json.Unmarshal.
pub record TokenCodec : Type 0 where
  pub split_dot : String → Option (String × String)
  pub decode_base64 : String → Option Bytes
  pub verify : Bytes → Bytes → Bytes → Bool
  pub unmarshal_claims : Bytes → Option Claims

pub data TokenError : Type 0 where
  malformed bad_claims_encoding bad_signature_encoding bad_signature bad_claims expired : TokenError

-- ed25519.PublicKeySize
abbrev pub public_key_size : ℕ
public_key_size = 32

abbrev pub equal_bytes : Bytes → Bytes → Bool
equal_bytes [] [] = true
equal_bytes [] (y ∷ ys) = false
equal_bytes (x ∷ xs) [] = false
equal_bytes (x ∷ xs) (y ∷ ys) = (x == y) && equal_bytes xs ys

unfoldable pub has_equal : Bytes → List Bytes → Bool
has_equal key [] = false
has_equal key (existing ∷ keys) = equal_bytes key existing || has_equal key keys

-- A verifier is the list of its keys, the one from the configuration first.
unfoldable pub has_key : Bytes → List Bytes → Bool
unfolding has_equal
has_key key keys = (length key == public_key_size) && has_equal key keys

-- `AddKey`: true if the key is new.
unfoldable pub add_key : Bytes → List Bytes → Bool × List Bytes
unfolding has_equal
add_key key keys =
    if not (length key == public_key_size)
    then (false, keys)
    else if has_equal key keys
    then (false, keys)
    else (true, keys ++ key ∷ [])

unfoldable pub seed_key : List Bytes → Option Bytes
seed_key [] = none
seed_key (key ∷ keys) = some key

-- The loop over the keys.
unfoldable pub any_verifies : TokenCodec → List Bytes → Bytes → Bytes → Bool
any_verifies c [] claims sig = false
any_verifies c (key ∷ keys) claims sig = c.verify key claims sig || any_verifies c keys claims sig

abbrev pub or_error {ℓ} : {E : Type 0} {A : Type ℓ} → Option A → E → Result E A
or_error none e = err e
or_error (some a) e = ok a

-- `Verify` at the unix time `now`.
unfoldable pub verify_token : TokenCodec → List Bytes → ℤ → String → Result TokenError Claims
verify_token c keys now token = or_error (c.split_dot token) malformed >>= λ parts.
    or_error (c.decode_base64 parts.0) bad_claims_encoding >>= λ claims_bytes.
    or_error (c.decode_base64 parts.1) bad_signature_encoding >>= λ sig.
    if not (any_verifies c keys claims_bytes sig)
    then err bad_signature
    else (or_error (c.unmarshal_claims claims_bytes) bad_claims >>= λ claims.
        if ltb_ℤ claims.expires_at now then err expired else ok claims)

-- A token that does not verify is answered with 401.
abbrev pub claims_of : TokenCodec → List Bytes → ℤ → String → Result ℕ Claims
claims_of t keys now token = elim (verify_token t keys now token) [
  | ok claims ↦ ok claims
  | err _ ↦ err 401
]

-- The beginning of a handler: `bearer` is the token of the Authorization header, `none` if there is
-- none. The error is the HTTP status.
unfoldable pub authorize :
    TokenCodec → List Bytes → ℤ → String → String → Option String → Result ℕ Claims
authorize c keys now kind merkle none = err 401
authorize c keys now kind merkle (some token) = elim (verify_token c keys now token) [
  | err _ ↦ err 401
  | ok claims ↦
      if not (str_eq claims.type kind)
      then err 403
      else if not (str_eq claims.merkle_root merkle)
      then err 403
      else ok claims
]

-- "Authorization: Bearer <token>", of api/server.go.
unfoldable pub bearer_token : (header : String) → Option String
bearer_token header =
    if ltb (len header) 8 || not (str_eq (slice header 0 7) "Bearer ")
    then none
    else some (slice header 7 (len header))

pub data VerifierError : Type 0 where
  read_key_failed no_pem_block wrong_key_size : VerifierError

-- `NewVerifier`, from the contents of the key file; `decode_pem` gives the bytes of the first block,
-- whatever its type.
unfoldable pub new_verifier :
    (decode_pem : Bytes → Option Bytes) → (file : Option Bytes) → Result VerifierError (List Bytes)
new_verifier decode_pem file = or_error file read_key_failed >>= λ content.
    or_error (decode_pem content) no_pem_block >>= λ key.
    if length key == public_key_size then ok (key ∷ []) else err wrong_key_size
