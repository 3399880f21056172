-- ===== src/Directory/Refresh.antt =====
-- `New` and `RefreshOnce` of dirfetch/refresher.go.
use Prim.Native.String.{◌++◌}
use obsideo_provider.Base.{
  ℕ, ◌+◌, Option, none, some, List, [], ◌∷◌, String, Bool, true, false, not, str_eq, ◌==◌,
  if◌then◌else◌, length, take, Result, ok, err, ◌>>=◌,
}
use obsideo_provider.Base.Int.{ℤ, pos, negsuc}
use obsideo_provider.Base.Dir.{lookup, remove}
use obsideo_provider.Merkle.Codec.{Bytes}
use obsideo_provider.Api.Tokens.{public_key_size, add_key}

pub data DirectoryError : Type 0 where
  coord_url_required api_key_required wrong_key_size verifier_required : DirectoryError
  build_failed fetch_failed read_failed parse_failed missing_signature bad_signature_encoding :
      DirectoryError
  canonicalize_failed signature_invalid : DirectoryError
  bad_status : ℕ → DirectoryError

-- 60 seconds, in nanoseconds.
abbrev pub default_interval : ℤ
default_interval = pos 60000000000

pub record Options : Type 0 where
  pub coord_url : String
  pub api_key : String
  pub coord_pub_key : Bytes
  pub has_verifier : Bool
  pub interval : ℤ

pub record Refresher : Type 0 where
  pub opts : Options
  pub url : String

abbrev demand : Bool → DirectoryError → Result DirectoryError (Unit {0})
demand true e = ok tt
demand false e = err e

abbrev is_zero : ℤ → Bool
is_zero (pos n) = n == 0
is_zero (negsuc n) = false

abbrev with_interval : Options → Options
with_interval opts = record opts {
  interval = if is_zero opts.interval then default_interval else opts.interval;
}

-- `New`; `trim_right_slash` is strings.TrimRight with a slash.
unfoldable pub new_refresher :
    (trim_right_slash : String → String) → Options → Result DirectoryError Refresher
new_refresher trim_right_slash opts = do
  has_url ← demand (not (str_eq opts.coord_url "")) coord_url_required
  has_key ← demand (not (str_eq opts.api_key "")) api_key_required
  sized ← demand (length opts.coord_pub_key == public_key_size) wrong_key_size
  given ← demand opts.has_verifier verifier_required
  ok (record {
    opts = with_interval opts;
    url = trim_right_slash opts.coord_url ++ "/v1/provider/directory";
  })

-- A JSON object is its fields by name, whose values come from encoding/json: a value may be a text or
-- an array. Then base64, and ed25519.Verify.
pub record DirectoryCodec (Value : Type 0) : Type 0 where
  pub unmarshal : Bytes → Option (List (String × Value))
  pub marshal : List (String × Value) → Option Bytes
  pub as_text : Value → Option String
  pub as_array : Value → Option (List Value)
  pub decode_base64 : String → Option Bytes
  pub verify : Bytes → Bytes → Bytes → Bool

-- What the request brings: it cannot be built, or be sent; or a status and, if it can be read, the body.
pub data Fetched : Type 0 where
  not_built not_fetched : Fetched
  response : (st : ℕ) → (body : Option Bytes) → Fetched

abbrev pub or_fail {ℓ} : {A : Type ℓ} → Option A → DirectoryError → Result DirectoryError A
or_fail none e = err e
or_fail (some a) e = ok a

-- 1 MiB
abbrev pub body_cap : ℕ
body_cap = 1048576

unfoldable pub read_response : Fetched → Result DirectoryError Bytes
read_response not_built = err build_failed
read_response not_fetched = err fetch_failed
read_response (response st body) =
    if st == 200
    then (or_fail body read_failed >>= λ bytes. ok (take body_cap bytes))
    else err (bad_status st)

module _ {Value : Type 0} (c : DirectoryCodec Value) where
  -- `envelope["signature"].(string)`; the text is empty if there is none.
  abbrev pub text_field : String → List (String × Value) → String
  text_field name envelope = elim (lookup name envelope) [
    | none ↦ ""
    | some v ↦ elim (c.as_text v) [ none ↦ "" | some s ↦ s ]
  ]

  -- `canonicalMarshal`
  unfoldable pub canonical_marshal : List (String × Value) → Option Bytes
  canonical_marshal v = elim (c.marshal v) [
    | none ↦ none
    | some raw ↦ elim (c.unmarshal raw) [ none ↦ none | some generic ↦ c.marshal generic ]
  ]

  -- The fields but the signature, once that verifies.
  unfoldable pub verified_envelope :
      (coord_pub_key : Bytes) → Bytes → Result DirectoryError (List (String × Value))
  verified_envelope coord_pub_key body = do
    envelope ← or_fail (c.unmarshal body) parse_failed
    named ← demand (not (str_eq (text_field "signature" envelope) "")) missing_signature
    sig ← or_fail (c.decode_base64 (text_field "signature" envelope)) bad_signature_encoding
    canonical ← or_fail (canonical_marshal (remove "signature" envelope)) canonicalize_failed
    good ← demand (c.verify coord_pub_key canonical sig) signature_invalid
    ok (remove "signature" envelope)

  unfoldable pub raw_signers : List (String × Value) → List Value
  raw_signers envelope = elim (lookup "authorized_signers" envelope) [
    | none ↦ []
    | some v ↦ elim (c.as_array v) [ none ↦ [] | some vs ↦ vs ]
  ]

  -- The key of an entry: a text that is not empty, in base64, of the size of a key.
  unfoldable pub signer_key : Value → Option Bytes
  signer_key v = elim (c.as_text v) [
    | none ↦ none
    | some s ↦ if str_eq s "" then none else (elim (c.decode_base64 s) [
      | none ↦ none
      | some key ↦ if length key == public_key_size then some key else none
    ])
  ]

  -- The loop over the entries; `added` counts the new keys.
  unfoldable pub add_signers : ℕ → List Value → List Bytes → ℕ × List Bytes
  add_signers added [] keys = (added, keys)
  add_signers added (v ∷ vs) keys = elim (signer_key v) [
    | none ↦ add_signers added vs keys
    | some key ↦
        let (new, keys') = add_key key keys in
        add_signers (if new then added + 1 else added) vs keys'
  ]

  -- `RefreshOnce`: the number of new keys, and the keys of the verifier after it.
  unfoldable pub refresh_once : Bytes → Fetched → List Bytes → Result DirectoryError ℕ × List Bytes
  refresh_once coord_pub_key fetched keys =
      elim (read_response fetched >>= λ body. verified_envelope coord_pub_key body) [
        | err e ↦ (err e, keys)
        | ok envelope ↦
            let (added, keys') = add_signers 0 (raw_signers envelope) keys in (ok added, keys')
      ]
