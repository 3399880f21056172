-- ===== src/Identity.antt =====
-- identity/identity.go: the key with which the provider signs, and the file that keeps it. PEM,
-- PKCS #8, ed25519 and hexadecimal text are a parameter.
use Prim.Native.String.{slice}
use obsideo_provider.Base.{
  ℕ, Option, none, some, List, [], ◌∷◌, String, Bool, if◌then◌else◌, not, take, Result, ok, err,
  ◌>>=◌,
}
use obsideo_provider.Merkle.Codec.{Bytes}
use obsideo_provider.Api.Tokens.{or_error}
pub mod Laws

-- What x509.ParsePKCS8PrivateKey returns: an ed25519 key, or a key of another kind.
pub data ParsedKey : Type 0 where
  ed25519 : Bytes → ParsedKey
  other_key : ParsedKey

pub record IdentityCodec : Type 0 where
  -- pem.Decode, of which the bytes of the first block are used, and pem.EncodeToMemory with the
  -- type PRIVATE KEY.
  pub decode_pem : Bytes → Option Bytes
  pub encode_pem : Bytes → Bytes
  pub parse_pkcs8 : Bytes → Option ParsedKey
  pub marshal_pkcs8 : Bytes → Option Bytes
  -- PrivateKey.Public, ed25519.Sign and hex.EncodeToString.
  pub public_of : Bytes → Bytes
  pub sign_with : Bytes → Bytes → Bytes
  pub encode_to_string : Bytes → String

pub record Identity : Type 0 where
  pub priv : Bytes
  pub public : Bytes

-- provider_identity.key: not there, or with these contents.
pub data KeyFile : Type 0 where
  absent : KeyFile
  contents : Bytes → KeyFile

pub data IdentityError : Type 0 where
  read_failed no_pem_block parse_failed not_ed25519 : IdentityError
  generate_failed marshal_failed create_failed write_failed close_failed : IdentityError

-- What one call of `LoadOrCreate` meets: whether os.ReadFile works (that a file is not there is no
-- failure of it), the key that is generated, a file that another process makes
-- before this one opens it, whether the file can be made, the number of bytes after which the
-- writing fails, if it does, and whether the file closes well.
pub record Attempt : Type 0 where
  pub reads : Bool
  pub generated : Option (Bytes × Bytes)
  pub raced : Option Bytes
  pub creates : Bool
  pub write_stops : Option ℕ
  pub closes : Bool

module _ (c : IdentityCodec) where
  unfoldable pub parse_identity : Bytes → Result IdentityError Identity
  parse_identity pem_bytes = or_error (c.decode_pem pem_bytes) no_pem_block >>= λ block.
      or_error (c.parse_pkcs8 block) parse_failed >>= λ key. elim key [
        | ed25519 priv ↦ ok (record { priv = priv; public = c.public_of priv })
        | other_key ↦ err not_ed25519
      ]

  -- The file as this process finds it when it opens it.
  abbrev pub found : Attempt → KeyFile
  found a = elim a.raced [ none ↦ absent | some b ↦ contents b ]

  -- O_EXCL, the write and the close.
  unfoldable pub persist_key : Attempt → Identity → Bytes → Result IdentityError Identity × KeyFile
  persist_key a ident pem_bytes = elim a.raced [
    | some other ↦ (err create_failed, contents other)
    | none ↦ if not a.creates then (err create_failed, absent) else (elim a.write_stops [
      | some n ↦ (err write_failed, contents (take n pem_bytes))
      | none ↦ (if a.closes then ok ident else err close_failed, contents pem_bytes)
    ])
  ]

  unfoldable pub generate_and_persist : Attempt → Result IdentityError Identity × KeyFile
  unfolding persist_key
  generate_and_persist a = elim a.generated [
    | none ↦ (err generate_failed, found a)
    | some (public, priv) ↦ elim (c.marshal_pkcs8 priv) [
      | none ↦ (err marshal_failed, found a)
      | some der ↦ persist_key a (record { priv = priv; public = public }) (c.encode_pem der)
    ]
  ]

  -- `LoadOrCreate`, with the file after it.
  unfoldable pub load_or_create : Attempt → KeyFile → Result IdentityError Identity × KeyFile
  unfolding parse_identity generate_and_persist
  load_or_create a file = if not a.reads then (err read_failed, file) else (elim file [
    | contents b ↦ (parse_identity b, contents b)
    | absent ↦ generate_and_persist a
  ])

  unfoldable pub public_key_hex : Identity → String
  public_key_hex i = c.encode_to_string i.public

  unfoldable pub key_id : Identity → String
  key_id i = slice (c.encode_to_string i.public) 0 16

  unfoldable pub sign : Identity → Bytes → Bytes
  sign i payload = c.sign_with i.priv payload
