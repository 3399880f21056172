-- ===== src/Merkle/Codec.antt =====
-- What the program takes from crypto/sha256, golang.org/x/crypto/sha3, encoding/hex and strconv.
use obsideo_provider.Base.{ℕ, ◌≡◌, List, [], ◌++◌, Option, some, String}

abbrev pub Bytes : Type 0
Bytes = List ℕ

pub record Codec : Type 0 where
  -- sha256.Sum256 and sha3.Sum512; the Sum of a running hash is that of all the bytes written.
  pub sha256 : Bytes → Bytes
  pub sha3_512 : Bytes → Bytes
  -- strconv.Itoa and the verb %d, as the bytes of the text.
  pub itoa : ℕ → Bytes
  -- hex.Encode and the verb %x.
  pub hex_encode : Bytes → Bytes
  -- hex.EncodeToString and hex.DecodeString.
  pub encode_to_string : Bytes → String
  pub decode_string : String → Option Bytes

-- The documented behaviour of the hexadecimal encoding: what is encoded decodes to itself, and each
-- byte is encoded by itself, so that a text can be encoded piece by piece.
pub record CodecLaws (c : Codec) : Type 0 where
  pub decode-encode : (b : Bytes) → c.decode_string (c.encode_to_string b) ≡ some b
  pub encode-nil : c.hex_encode [] ≡ []
  pub encode-append : (a b : Bytes) → c.hex_encode (a ++ b) ≡ c.hex_encode a ++ c.hex_encode b
