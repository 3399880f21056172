-- ===== src/Tests/Toy.antt =====
-- A codec with the documented laws of crypto/sha256 and encoding/hex, small enough to compute with.
use Prim.Native.Char.{code}
use obsideo_provider.Base.{
  ℕ, zero, suc, ◌+◌, ◌*◌, ◌%◌, ◌≡◌, refl, Option, none, some, [], ◌∷◌, String, ◌==◌, if◌then◌else◌,
}
use obsideo_provider.Merkle.Codec.{Bytes, Codec, CodecLaws}

-- A byte is written as so many letters a, and a letter b.
abbrev write_byte : ℕ → String → String
write_byte zero s = String.◌∷◌ "b" s
write_byte (suc n) s = String.◌∷◌ "a" (write_byte n s)

abbrev write_bytes : Bytes → String
write_bytes [] = String.[]
write_bytes (n ∷ ns) = write_byte n (write_bytes ns)

abbrev start_byte : Option Bytes → Option Bytes
start_byte none = none
start_byte (some bytes) = some (0 ∷ bytes)

abbrev count_byte : Option Bytes → Option Bytes
count_byte none = none
count_byte (some []) = none
count_byte (some (n ∷ ns)) = some (suc n ∷ ns)

abbrev read_bytes : String → Option Bytes
read_bytes String.[] = some []
read_bytes (String.◌∷◌ r s) =
    let rest = read_bytes s in if code r == b'b' then start_byte rest else count_byte rest

read_bytes-write_byte :
    (n : ℕ) (s : String) (ns : Bytes)
    → read_bytes s ≡ some ns
    → read_bytes (write_byte n s) ≡ some (n ∷ ns)
read_bytes-write_byte zero s ns h = rw h refl
read_bytes-write_byte (suc n) s ns h = rw (read_bytes-write_byte n s ns h) refl

read_bytes-write_bytes : (ns : Bytes) → read_bytes (write_bytes ns) ≡ some ns
read_bytes-write_bytes [] = refl
read_bytes-write_bytes (n ∷ ns) =
    read_bytes-write_byte n (write_bytes ns) ns (read_bytes-write_bytes ns)

-- A hash of one byte.
abbrev checksum : Bytes → ℕ
checksum [] = 1
checksum (n ∷ ns) = (3 * n + 5 * checksum ns) % 16

abbrev pub toy_codec : Codec
toy_codec = record {
  sha256 = λ b. checksum b ∷ [];
  sha3_512 = λ b. checksum b ∷ [];
  itoa = λ n. n ∷ [];
  hex_encode = λ b. b;
  encode_to_string = write_bytes;
  decode_string = read_bytes;
}

pub toy_laws : CodecLaws toy_codec
toy_laws = record {
  decode-encode = read_bytes-write_bytes;
  encode-nil = refl;
  encode-append = λ a b. refl;
}
