-- ===== src/Tests/ChallengeTests.antt =====
-- Challenges for a stored object.
use Prim.Native.Char.{code}
use Prim.Native.Nat.{compare as compare_ℕ, eq}
use Prim.Native.String.{compare}
use text.Mathlib.Text.{is_eq}
use Prim.Native.String.compare.{nil-nil, cons-cons}
use mathlib.Core.List.{flatten}
use obsideo_provider.Base.{
  ℕ, ◌+◌, ◌≤◌, ◌≡◌, refl, ap, ◌∙◌, none, some, [], ◌∷◌, String, arith, eq_iff, length, get_elem?,
}
use obsideo_provider.Base.Int.{pos}
use obsideo_provider.Merkle.Codec.{Bytes}
use obsideo_provider.Merkle.Batch.{default_chunk_size}
use obsideo_provider.Merkle.SubChunk.{split_sub_chunk_blocks, block_loop, sub_chunk_block_count}
use obsideo_provider.Merkle.Chunks.{chunk_at}
use obsideo_provider.Store.Disk.{Disk, empty_disk}
use obsideo_provider.Store.Objects.{put_stream, no_fault}
use obsideo_provider.Store.Integrity.{put_stream-IsStored}
use obsideo_provider.Api.Challenge.{
  answered, raw_response, AuditResponse, sign_audit_response, AuditChallenge, SigningCodec, Prover,
  validate_challenge, serve_challenge,
}
use obsideo_provider.Api.ChallengeLaws.{
  no_faults, IsFor, IsRawAnswer, IsCompactAnswer, serve_challenge-IsRawAnswer,
  serve_challenge-IsCompactAnswer,
}
use obsideo_provider.Api.ProofSig.{
  IsOneLine, IsPlain, SigningLaws, Signed, IsSameProof, proof_sig_payload-IsSameProof,
}
use obsideo_provider.Base.Time.{sub}
use obsideo_provider.Base.Dir.{lookup, insert}
use obsideo_provider.Api.Tokens.{Claims, TokenCodec, verify_token, any_verifies}
use obsideo_provider.Api.ClientChallenge.{
  ClientRequest, admit_client, handle_client_challenge, IsClientAnswer,
  handle_client_challenge-IsClientAnswer,
}
use obsideo_provider.Tests.ApiTests.{server, claims}
use obsideo_provider.Api.RateLimit.{
  granted, allow, attempt, roll, after_attempts, new_challenge_rate_limiter, granted_per_minute,
}
use obsideo_provider.Tests.Toy.{toy_codec, toy_laws}
use obsideo_provider.Tests.StoreTests.{pieces, root, stored}

-- Every number is above that of a line feed.
abbrev text_bytes : String → Bytes
text_bytes String.[] = []
text_bytes (String.◌∷◌ r s) = (code r + 11) ∷ text_bytes s

abbrev signing : SigningCodec
signing = record {
  text_bytes = text_bytes;
  itoa = λ n. (n + 11) ∷ [];
  encode_base64 = toy_codec.encode_to_string;
}

abbrev pub prover : Prover
prover = record { codec = toy_codec; signing = signing; provider_id = "p"; signer = none }

abbrev challenge : AuditChallenge
challenge = record {
  version = pos 1;
  challenge_id = "c";
  merkle_root = root;
  provider_id = "p";
  chunk_index = pos 0;
  block_index = pos 0;
  nonce = "n";
  expires_at = pos 900;
  proof_version = pos 2;
}

abbrev compact : AuditChallenge
compact = record challenge { proof_version = pos 4 }

abbrev disk : Disk
disk = (put_stream toy_codec no_fault 7 root pieces empty_disk).1

challenge-IsFor : IsFor prover (pos 800) challenge disk (flatten pieces) 0
unfolding validate_challenge flatten
challenge-IsFor = record {
  stored_at = 7;
  stored = (put_stream-IsStored toy_codec toy_laws no_fault 7 root pieces empty_disk 2 stored).0;
  valid = refl;
  asked = refl;
  in_bytes = omega arith;
  small = omega arith;
}

compact-IsFor : IsFor prover (pos 800) compact disk (flatten pieces) 0
unfolding validate_challenge flatten
compact-IsFor = record {
  stored_at = 7;
  stored = (put_stream-IsStored toy_codec toy_laws no_fault 7 root pieces empty_disk 2 stored).0;
  valid = refl;
  asked = refl;
  in_bytes = omega arith;
  small = omega arith;
}

block :
    get_elem? (split_sub_chunk_blocks (chunk_at default_chunk_size 0 (flatten pieces))) 0
    ≡ some (1 ∷ 2 ∷ [])
unfolding flatten split_sub_chunk_blocks block_loop sub_chunk_block_count
block = refl

serve_challenge-IsRawAnswer_example :
    IsRawAnswer prover
      (pos 800)
      challenge
      0
      (length challenge-IsFor.stored.hashes)
      (chunk_at default_chunk_size 0 (flatten pieces))
      (serve_challenge prover no_faults (pos 800) challenge disk)
serve_challenge-IsRawAnswer_example =
    serve_challenge-IsRawAnswer prover toy_laws (pos 800) challenge disk (flatten pieces) 0
      challenge-IsFor refl

raw_answer :
    IsRawAnswer prover
      (pos 800)
      challenge
      0
      (length challenge-IsFor.stored.hashes)
      (chunk_at default_chunk_size 0 (flatten pieces))
      (serve_challenge prover no_faults (pos 800) challenge disk)
raw_answer =
    serve_challenge-IsRawAnswer prover toy_laws (pos 800) challenge disk (flatten pieces) 0
      challenge-IsFor refl

serve_challenge-IsCompactAnswer_example :
    IsCompactAnswer prover
      (pos 800)
      compact
      0
      0
      (length compact-IsFor.stored.hashes)
      (chunk_at default_chunk_size 0 (flatten pieces))
      (1 ∷ 2 ∷ [])
      (serve_challenge prover no_faults (pos 800) compact disk)
serve_challenge-IsCompactAnswer_example =
    serve_challenge-IsCompactAnswer prover toy_laws (pos 800) compact disk (flatten pieces) 0
      compact-IsFor 0 (1 ∷ 2 ∷ []) refl refl block

head_eq : (x y : ℕ) (xs ys : Bytes) → x ∷ xs ≡ y ∷ ys → x ≡ y
head_eq x y xs ys e = cc

tail_eq : (x y : ℕ) (xs ys : Bytes) → x ∷ xs ≡ y ∷ ys → xs ≡ ys
tail_eq x y xs ys e = cc

-- Texts with the same bytes compare as equal.
text_bytes_compare : (a b : String) → text_bytes a ≡ text_bytes b → compare a b ≡ eq
text_bytes_compare String.[] String.[] e = λ i. nil-nil i
text_bytes_compare String.[] (String.◌∷◌ d t) e = cc
text_bytes_compare (String.◌∷◌ c s) String.[] e = cc
text_bytes_compare (String.◌∷◌ c s) (String.◌∷◌ d t) e =
    let first : code c ≡ code d = omega (arith, head_eq (code c + 11) (code d + 11) _ _ e) in
    let behind = text_bytes_compare s t (tail_eq (code c + 11) (code d + 11) _ _ e) in
    let heads : compare_ℕ (code c) (code d) ≡ eq = ground (arith, first) in
    (λ i. cons-cons c d s t i) ∙ rw (heads, behind) refl

signing_laws : SigningLaws signing
signing_laws = record {
  text_injective = λ a b e. (eq_iff a b).0 (ap is_eq (text_bytes_compare a b e));
  itoa_injective = λ m n e. omega (arith, head_eq (m + 11) (n + 11) [] [] e);
  itoa_one_line = λ n. (λ e. absurd (omega arith), tt);
}

abbrev proof : Signed
proof = record {
  provider_id = "p";
  challenge_id = "c";
  nonce = "n";
  merkle_root = root;
  chunk_index = 0;
  block_index = 0;
  proof_version = 2;
  chunk_data = flatten pieces;
}

long_line : (s : String) → IsOneLine (text_bytes s)
long_line String.[] = tt
long_line (String.◌∷◌ r s) = (λ e. absurd (omega (arith, e)), long_line s)

abbrev client_claims : Claims
client_claims = record claims { type = "challenge" }

abbrev client_tokens : TokenCodec
client_tokens = record server.tokens { unmarshal_claims = λ _. some client_claims }

abbrev request : ClientRequest
request = record {
  bearer = some "token";
  body = some challenge;
  unix_now = pos 800;
  now = 100;
  faults = no_faults;
}

abbrev response : AuditResponse
response =
    raw_response prover (pos 800) challenge 0 (length challenge-IsFor.stored.hashes)
      (chunk_at default_chunk_size 0 (flatten pieces)) raw_answer.siblings

answered_client :
    (handle_client_challenge prover client_tokens server.keys request new_challenge_rate_limiter
      disk).0
    ≡ answered response
unfolding handle_client_challenge admit_client verify_token any_verifies allow attempt roll sub
    lookup insert sign_audit_response
answered_client = raw_answer.replies

handle_client_challenge-IsClientAnswer_example :
    IsClientAnswer prover client_tokens server.keys request new_challenge_rate_limiter disk response
handle_client_challenge-IsClientAnswer_example =
    handle_client_challenge-IsClientAnswer prover client_tokens server.keys request
      new_challenge_rate_limiter disk response answered_client

granted_per_minute_example :
    granted "a/b"
      (("a/b", 100) ∷ ("c/d", 90) ∷ [])
      (after_attempts (("a/b", 5) ∷ []) new_challenge_rate_limiter)
    ≤ 60
granted_per_minute_example =
    granted_per_minute "a/b" (("a/b", 5) ∷ []) (("a/b", 100) ∷ ("c/d", 90) ∷ []) 80
      (omega arith, (omega arith, tt)) (omega arith, (omega arith, tt))

proof-IsPlain : IsPlain toy_codec signing proof
proof-IsPlain = record {
  provider_line = (λ e. absurd (omega (arith, e)), tt);
  challenge_line = (λ e. absurd (omega (arith, e)), tt);
  nonce_line = (λ e. absurd (omega (arith, e)), tt);
  root_line = long_line root;
}

proof_sig_payload-IsSameProof_example : IsSameProof toy_codec signing proof proof
proof_sig_payload-IsSameProof_example =
    proof_sig_payload-IsSameProof toy_codec signing signing_laws proof proof proof-IsPlain
      proof-IsPlain refl
