-- ===== src/Api/Challenge.antt =====
-- api/challenge.go: an audit challenge answered with one chunk, or one block of it, and the proof of
-- it; and `ProofSigPayload` of identity/proofsig.go, which the answer's signature is over.
use obsideo_provider.Base.{
  ℕ, zero, suc, ◌*◌, Option, none, some, List, [], ◌∷◌, ◌++◌, String, Bool, false, not, ◌&&◌, ◌||◌,
  str_eq, leb, ◌==◌, if◌then◌else◌, length, take, drop, replicate, Result, ok, err,
}
use obsideo_provider.Base.Int.{ℤ, pos, negsuc, ltb_ℤ}
use obsideo_provider.Base.Time.{to_int64}
use obsideo_provider.Base.Dir.{lookup}
use obsideo_provider.Merkle.Codec.{Bytes, Codec}
use obsideo_provider.Merkle.Tree.{compute_merkle_proof}
use obsideo_provider.Merkle.Batch.{Index}
use obsideo_provider.Merkle.SubChunk.{sub_chunk_block_count, generate_sub_chunk_siblings}
use obsideo_provider.Store.Disk.{Disk, not_found}
use obsideo_provider.Store.Objects.{get_index}

pub record AuditChallenge : Type 0 where
  pub version : ℤ
  pub challenge_id : String
  pub merkle_root : String
  pub provider_id : String
  pub chunk_index : ℤ
  pub block_index : ℤ
  pub nonce : String
  pub expires_at : ℤ
  pub proof_version : ℤ

pub record MerkleProof : Type 0 where
  pub siblings : List String
  pub index : ℕ

pub record AuditResponse : Type 0 where
  pub version : ℤ
  pub challenge_id : String
  pub provider_id : String
  pub merkle_root : String
  pub chunk_index : ℕ
  pub chunk_data : String
  pub merkle_proof : MerkleProof
  pub total_chunk_count : ℕ
  pub nonce : String
  pub timestamp : ℤ
  pub proof_version : ℕ
  pub signature : String
  pub key_id : String

-- The identity that signs: its Ed25519 key and the name of the key.
pub record Signer : Type 0 where
  pub sign : Bytes → Bytes
  pub key_id : String

-- The bytes of a text, strconv.Itoa, and base64.StdEncoding.
pub record SigningCodec : Type 0 where
  pub text_bytes : String → Bytes
  pub itoa : ℕ → Bytes
  pub encode_base64 : Bytes → String

-- The server, as far as a challenge reads it.
pub record Prover : Type 0 where
  pub codec : Codec
  pub signing : SigningCodec
  pub provider_id : String
  pub signer : Option Signer

-- The response: an error, an answer, or none since the handler panics.
pub data Reply : Type 0 where
  failed : ℕ → Reply
  panicked : Reply
  answered : AuditResponse → Reply

-- The outcomes of the system calls that serve one challenge.
pub record ReadFaults : Type 0 where
  pub opens : Bool
  pub seeks : Bool
  pub reads : Bool

abbrev pub proof_version_v1 : ℕ
proof_version_v1 = 2

abbrev pub proof_version_compact : ℕ
proof_version_compact = 4

abbrev pub is_number : ℕ → ℤ → Bool
is_number n (pos m) = n == m
is_number n (negsuc m) = false

-- `ProofSigPayload`: the fields, each behind the last with a line feed between.
abbrev pub line : Bytes → Bytes → Bytes
line field rest = field ++ b'\n' ∷ rest

unfoldable pub proof_sig_payload :
    Codec
    → SigningCodec
    → (provider_id challenge_id nonce merkle_root : String)
    → (chunk_index block_index proof_version : ℕ) → (chunk_data : Bytes) → Bytes
proof_sig_payload c s provider_id challenge_id nonce merkle_root chunk_index block_index
      proof_version chunk_data =
    line (s.text_bytes "obsideo-proof-response-v1") (
      line (s.text_bytes provider_id) (
        line (s.text_bytes challenge_id) (
          line (s.text_bytes nonce) (
            line (s.text_bytes merkle_root) (
              line (s.itoa chunk_index) (
                line (s.itoa block_index)
                  (line (s.itoa proof_version) (c.hex_encode (c.sha256 chunk_data)))))))))

module _ (p : Prover) where
  -- `signAuditResponse`: no change without a signer.
  unfoldable pub sign_audit_response :
      AuditResponse → (raw : Bytes) → (block_index : ℕ) → AuditResponse
  sign_audit_response resp raw block_index = elim p.signer [
    | none ↦ resp
    | some signer ↦ record resp {
      signature = p.signing.encode_base64 (
          signer.sign (
            proof_sig_payload p.codec p.signing resp.provider_id resp.challenge_id resp.nonce
              resp.merkle_root resp.chunk_index block_index resp.proof_version raw));
      key_id = signer.key_id;
    }
  ]

  -- The checks before the store is read; the error is the HTTP status.
  unfoldable pub validate_challenge : ℤ → AuditChallenge → Result ℕ (Unit {0})
  validate_challenge now ch =
      if not (str_eq ch.provider_id "")
        && not (str_eq p.provider_id "")
        && not (str_eq ch.provider_id p.provider_id)
      then err 403
      else if ltb_ℤ (pos 0) ch.expires_at && ltb_ℤ ch.expires_at now
      then err 410
      else if str_eq ch.merkle_root ""
      then err 400
      else (elim (p.codec.decode_string ch.merkle_root) [
        | none ↦ err 400
        | some _ ↦
            if is_number 0 ch.proof_version
              || is_number proof_version_v1 ch.proof_version
              || is_number proof_version_compact ch.proof_version
            then ok tt
            else err 400
      ])

  -- The file open at its start, the seek to the chunk, and the read of at most a chunk.
  unfoldable pub read_chunk : ReadFaults → ℕ → ℕ → String → Disk → Result ℕ Bytes
  read_chunk f chunk_index chunk_size merkle disk = elim (lookup merkle disk.objects) [
    | none ↦ err 404
    | some file ↦ elim (to_int64 (pos (chunk_index * chunk_size))) [
      | negsuc _ ↦ err 500
      | pos offset ↦
          let chunk = take chunk_size (drop offset file.contents) in
          if not f.opens || not f.seeks || not f.reads
          then err 500
          else if length chunk == 0
          then err 500
          else ok chunk
    ]
  ]

  -- The leaves: one for each chunk, filled from the chunk hashes; a hash too many is out of range.
  unfoldable pub fill_leaves : ℕ → List String → Result Reply (List Bytes)
  fill_leaves total [] = ok (replicate total [])
  fill_leaves zero (h ∷ hs) = elim (p.codec.decode_string h) [
    | none ↦ err (failed 500)
    | some raw ↦ err panicked
  ]
  fill_leaves (suc total) (h ∷ hs) =
      let rest = fill_leaves total hs in
      elim (p.codec.decode_string h) [
        | none ↦ err (failed 500)
        | some raw ↦ elim rest [ err e ↦ err e | ok leaves ↦ ok (p.codec.sha3_512 raw ∷ leaves) ]
      ]

  unfoldable pub compact_response :
      ℤ
      → AuditChallenge
      → (chunk_index block_index total : ℕ) → (block : Bytes) → List String
      → AuditResponse
  compact_response now ch chunk_index block_index total block siblings = record {
    version = ch.version;
    challenge_id = ch.challenge_id;
    provider_id = p.provider_id;
    merkle_root = ch.merkle_root;
    chunk_index = chunk_index;
    chunk_data = p.signing.encode_base64 block;
    merkle_proof = record { siblings = siblings; index = block_index };
    total_chunk_count = total;
    nonce = ch.nonce;
    timestamp = now;
    proof_version = proof_version_compact;
    signature = "";
    key_id = "";
  }

  unfoldable pub raw_response :
      ℤ → AuditChallenge → (chunk_index total : ℕ) → (chunk : Bytes) → List String → AuditResponse
  raw_response now ch chunk_index total chunk siblings = record {
    version = ch.version;
    challenge_id = ch.challenge_id;
    provider_id = p.provider_id;
    merkle_root = ch.merkle_root;
    chunk_index = chunk_index;
    chunk_data = p.signing.encode_base64 chunk;
    merkle_proof = record { siblings = siblings; index = chunk_index };
    total_chunk_count = total;
    nonce = ch.nonce;
    timestamp = now;
    proof_version = proof_version_v1;
    signature = "";
    key_id = "";
  }

  -- The branch of compact proofs.
  unfoldable pub answer_block : ℤ → AuditChallenge → ℕ → ℕ → Bytes → ℤ → Reply
  answer_block now ch chunk_index total chunk (negsuc _) = failed 400
  answer_block now ch chunk_index total chunk (pos block_index) =
      if leb (sub_chunk_block_count (length chunk)) block_index
      then failed 400
      else (elim (generate_sub_chunk_siblings p.codec chunk block_index) [
        | err _ ↦ failed 500
        | ok (block, siblings) ↦ answered (
            sign_audit_response
              (compact_response now ch chunk_index block_index total block siblings) block
              block_index)
      ])

  unfoldable pub answer_compact : ℤ → AuditChallenge → ℕ → ℕ → Bytes → Reply
  answer_compact now ch chunk_index total chunk =
      answer_block now ch chunk_index total chunk ch.block_index

  -- The branch of raw proofs.
  unfoldable pub answer_raw : ℤ → AuditChallenge → ℕ → Index → Bytes → Reply
  answer_raw now ch chunk_index idx chunk = elim (fill_leaves idx.total_chunks idx.chunk_hashes) [
    | err reply ↦ reply
    | ok leaves ↦ elim (compute_merkle_proof p.codec leaves chunk_index) [
      | err _ ↦ panicked
      | ok siblings ↦ answered (
          sign_audit_response (raw_response now ch chunk_index idx.total_chunks chunk siblings)
            chunk 0)
    ]
  ]

  -- From the range check of the chunk index on.
  unfoldable pub answer_chunk : ReadFaults → ℤ → AuditChallenge → ℤ → Index → Disk → Reply
  answer_chunk f now ch (negsuc _) idx disk = failed 400
  answer_chunk f now ch (pos i) idx disk =
      if leb idx.total_chunks i
      then failed 400
      else (elim (read_chunk f i idx.chunk_size ch.merkle_root disk) [
        | err st ↦ failed st
        | ok chunk ↦
            if is_number proof_version_compact ch.proof_version
            then answer_compact now ch i idx.total_chunks chunk
            else answer_raw now ch i idx chunk
      ])

  -- From the index on.
  unfoldable pub answer_challenge : ReadFaults → ℤ → AuditChallenge → Index → Disk → Reply
  answer_challenge f now ch idx disk =
      if idx.total_chunks == 0 then failed 400 else answer_chunk f now ch ch.chunk_index idx disk

  -- `serveChallenge`
  unfoldable pub serve_challenge : ReadFaults → ℤ → AuditChallenge → Disk → Reply
  serve_challenge f now ch disk = elim (validate_challenge now ch) [
    | err st ↦ failed st
    | ok _ ↦ elim (get_index ch.merkle_root disk) [
      | err not_found ↦ failed 404
      | err _ ↦ failed 500
      | ok idx ↦ answer_challenge f now ch idx disk
    ]
  ]

  -- `handleChallenge`: the body is `none` if it cannot be decoded.
  unfoldable pub handle_challenge : ReadFaults → ℤ → Option AuditChallenge → Disk → Reply
  handle_challenge f now none disk = failed 400
  handle_challenge f now (some ch) disk = serve_challenge f now ch disk
