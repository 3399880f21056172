-- ===== src/Api/ChallengeLaws.antt =====
-- A stored object answers every challenge for its bytes, with a proof that leads to its root.
use obsideo_provider.Base.{
  ℕ, ◌+◌, ◌-◌, ◌*◌, ◌/◌, ◌^◌, ◌<◌, ◌≡◌, refl, ap, ◌∙◌, some, List, [], ◌∷◌, String, true, false,
  leb, ◌==◌, arith, length, get_elem?, take, drop, subst, ok, if◌then◌else◌, length-take,
  length-drop,
}
use obsideo_provider.Base.Int.{ℤ, pos}
use obsideo_provider.Base.Time.{Time, to_int64}
use obsideo_provider.Base.Dir.{lookup}
use obsideo_provider.Merkle.Codec.{Bytes, CodecLaws}
use obsideo_provider.Merkle.Tree.{decode_leaves}
use obsideo_provider.Merkle.Perfect.{climb}
use obsideo_provider.Merkle.Proof.{Proves, compute_merkle_proof-Proves}
use obsideo_provider.Merkle.Batch.{default_chunk_size, chunk_hash_loop}
use obsideo_provider.Merkle.SubChunk.{
  chunk_hash_v1, sub_chunk_leaf, build_sub_chunk_seal, sub_chunk_block_count, sub_chunk_block_bound,
  split_sub_chunk_blocks, IsAnswered, generate_sub_chunk_siblings-IsAnswered,
}
use obsideo_provider.Merkle.Chunks.{
  chunk_at, chunk_digest, get_elem?-chunk_hash_loop, length-chunk_hash_loop,
  get_elem?-decode_leaves, decode_leaves_cons, IsBuilt, build_merkle_tree-IsBuilt,
}
use obsideo_provider.Store.Disk.{Disk, read_file}
use obsideo_provider.Store.Objects.{get_index}
use obsideo_provider.Store.Addressed.{IsStored, index_of}
use obsideo_provider.Api.Challenge.{
  Prover, ReadFaults, AuditChallenge, Reply, answered, validate_challenge, read_chunk, fill_leaves,
  raw_response, compact_response, sign_audit_response, answer_raw, answer_block, answer_compact,
  answer_chunk, answer_challenge, serve_challenge, is_number, proof_version_compact,
}

-- Every system call succeeds.
abbrev pub no_faults : ReadFaults
no_faults = record { opens = true; seeks = true; reads = true }

-- The chunk begins within the object.
abbrev pub HasChunk : ℕ → Bytes → Type 0
HasChunk i bytes = i * default_chunk_size < length bytes

to_int64_small : (n : ℕ) → n < 2 ^ 63 → to_int64 (pos n) ≡ pos n
unfolding to_int64
to_int64_small n h = ground arith

module _ (p : Prover) where
  -- Where every leaf has its chunk hash, the array is filled.
  fill_leaves-decode_leaves :
      (i : ℕ) (hs : List String) (leaves : List Bytes)
      → decode_leaves p.codec i hs ≡ ok leaves
      → fill_leaves p (length hs) hs ≡ ok leaves
  unfolding fill_leaves decode_leaves
  fill_leaves-decode_leaves i [] leaves e = ground arith
  fill_leaves-decode_leaves i (h ∷ hs) leaves e =
      let (raw, rest, good, fine, split) = decode_leaves_cons p.codec i h hs leaves e in
      rw (good, fill_leaves-decode_leaves (i + 1) hs rest fine, split) refl

  -- The proof for one chunk, made as the handler makes it.
  pub record IsProved (chunk : Bytes) (i : ℕ) (root : String) (hashes : List String) : Type 0 where
    pub leaves : List Bytes
    pub filled : fill_leaves p (length hashes) hashes ≡ ok leaves
    pub proof : Proves p.codec leaves i (sub_chunk_leaf p.codec i chunk)
    pub rooted : p.codec.encode_to_string proof.root ≡ root

  in_count :
      (i : ℕ) (bytes : Bytes)
      → HasChunk i bytes
      → i < (length bytes + default_chunk_size - 1) / default_chunk_size
  in_count i bytes h = omega (arith, h)

  -- The hash of the chunk, in its place.
  chunk_hash_in :
      (i : ℕ) (bytes : Bytes) (root : String) (hashes : List String)
      → IsBuilt p.codec bytes root hashes
      → HasChunk i bytes
      → get_elem? hashes i
        ≡ some (
            p.codec.encode_to_string (chunk_digest p.codec i (chunk_at default_chunk_size i bytes)))
  chunk_hash_in i bytes root hashes built h =
      let zero_add : 0 + i ≡ i = omega arith in
      let inside : i < built.count = omega (arith, built.counted, in_count i bytes h) in
      let found =
        subst
          (λ n.
            get_elem? (chunk_hash_loop p.codec default_chunk_size built.count 0 bytes) i
            ≡ some (
                p.codec.encode_to_string
                  (chunk_digest p.codec n (chunk_at default_chunk_size n bytes))))
          zero_add
          (get_elem?-chunk_hash_loop p.codec default_chunk_size built.count 0 i bytes inside) in
      ap (λ hs. get_elem? hs i) built.hashed ∙ found

  built-IsProved :
      (laws : CodecLaws p.codec) (bytes : Bytes) (root : String) (hashes : List String)
      → IsBuilt p.codec bytes root hashes
      → (i : ℕ) → HasChunk i bytes
      → IsProved (chunk_at default_chunk_size i bytes) i root hashes
  unfolding sub_chunk_leaf chunk_hash_v1
  built-IsProved laws bytes root hashes built i h =
      let chunk = chunk_at default_chunk_size i bytes in
      let digest = chunk_digest p.codec i chunk in
      let proof =
        compute_merkle_proof-Proves p.codec laws built.leaves i (p.codec.sha3_512 digest) (
          get_elem?-decode_leaves p.codec 0 i hashes built.leaves (p.codec.encode_to_string digest)
            digest built.decoded (chunk_hash_in i bytes root hashes built h)
            (laws.decode-encode digest)) in
      let same : proof.root ≡ built.top = cc (proof.has_root, built.rooted) in
      record {
        leaves = built.leaves;
        filled = fill_leaves-decode_leaves 0 hashes built.leaves built.decoded;
        proof = proof;
        rooted = ap p.codec.encode_to_string same ∙ built.named;
      }

  -- The read of a chunk of the stored bytes.
  read_chunk_lem :
      (merkle : String) (bytes : Bytes) (t : Time) (disk : Disk) (i size : ℕ)
      → lookup merkle disk.objects ≡ some (record { contents = bytes; mtime = t })
      → 0 < size
      → i * size < length bytes
      → length bytes < 2 ^ 63
      → read_chunk p no_faults i size merkle disk ≡ ok (chunk_at size i bytes)
  unfolding read_chunk
  read_chunk_lem merkle bytes t disk i size found pos_size h small =
      let rest = drop (i * size) bytes in
      let filled : (length (take size rest) == 0) ≡ false =
        ground (arith, length-take size rest, length-drop (i * size) bytes) in
      let offset : to_int64 (pos (i * size)) ≡ pos (i * size) =
        to_int64_small (i * size) (omega arith) in
      rw (read_chunk, found, offset, filled) refl

  -- From a stored object to the answer of its index and of its chunk.
  stored_count :
      (bytes : Bytes) (root : String) (hashes : List String)
      → IsBuilt p.codec bytes root hashes
      → (i : ℕ) → HasChunk i bytes
      → i < length hashes
  stored_count bytes root hashes built i h =
      let count = length-chunk_hash_loop p.codec default_chunk_size built.count 0 bytes in
      let same : length hashes ≡ built.count = ap length built.hashed ∙ count in
      omega (arith, same, built.counted, in_count i bytes h)

  -- The challenge is for chunk i of these stored bytes, and passes the first checks.
  pub record IsFor (now : ℤ) (ch : AuditChallenge) (disk : Disk) (bytes : Bytes) (i : ℕ)
      : Type 0 where
    pub stored_at : Time
    pub stored : IsStored p.codec stored_at ch.merkle_root bytes disk
    pub valid : validate_challenge p now ch ≡ ok tt
    pub asked : ch.chunk_index ≡ pos i
    pub in_bytes : HasChunk i bytes
    pub small : length bytes < 2 ^ 63

  -- The answer once the chunk is read.
  abbrev chunk_answer : ℤ → AuditChallenge → ℕ → List String → Bytes → Reply
  chunk_answer now ch i hashes chunk =
      if is_number proof_version_compact ch.proof_version
      then answer_compact p now ch i (length hashes) chunk
      else answer_raw p now ch i (index_of hashes) chunk

  -- The handler as far as the choice of the proof.
  reaches_chunk :
      (now : ℤ) (ch : AuditChallenge) (disk : Disk) (bytes : Bytes) (i : ℕ)
      (hyp : IsFor now ch disk bytes i)
      → serve_challenge p no_faults now ch disk
        ≡ chunk_answer now ch i hyp.stored.hashes (chunk_at default_chunk_size i bytes)
  unfolding serve_challenge get_index read_file answer_challenge answer_chunk
  reaches_chunk now ch disk bytes i hyp =
      let hashes = hyp.stored.hashes in
      let built =
        build_merkle_tree-IsBuilt p.codec bytes ch.merkle_root hashes hyp.stored.has_root in
      let below : i < length hashes =
        stored_count bytes ch.merkle_root hashes built i hyp.in_bytes in
      let read =
        read_chunk_lem ch.merkle_root bytes hyp.stored_at disk i default_chunk_size
          hyp.stored.object (omega arith) hyp.in_bytes hyp.small in
      let counted : (length hashes == 0) ≡ false = ground arith in
      let inside : leb (length hashes) i ≡ false = ground arith in
      let idx = index_of hashes in
      let to_index : serve_challenge p no_faults now ch disk
          ≡ answer_chunk p no_faults now ch ch.chunk_index idx disk =
        rw (serve_challenge, hyp.valid, hyp.stored.index, counted) refl in
      let to_chunk : answer_chunk p no_faults now ch (pos i) idx disk
          ≡ chunk_answer now ch i hashes (chunk_at default_chunk_size i bytes) =
        rw (answer_chunk, inside, read) refl in
      to_index ∙ ap (λ z. answer_chunk p no_faults now ch z idx disk) hyp.asked ∙ to_chunk

  -- An answer with a chunk, and siblings from its leaf to the root asked for.
  pub record IsRawAnswer (now : ℤ) (ch : AuditChallenge) (i total : ℕ) (chunk : Bytes)
      (reply : Reply) : Type 0 where
    pub siblings : List String
    pub top : Bytes
    pub replies :
        reply
        ≡ answered (sign_audit_response p (raw_response p now ch i total chunk siblings) chunk 0)
    pub verifies : climb p.codec (sub_chunk_leaf p.codec i chunk) i siblings ≡ some top
    pub rooted : p.codec.encode_to_string top ≡ ch.merkle_root

  -- A stored object answers: a challenge that passes the first checks and asks, not in compact form,
  -- for a chunk that begins within a stored object is answered with exactly the bytes of that chunk and
  -- with siblings that lead from the chunk's leaf to the root in the challenge; no system call failing.
  pub serve_challenge-IsRawAnswer :
      (laws : CodecLaws p.codec) (now : ℤ) (ch : AuditChallenge) (disk : Disk) (bytes : Bytes)
      (i : ℕ) (hyp : IsFor now ch disk bytes i)
      → is_number proof_version_compact ch.proof_version ≡ false
      → IsRawAnswer now ch i
          (length hyp.stored.hashes)
          (chunk_at default_chunk_size i bytes)
          (serve_challenge p no_faults now ch disk)
  unfolding answer_raw
  serve_challenge-IsRawAnswer laws now ch disk bytes i hyp raw =
      let hashes = hyp.stored.hashes in
      let chunk = chunk_at default_chunk_size i bytes in
      let built =
        build_merkle_tree-IsBuilt p.codec bytes ch.merkle_root hashes hyp.stored.has_root in
      let proved = built-IsProved laws bytes ch.merkle_root hashes built i hyp.in_bytes in
      record {
        siblings = proved.proof.siblings;
        top = proved.proof.root;
        replies =
            reaches_chunk now ch disk bytes i hyp
            ∙ rw raw (rw (answer_raw, proved.filled, proved.proof.has_proof) refl);
        verifies = proved.proof.verifies;
        rooted = proved.rooted;
      }

  -- An answer with a block of a chunk, and siblings from its leaf to the chunk's seal.
  pub record IsCompactAnswer (now : ℤ) (ch : AuditChallenge) (i j total : ℕ) (chunk block : Bytes)
      (reply : Reply) : Type 0 where
    pub siblings : List String
    pub top : Bytes
    pub replies :
        reply
        ≡ answered
            (sign_audit_response p (compact_response p now ch i j total block siblings) block j)
    pub seal : build_sub_chunk_seal p.codec chunk ≡ ok (p.codec.encode_to_string top)
    pub verifies : climb p.codec (sub_chunk_leaf p.codec j block) j siblings ≡ some top

  -- A challenge in compact form for a block of a chunk of a stored object is answered with exactly the
  -- bytes of that block and with siblings that lead from the block's leaf to the root whose text is the
  -- chunk's seal; the challenge passing the first checks, and no system call failing.
  pub serve_challenge-IsCompactAnswer :
      (laws : CodecLaws p.codec) (now : ℤ) (ch : AuditChallenge) (disk : Disk) (bytes : Bytes)
      (i : ℕ) (hyp : IsFor now ch disk bytes i) (j : ℕ) (block : Bytes)
      → is_number proof_version_compact ch.proof_version ≡ true
      → ch.block_index ≡ pos j
      → get_elem? (split_sub_chunk_blocks (chunk_at default_chunk_size i bytes)) j ≡ some block
      → IsCompactAnswer now ch i j
          (length hyp.stored.hashes)
          (chunk_at default_chunk_size i bytes)
          block
          (serve_challenge p no_faults now ch disk)
  unfolding answer_compact answer_block
  serve_challenge-IsCompactAnswer laws now ch disk bytes i hyp j block compact asked found =
      let chunk = chunk_at default_chunk_size i bytes in
      let total = length hyp.stored.hashes in
      let bound = sub_chunk_block_bound chunk j block found in
      let inside : leb (sub_chunk_block_count (length chunk)) j ≡ false = ground (arith, bound) in
      let filled : 0 < length chunk = omega (
        arith,
        hyp.in_bytes,
        length-take default_chunk_size (drop (i * default_chunk_size) bytes),
        length-drop (i * default_chunk_size) bytes,
      ) in
      let answer : IsAnswered p.codec chunk j block =
        generate_sub_chunk_siblings-IsAnswered p.codec laws chunk j block filled found in
      let to_block : answer_compact p now ch i total chunk
          ≡ answer_block p now ch i total chunk (pos j) =
        ap (answer_block p now ch i total chunk) asked in
      let last : answer_block p now ch i total chunk (pos j)
          ≡ answered (
              sign_audit_response p (compact_response p now ch i j total block answer.siblings)
                block j) =
        rw (answer_block, inside, answer.answer) refl in
      record {
        siblings = answer.siblings;
        top = answer.root;
        replies = reaches_chunk now ch disk bytes i hyp ∙ rw compact (to_block ∙ last);
        seal = answer.seal;
        verifies = answer.verifies;
      }
