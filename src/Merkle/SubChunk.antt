-- ===== src/Merkle/SubChunk.antt =====
-- api/subchunk_helpers.go: the tree over the blocks of one chunk, rebuilt for every challenge.
use mathlib.Core.List.{flatten, append-nil}
use obsideo_provider.Base.{
  ℕ, zero, suc, ◌+◌, ◌-◌, ◌*◌, ◌/◌, ◌≤◌, ◌<◌, ◌≡◌, refl, sym, ap, ap₂, subst, ◌∙◌, none, some, List,
  [], ◌∷◌, ◌++◌, String, arith, ltb, ◌==◌, if◌then◌else◌, length, get_elem?, take, drop,
  take-append-drop, length-drop, Result, ok, err, Bool-cases, inl, inr,
}
use obsideo_provider.Merkle.Codec.{Bytes, Codec, CodecLaws}
use obsideo_provider.Merkle.Tree.{MerkleError, root_of, compute_merkle_proof}
use obsideo_provider.Merkle.Perfect.{climb}
use obsideo_provider.Merkle.Proof.{Proves, compute_merkle_proof-Proves}

abbrev pub sub_chunk_block_size : ℕ
sub_chunk_block_size = 4096

unfoldable pub sub_chunk_block_count : ℕ → ℕ
sub_chunk_block_count n =
    if n == 0 then 0 else (n + sub_chunk_block_size - 1) / sub_chunk_block_size

-- The loop over the blocks: `rounds` left, `i` the next index.
unfoldable pub block_loop : ℕ → ℕ → Bytes → List Bytes
block_loop zero i chunk = []
block_loop (suc rounds) i chunk =
    let start = i * sub_chunk_block_size in
    let end = start + sub_chunk_block_size in
    let end' = if ltb (length chunk) end then length chunk else end in
    take (end' - start) (drop start chunk) ∷ block_loop rounds (i + 1) chunk

unfoldable pub split_sub_chunk_blocks : Bytes → List Bytes
split_sub_chunk_blocks chunk = block_loop (sub_chunk_block_count (length chunk)) 0 chunk

-- `fmt.Errorf` of an empty chunk, and of an index out of range.
pub data SubChunkError : Type 0 where
  empty_chunk out_of_range : SubChunkError
  tree_failed : MerkleError → SubChunkError

module _ (c : Codec) where
  -- sha256 of the index in decimal and the bytes in hexadecimal
  unfoldable pub chunk_hash_v1 : ℕ → Bytes → Bytes
  chunk_hash_v1 index raw = c.sha256 (c.itoa index ++ c.hex_encode raw)

  unfoldable pub sub_chunk_leaf : ℕ → Bytes → Bytes
  sub_chunk_leaf index block = c.sha3_512 (chunk_hash_v1 index block)

  unfoldable pub leaves_from : ℕ → List Bytes → List Bytes
  leaves_from i [] = []
  leaves_from i (b ∷ bs) = sub_chunk_leaf i b ∷ leaves_from (i + 1) bs

  unfoldable pub sub_chunk_leaves : Bytes → List Bytes
  sub_chunk_leaves chunk = leaves_from 0 (split_sub_chunk_blocks chunk)

  unfoldable pub generate_sub_chunk_siblings :
      Bytes → ℕ → Result SubChunkError (Bytes × List String)
  generate_sub_chunk_siblings chunk block_index =
      if length chunk == 0
      then err empty_chunk
      else (elim (get_elem? (split_sub_chunk_blocks chunk) block_index) [
        | none ↦ err out_of_range
        | some block ↦ elim (compute_merkle_proof c (sub_chunk_leaves chunk) block_index) [
          | err e ↦ err (tree_failed e)
          | ok siblings ↦ ok (block, siblings)
        ]
      ])

  -- The seal: the hexadecimal root over the leaves.
  unfoldable pub build_sub_chunk_seal : Bytes → Result SubChunkError String
  build_sub_chunk_seal chunk =
      if length chunk == 0 then err empty_chunk else (elim (root_of c (sub_chunk_leaves chunk)) [
        | err e ↦ err (tree_failed e)
        | ok root ↦ ok (c.encode_to_string root)
      ])

  get_elem?-leaves_from :
      (bs : List Bytes) (i j : ℕ) (b : Bytes)
      → get_elem? bs j ≡ some b
      → get_elem? (leaves_from i bs) j ≡ some (sub_chunk_leaf (i + j) b)
  unfolding leaves_from
  get_elem?-leaves_from [] i j b g = cc
  get_elem?-leaves_from (x ∷ xs) i zero b g = ground arith
  get_elem?-leaves_from (x ∷ xs) i (suc j) b g =
      let shift : i + 1 + j ≡ i + suc j = omega arith in
      ground (arith, shift, get_elem?-leaves_from xs (i + 1) j b g)

  -- The answer to a challenge for one block, and what a verifier makes of it.
  pub record IsAnswered (chunk : Bytes) (block_index : ℕ) (block : Bytes) : Type 0 where
    pub root : Bytes
    pub siblings : List String
    pub answer : generate_sub_chunk_siblings chunk block_index ≡ ok (block, siblings)
    pub seal : build_sub_chunk_seal chunk ≡ ok (c.encode_to_string root)
    pub verifies : climb c (sub_chunk_leaf block_index block) block_index siblings ≡ some root

  -- For every block of a chunk that is not empty, the challenge is answered with that block and with
  -- siblings which lead from the block's leaf to the root whose text is the chunk's seal.
  pub generate_sub_chunk_siblings-IsAnswered :
      (laws : CodecLaws c) (chunk : Bytes) (block_index : ℕ) (block : Bytes)
      → 0 < length chunk
      → get_elem? (split_sub_chunk_blocks chunk) block_index ≡ some block
      → IsAnswered chunk block_index block
  unfolding generate_sub_chunk_siblings build_sub_chunk_seal sub_chunk_leaves
  generate_sub_chunk_siblings-IsAnswered laws chunk block_index block h g =
      let zero_add : 0 + block_index ≡ block_index = omega arith in
      let found =
        subst
          (λ n.
            get_elem? (leaves_from 0 (split_sub_chunk_blocks chunk)) block_index
            ≡ some (sub_chunk_leaf n block))
          zero_add (get_elem?-leaves_from (split_sub_chunk_blocks chunk) 0 block_index block g) in
      let up : Proves c (sub_chunk_leaves chunk) block_index (sub_chunk_leaf block_index block) =
        compute_merkle_proof-Proves c laws (sub_chunk_leaves chunk) block_index
          (sub_chunk_leaf block_index block) found in
      record {
        root = up.root;
        siblings = up.siblings;
        answer = ground (arith, g, up.has_proof);
        seal = ground (arith, up.has_root);
        verifies = up.verifies;
      }

drop_nil : (n : ℕ) → drop {A = ℕ} n [] ≡ []
drop_nil zero = refl
drop_nil (suc n) = refl

drop_add : (a b : ℕ) (xs : Bytes) → drop (a + b) xs ≡ drop b (drop a xs)
drop_add zero b xs = let e : 0 + b ≡ b = omega arith in rw e
drop_add (suc a) b [] = drop_nil (suc a + b) ∙ sym (drop_nil b)
drop_add (suc a) b (x ∷ xs) =
    let e : suc a + b ≡ suc (a + b) = omega arith in rw e (drop_add a b xs)

drop_all : (n : ℕ) (xs : Bytes) → length xs ≤ n → drop n xs ≡ []
drop_all n [] h = drop_nil n
drop_all zero (x ∷ xs) h = absurd (omega arith)
drop_all (suc n) (x ∷ xs) h = drop_all n xs (omega arith)

take_all : (xs : Bytes) → take (length xs) xs ≡ xs
take_all [] = refl
take_all (x ∷ xs) = ap (◌∷◌ x) (take_all xs)

-- A block of n bytes, or of all that are left where these are fewer, and what is behind it.
take-append-rest :
    (n : ℕ) (ys : Bytes) → take (if ltb (length ys) n then length ys else n) ys ++ drop n ys ≡ ys
take-append-rest n ys = elim (Bool-cases (ltb (length ys) n)) [
  | inl few ↦ rw (few, take_all ys, drop_all n ys (ground arith)) (append-nil ys)
  | inr many ↦ rw many (take-append-drop n ys)
]

flatten-block_loop :
    (rounds i : ℕ) (chunk : Bytes)
    → length chunk ≤ (i + rounds) * sub_chunk_block_size
    → flatten (block_loop rounds i chunk) ≡ drop (i * sub_chunk_block_size) chunk
unfolding block_loop flatten
flatten-block_loop zero i chunk h = sym (drop_all _ chunk (omega arith))
flatten-block_loop (suc rounds) i chunk h =
    let start = i * sub_chunk_block_size in
    let rest = drop start chunk in
    let end = start + sub_chunk_block_size in
    let size : (if ltb (length chunk) end then length chunk else end) - start
        ≡ (if ltb (length rest) sub_chunk_block_size then length rest else sub_chunk_block_size) =
      ground (arith, length-drop start chunk) in
    let next : (i + 1) * sub_chunk_block_size ≡ start + sub_chunk_block_size = omega arith in
    let above : flatten (block_loop rounds (i + 1) chunk) ≡ drop sub_chunk_block_size rest =
      flatten-block_loop rounds (i + 1) chunk (omega arith)
      ∙ ap (λ n. drop n chunk) next
      ∙ drop_add start sub_chunk_block_size chunk in
    ap₂ (λ n t. take n rest ++ t) size above ∙ take-append-rest sub_chunk_block_size rest

-- The blocks of a chunk, one after another, are the chunk.
pub flatten-split_sub_chunk_blocks :
    (chunk : Bytes) → flatten (split_sub_chunk_blocks chunk) ≡ chunk
unfolding split_sub_chunk_blocks sub_chunk_block_count
flatten-split_sub_chunk_blocks chunk = flatten-block_loop _ 0 chunk (ground arith)

block_loop_bound :
    (rounds i j : ℕ) (chunk block : Bytes)
    → get_elem? (block_loop rounds i chunk) j ≡ some block
    → j < rounds
unfolding block_loop
block_loop_bound zero i j chunk block g = cc
block_loop_bound (suc rounds) i zero chunk block g = omega arith
block_loop_bound (suc rounds) i (suc j) chunk block g =
    omega (arith, block_loop_bound rounds (i + 1) j chunk block g)

-- There is no block behind the counted ones.
pub sub_chunk_block_bound :
    (chunk : Bytes) (j : ℕ) (block : Bytes)
    → get_elem? (split_sub_chunk_blocks chunk) j ≡ some block
    → j < sub_chunk_block_count (length chunk)
unfolding split_sub_chunk_blocks
sub_chunk_block_bound chunk j block g =
    block_loop_bound (sub_chunk_block_count (length chunk)) 0 j chunk block g
