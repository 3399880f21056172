-- ===== src/Merkle/Tree.antt =====
-- `treeFromChunkHashes` and `nextPow2` of store/merkle.go, `nextPow2` and `computeMerkleProof` of
-- api/challenge_helpers.go, `buildSubChunkRoot` of api/subchunk_helpers.go.
use mathlib.Core.Option
use obsideo_provider.Base.{
  ℕ, zero, suc, ◌+◌, ◌-◌, ◌*◌, ◌/◌, ◌%◌, List, [], ◌∷◌, ◌++◌, Option, none, some, true, false,
  String, ltb, leb, ◌==◌, if◌then◌else◌, length, get_elem?, replicate, Result, ok, err, ◌>>=◌,
}
use obsideo_provider.Merkle.Codec.{Bytes, Codec}

-- The errors that the functions return; `panic` is an index out of range, `out_of_fuel` a loop
-- that did not end in the rounds given.
pub data MerkleError : Type 0 where
  empty_data zero_chunks panic out_of_fuel : MerkleError
  bad_chunk_hash : ℕ → MerkleError

abbrev pub merkle_leaf_len : ℕ
merkle_leaf_len = 64

-- `make([]byte, merkleLeafLen)`
abbrev pub zero_leaf : Bytes
zero_leaf = replicate merkle_leaf_len 0

-- `for v < n { v <<= 1 }`; n rounds are enough, since v grows by one at least.
unfoldable pub double_until : ℕ → ℕ → ℕ → ℕ
double_until zero n v = v
double_until (suc fuel) n v = elim (ltb v n) [ true ↦ double_until fuel n (v * 2) | false ↦ v ]

unfoldable pub next_pow2 : ℕ → ℕ
unfolding double_until
next_pow2 n = double_until n n 1

unfoldable pub or_panic {ℓ} : {A : Type ℓ} → Option A → Result MerkleError A
or_panic none = err panic
or_panic (some a) = ok a

-- Appends all-zero leaves up to the next power of two.
unfoldable pub pad_leaves : List Bytes → List Bytes
unfolding next_pow2
pad_leaves leaves = leaves ++ replicate (next_pow2 (length leaves) - length leaves) zero_leaf

module _ (c : Codec) where
  -- One round of the loop: the nodes of the next level. `level[i+1]` panics on an odd level.
  unfoldable pub pair_level : List Bytes → Option (List Bytes)
  pair_level [] = some []
  pair_level (a ∷ []) = none
  pair_level (a ∷ b ∷ rest) = Option.map (λ next. c.sha3_512 (a ++ b) ∷ next) (pair_level rest)

  -- `for len(level) > 1 { … }; return level[0]`
  unfoldable pub reduce : ℕ → List Bytes → Result MerkleError Bytes
  reduce fuel [] = err panic
  reduce fuel (a ∷ []) = ok a
  reduce zero (a ∷ b ∷ rest) = err out_of_fuel
  reduce (suc fuel) (a ∷ b ∷ rest) = elim (pair_level (a ∷ b ∷ rest)) [
    | none ↦ err panic
    | some next ↦ reduce fuel next
  ]

  -- The root over leaves: a single leaf is the root.
  unfoldable pub root_of : List Bytes → Result MerkleError Bytes
  unfolding pad_leaves reduce
  root_of [] = err zero_chunks
  root_of (leaf ∷ []) = ok leaf
  root_of (a ∷ b ∷ rest) = let level = pad_leaves (a ∷ b ∷ rest) in reduce (length level) level

  -- The leaves: each chunk hash decoded and hashed. `i` counts the chunks before.
  unfoldable pub decode_leaves : ℕ → List String → Result MerkleError (List Bytes)
  decode_leaves i [] = ok []
  decode_leaves i (h ∷ hs) =
      let rest = decode_leaves (i + 1) hs in
      elim (c.decode_string h) [
        | none ↦ err (bad_chunk_hash i)
        | some raw ↦ rest >>= λ leaves. ok (c.sha3_512 raw ∷ leaves)
      ]

  unfoldable pub tree_from_chunk_hashes : List String → Result MerkleError String
  unfolding decode_leaves root_of
  tree_from_chunk_hashes [] = err zero_chunks
  tree_from_chunk_hashes (h ∷ hs) = do
    leaves ← decode_leaves 0 (h ∷ hs)
    root ← root_of leaves
    ok (c.encode_to_string root)

  -- The loop of `computeMerkleProof`: the sibling on each level, then its parent level.
  unfoldable pub sibling_loop : ℕ → List Bytes → ℕ → Result MerkleError (List String)
  sibling_loop fuel [] idx = ok []
  sibling_loop fuel (a ∷ []) idx = ok []
  sibling_loop zero (a ∷ b ∷ rest) idx = err out_of_fuel
  sibling_loop (suc fuel) (a ∷ b ∷ rest) idx =
      let level = a ∷ b ∷ rest in
      or_panic (get_elem? level (if idx % 2 == 0 then idx + 1 else idx - 1)) >>= λ sibling.
      elim (pair_level level) [
        | none ↦ err panic
        | some next ↦
            sibling_loop fuel next (idx / 2) >>= λ above. ok (c.encode_to_string sibling ∷ above)
      ]

  unfoldable pub compute_merkle_proof : List Bytes → ℕ → Result MerkleError (List String)
  unfolding pad_leaves sibling_loop
  compute_merkle_proof leaves leaf_index =
      if leb (length leaves) 1
      then ok []
      else (let level = pad_leaves leaves in sibling_loop (length level) level leaf_index)
