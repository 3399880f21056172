-- ===== src/Merkle/Stream.antt =====
-- `TreeBuilder` of store/merkle.go: the same tree, computed while the bytes arrive.
use obsideo_provider.Base.{
  ℕ, zero, suc, ◌+◌, ◌-◌, ◌*◌, ◌/◌, List, [], ◌∷◌, ◌++◌, Option, none, some, String, ltb, ◌==◌,
  if◌then◌else◌, length, take, drop, Result, err, ok, ◌>>=◌,
}
use obsideo_provider.Merkle.Codec.{Bytes, Codec}
use obsideo_provider.Merkle.Tree.{MerkleError, empty_data, tree_from_chunk_hashes}
use obsideo_provider.Merkle.Batch.{default_chunk_size}

-- `chunk_hash` holds the bytes written to the running SHA-256, `none` for nil. The scratch buffer
-- has a fixed length and carries nothing from one call to the next.
pub record TreeBuilder : Type 0 where
  pub chunk_hashes : List String
  pub chunk_hash : Option Bytes
  pub chunk_fill : ℕ
  pub total : ℕ

unfoldable pub new_tree_builder : TreeBuilder
new_tree_builder = record { chunk_hashes = []; chunk_hash = none; chunk_fill = 0; total = 0 }

abbrev pub hex_scratch_len : ℕ
hex_scratch_len = 64 * 1024

module _ (c : Codec) where
  -- The inner loop: the segment goes to the running hash in pieces of half the scratch buffer.
  unfoldable pub write_hex : ℕ → Bytes → Bytes → Bytes
  write_hex zero running seg = running
  write_hex (suc fuel) running [] = running
  write_hex (suc fuel) running (x ∷ xs) =
      let half = hex_scratch_len / 2 in
      let m = if ltb (length (x ∷ xs)) half then length (x ∷ xs) else half in
      write_hex fuel (running ++ c.hex_encode (take m (x ∷ xs))) (drop m (x ∷ xs))

  -- With a nil running hash the program would panic; the caller has just written to it.
  unfoldable pub finish_chunk : TreeBuilder → TreeBuilder
  finish_chunk b = elim b.chunk_hash [
    | none ↦ b
    | some running ↦ record b {
      chunk_hashes = b.chunk_hashes ++ c.encode_to_string (c.sha256 running) ∷ [];
      chunk_hash = none;
      chunk_fill = 0;
    }
  ]

  unfoldable pub start_chunk : TreeBuilder → Bytes
  start_chunk b = elim b.chunk_hash [
    | none ↦ c.itoa (length b.chunk_hashes)
    | some running ↦ running
  ]

  -- `take := DefaultChunkSize - b.chunkFill`, at most what is left
  unfoldable pub segment_len : TreeBuilder → Bytes → ℕ
  segment_len b p =
      let room = default_chunk_size - b.chunk_fill in if ltb (length p) room then length p else room

  -- One round of `Write`.
  unfoldable pub write_segment : TreeBuilder → Bytes → TreeBuilder
  unfolding write_hex finish_chunk start_chunk segment_len
  write_segment b p =
      let n = segment_len b p in
      let b' : TreeBuilder = record b {
        chunk_hash = some (write_hex (length p) (start_chunk b) (take n p));
        chunk_fill = b.chunk_fill + n;
        total = b.total + n;
      } in
      if b'.chunk_fill == default_chunk_size then finish_chunk b' else b'

  -- `for len(p) > 0 { … }`: each round takes a byte at least, so length p rounds are enough.
  unfoldable pub write_loop : ℕ → TreeBuilder → Bytes → TreeBuilder
  write_loop zero b p = b
  write_loop (suc fuel) b [] = b
  write_loop (suc fuel) b (x ∷ xs) =
      write_loop fuel (write_segment b (x ∷ xs)) (drop (segment_len b (x ∷ xs)) (x ∷ xs))

  unfoldable pub write : TreeBuilder → Bytes → TreeBuilder
  unfolding write_segment write_loop
  write b p = write_loop (length p) b p

  -- The writes of io.CopyBuffer, one after another.
  unfoldable pub write_all : TreeBuilder → List Bytes → TreeBuilder
  unfolding write
  write_all b [] = b
  write_all b (p ∷ ps) = write_all (write b p) ps

  unfoldable pub finish : TreeBuilder → Result MerkleError (String × List String)
  unfolding finish_chunk
  finish b =
      let b' = if ltb 0 b.chunk_fill then finish_chunk b else b in
      if b.total == 0
      then err empty_data
      else (tree_from_chunk_hashes c b'.chunk_hashes >>= λ root. ok (root, b'.chunk_hashes))
