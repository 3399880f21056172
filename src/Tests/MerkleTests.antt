-- ===== src/Tests/MerkleTests.antt =====
-- Trees over small objects.
use mathlib.Core.List.{flatten}
use obsideo_provider.Base.{◌≡◌, refl, List, [], ◌∷◌, get_elem?, some}
use obsideo_provider.Merkle.Codec.{Bytes}
use obsideo_provider.Merkle.Batch.{build_merkle_tree}
use obsideo_provider.Merkle.Stream.{new_tree_builder, write_all, finish}
use obsideo_provider.Merkle.StreamLaws.{stream-eq-batch}
use obsideo_provider.Merkle.SubChunk.{split_sub_chunk_blocks, sub_chunk_block_count, block_loop}
use obsideo_provider.Tests.Toy.{toy_codec, toy_laws}

abbrev pieces : List Bytes
pieces = (1 ∷ 2 ∷ []) ∷ [] ∷ (3 ∷ []) ∷ []

stream-eq-batch_example :
    finish toy_codec (write_all toy_codec new_tree_builder pieces)
    ≡ build_merkle_tree toy_codec (flatten pieces)
stream-eq-batch_example = stream-eq-batch toy_codec toy_laws pieces

abbrev chunk : Bytes
chunk = 5 ∷ 6 ∷ 7 ∷ []

first_block : get_elem? (split_sub_chunk_blocks chunk) 0 ≡ some chunk
unfolding split_sub_chunk_blocks sub_chunk_block_count block_loop
first_block = refl
