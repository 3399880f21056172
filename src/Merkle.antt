-- ===== src/Merkle.antt =====
-- store/merkle.go, api/challenge_helpers.go and api/subchunk_helpers.go: Merkle trees over the
-- chunks of an object and over the blocks of a chunk. The hashes and encodings are parameters.
pub mod Codec
pub mod Tree
pub mod Pow2
pub mod Perfect
pub mod Proof
pub mod Batch
pub mod Stream
pub mod StreamLaws
pub mod SubChunk
pub mod Chunks
