-- ===== src/Tests/StoreTests.antt =====
-- Objects put into an empty store.
use mathlib.Core.List.{flatten}
use obsideo_provider.Base.{◌≡◌, refl, ◌⊎◌, List, [], ◌∷◌, String, ok, err, length}
use obsideo_provider.Base.Dir.{lookup}
use obsideo_provider.Merkle.Codec.{Bytes}
use obsideo_provider.Merkle.Tree.{tree_from_chunk_hashes}
use obsideo_provider.Merkle.Batch.{build_merkle_tree, chunk_hash_loop, chunk_hash_text}
use obsideo_provider.Merkle.Stream.{new_tree_builder, write_all, write, write_loop, finish}
use obsideo_provider.Store.Disk.{empty_disk}
use obsideo_provider.Store.Objects.{put_stream, no_fault, rename_fails, io_failed, settle, commit}
use obsideo_provider.Store.Addressed.{HasRoot, IsAddressed, IsStored}
use obsideo_provider.Store.Integrity.{
  only_indexed, put_stream-IsAddressed, put_stream-IsStored, put_stream_error, put_stream_completes,
}
use obsideo_provider.Tests.Toy.{toy_codec, toy_laws}

abbrev pub pieces : List Bytes
pieces = (1 ∷ []) ∷ (2 ∷ []) ∷ []

abbrev pub root : String
root = "aaaaaaaaaaab"

abbrev hashes : List String
hashes = "aab" ∷ []

pieces-HasRoot : HasRoot toy_codec (flatten pieces) root hashes
unfolding build_merkle_tree tree_from_chunk_hashes chunk_hash_loop chunk_hash_text flatten
pieces-HasRoot = refl

pub empty_disk-IsAddressed : IsAddressed toy_codec empty_disk
unfolding lookup
empty_disk-IsAddressed = record { live = λ k f e. cc; held = λ k f e. cc; indexed = λ k idx e. cc }

pub stored : (put_stream toy_codec no_fault 7 root pieces empty_disk).0 ≡ ok 2
unfolding flatten
stored =
    (put_stream_completes toy_codec toy_laws no_fault 7 root pieces empty_disk hashes refl
      pieces-HasRoot).1

unrenamed :
    (put_stream toy_codec rename_fails 7 root pieces empty_disk).0 ≡ err (io_failed rename_fails)
unfolding put_stream settle commit finish write_all write write_loop tree_from_chunk_hashes
    new_tree_builder
unrenamed = refl

put_stream-IsAddressed_example :
    IsAddressed toy_codec (put_stream toy_codec rename_fails 7 root pieces empty_disk).1
put_stream-IsAddressed_example =
    put_stream-IsAddressed toy_codec toy_laws rename_fails 7 root pieces empty_disk
      empty_disk-IsAddressed

put_stream-IsStored_example :
    IsStored toy_codec 7 root
      (flatten pieces)
      (put_stream toy_codec no_fault 7 root pieces empty_disk).1
    × (2 ≡ length (flatten pieces))
put_stream-IsStored_example =
    put_stream-IsStored toy_codec toy_laws no_fault 7 root pieces empty_disk 2 stored

put_stream_error_example :
    ((put_stream toy_codec rename_fails 7 root pieces empty_disk).1 ≡ empty_disk)
    ⊎ ((io_failed rename_fails ≡ io_failed rename_fails)
        × ((hashes' : List String) × HasRoot toy_codec (flatten pieces) root hashes'
            × ((put_stream toy_codec rename_fails 7 root pieces empty_disk).1
                ≡ only_indexed root hashes' empty_disk)))
put_stream_error_example =
    put_stream_error toy_codec toy_laws rename_fails 7 root pieces empty_disk
      (io_failed rename_fails) unrenamed

put_stream_completes_example :
    IsStored toy_codec 7 root
      (flatten pieces)
      (put_stream toy_codec no_fault 7 root pieces empty_disk).1
    × ((put_stream toy_codec no_fault 7 root pieces empty_disk).0 ≡ ok (length (flatten pieces)))
put_stream_completes_example =
    put_stream_completes toy_codec toy_laws no_fault 7 root pieces empty_disk hashes refl
      pieces-HasRoot
