-- ===== src/Store/Addressed.antt =====
-- When every object and index of a store belongs to its name, and what PutStream of store/stream.go can
-- write.
use mathlib.Core.List.{flatten}
use obsideo_provider.Base.{
  ℕ, ◌≡◌, refl, ap, ◌⊎◌, inl, inr, some, List, String, arith, str_eq, eq_iff, length, Result, ok,
  err, Bool-cases,
}
use obsideo_provider.Base.Time.{Time}
use obsideo_provider.Base.Dir.{lookup, insert, lookup-insert}
use obsideo_provider.Merkle.Codec.{Bytes, Codec, CodecLaws}
use obsideo_provider.Merkle.Tree.{MerkleError}
use obsideo_provider.Merkle.Batch.{Index, default_chunk_size, build_merkle_tree}
use obsideo_provider.Merkle.StreamLaws.{stream-eq-batch}
use obsideo_provider.Store.Disk.{Disk, ObjectFile, parsed}
use obsideo_provider.Store.Objects.{
  StreamFault, no_fault, create_fails, copy_fails, sync_fails, close_fails, index_fails,
  rename_fails, StreamError, io_failed, commit, settle, put_stream,
}

-- The bytes have this root, over these chunk hashes.
abbrev pub HasRoot : Codec → Bytes → String → List String → Type 0
HasRoot c bytes root hashes = build_merkle_tree c bytes ≡ ok (root, hashes)

abbrev pub index_of : List String → Index
index_of hashes = record {
  chunk_size = default_chunk_size;
  total_chunks = length hashes;
  chunk_hashes = hashes;
}

-- Every object, live or quarantined, has its name for its root, and every index that can be read
-- lists the chunk hashes of bytes with that root.
pub record IsAddressed (c : Codec) (disk : Disk) : Type 0 where
  pub live :
      (k : String) (f : ObjectFile)
      → lookup k disk.objects ≡ some f
      → (hashes : List String) × HasRoot c f.contents k hashes
  pub held :
      (k : String) (f : ObjectFile)
      → lookup k disk.quarantine ≡ some f
      → (hashes : List String) × HasRoot c f.contents k hashes
  pub indexed :
      (k : String) (idx : Index)
      → lookup k disk.index ≡ some (parsed idx)
      → (bytes : Bytes) × (hashes : List String) × HasRoot c bytes k hashes
        × (idx ≡ index_of hashes)

-- What a successful upload leaves.
pub record IsStored (c : Codec) (now : Time) (root : String) (bytes : Bytes) (disk : Disk)
    : Type 0 where
  pub hashes : List String
  pub has_root : HasRoot c bytes root hashes
  pub object : lookup root disk.objects ≡ some (record { contents = bytes; mtime = now })
  pub index : lookup root disk.index ≡ some (parsed (index_of hashes))

-- The fault strikes before the root is known.
abbrev pub IsEarly : StreamFault → Type 0
IsEarly create_fails = Unit {0}
IsEarly copy_fails = Unit {0}
IsEarly _ = ⊥

pub put_stream_cases :
    (c : Codec) (laws : CodecLaws c) (fault : StreamFault) (now : Time) (expected : String)
    (pieces : List Bytes) (disk : Disk)
    → (IsEarly fault
        × (put_stream c fault now expected pieces disk ≡ (err (io_failed fault), disk)))
      ⊎ (put_stream c fault now expected pieces disk
          ≡ settle fault now expected (flatten pieces) (build_merkle_tree c (flatten pieces)) disk)
unfolding put_stream
put_stream_cases c laws create_fails now expected pieces disk = inl (tt, refl)
put_stream_cases c laws copy_fails now expected pieces disk = inl (tt, refl)
put_stream_cases c laws fault now expected pieces disk = inr (
    ap (λ r. settle fault now expected (flatten pieces) r disk)
      (unfold settle in stream-eq-batch c laws pieces))

-- The outcome of the last steps, for the right root.
pub data Commits (fault : StreamFault) (now : Time) (root : String) (bytes : Bytes)
    (hashes : List String) (disk : Disk) : Result StreamError ℕ × Disk → Type 0 where
  aborted :
      {r : Result StreamError ℕ × Disk}
      → r ≡ (err (io_failed fault), disk)
      → Commits fault now root bytes hashes disk r
  half :
      {r : Result StreamError ℕ × Disk}
      → fault ≡ rename_fails
      → r ≡ (
        err (io_failed fault),
        record disk { index = insert root (parsed (index_of hashes)) disk.index },
      )
      → Commits fault now root bytes hashes disk r
  done :
      {r : Result StreamError ℕ × Disk}
      → r ≡ (
        ok (length bytes),
        record disk {
          index = insert root (parsed (index_of hashes)) disk.index;
          objects = insert root (record { contents = bytes; mtime = now }) disk.objects;
        },
      )
      → Commits fault now root bytes hashes disk r

pub commit-Commits :
    (fault : StreamFault) (now : Time) (root : String) (bytes : Bytes) (hashes : List String)
    (disk : Disk)
    → Commits fault now root bytes hashes disk (commit fault now root bytes hashes disk)
unfolding commit
commit-Commits no_fault now root bytes hashes disk = done refl
commit-Commits create_fails now root bytes hashes disk = done refl
commit-Commits copy_fails now root bytes hashes disk = done refl
commit-Commits sync_fails now root bytes hashes disk = aborted refl
commit-Commits close_fails now root bytes hashes disk = aborted refl
commit-Commits index_fails now root bytes hashes disk = aborted refl
commit-Commits rename_fails now root bytes hashes disk = half refl refl

module _ (c : Codec) (disk : Disk) (valid : IsAddressed c disk) (now : Time) (root : String)
    (bytes : Bytes) (hashes : List String) (right : HasRoot c bytes root hashes) where
  abbrev indexed_disk : Disk
  indexed_disk = record disk { index = insert root (parsed (index_of hashes)) disk.index }

  indexed_disk-IsAddressed : IsAddressed c indexed_disk
  indexed_disk-IsAddressed = record {
    live = valid.live;
    held = valid.held;
    indexed = λ k idx e. elim (Bool-cases (str_eq root k)) [
      | inl same ↦
          let here = (eq_iff root k).0 same in
          (
            bytes,
            hashes,
            rw (← here) right,
            ground (arith, lookup-insert root k (parsed (index_of hashes)) disk.index),
          )
      | inr other ↦
          valid.indexed k idx
            (ground (arith, lookup-insert root k (parsed (index_of hashes)) disk.index))
    ];
  }

  abbrev stored_disk : Disk
  stored_disk = record indexed_disk {
    objects = insert root (record { contents = bytes; mtime = now }) disk.objects;
  }

  stored_disk-IsAddressed : IsAddressed c stored_disk
  stored_disk-IsAddressed = record {
    live = λ k f e.
        let law = lookup-insert root k (record { contents = bytes; mtime = now }) disk.objects in
        elim (Bool-cases (str_eq root k)) [
          | inl same ↦
              let here = (eq_iff root k).0 same in
              let there : f.contents ≡ bytes = ground (arith, law) in
              (hashes, rw (← here, there) right)
          | inr other ↦ valid.live k f (ground (arith, law))
        ];
    held = valid.held;
    indexed = indexed_disk-IsAddressed.indexed;
  }

module _ (c : Codec) (fault : StreamFault) (now : Time) (expected : String) (bytes : Bytes)
    (disk : Disk) (valid : IsAddressed c disk) where
  pub settle-IsAddressed :
      (tree : Result MerkleError (String × List String))
      → build_merkle_tree c bytes ≡ tree
      → IsAddressed c (settle fault now expected bytes tree disk).1
  unfolding settle
  settle-IsAddressed (err e) t = valid
  settle-IsAddressed (ok (root, hashes)) t = elim (Bool-cases (str_eq root expected)) [
    | inr other ↦ rw other valid
    | inl same ↦
        let right : HasRoot c bytes expected hashes = rw t (ground (arith, eq_iff root expected)) in
        rw same (after _ (commit-Commits fault now expected bytes hashes disk) right)
  ]
    where
      after :
          (r : Result StreamError ℕ × Disk)
          → Commits fault now expected bytes hashes disk r
          → HasRoot c bytes expected hashes
          → IsAddressed c r.1
      after r (aborted e) right = rw e valid
      after r (half f e) right =
          rw e (indexed_disk-IsAddressed c disk valid now expected bytes hashes right)
      after r (done e) right =
          rw e (stored_disk-IsAddressed c disk valid now expected bytes hashes right)
