-- ===== src/Store/Integrity.antt =====
-- How an upload of store/stream.go can end, and what it leaves.
use mathlib.Core.List.{flatten}
use text.Mathlib.TextPositions.{eq_refl}
use obsideo_provider.Base.{
  ℕ, ◌≡◌, refl, ap, ◌⊎◌, inl, inr, List, String, arith, str_eq, eq_iff, length, Result, ok, err,
  Bool-cases,
}
use obsideo_provider.Base.Time.{Time}
use obsideo_provider.Base.Dir.{insert, lookup-insert}
use obsideo_provider.Merkle.Codec.{Bytes, Codec, CodecLaws}
use obsideo_provider.Merkle.Tree.{MerkleError}
use obsideo_provider.Merkle.Batch.{build_merkle_tree}
use obsideo_provider.Merkle.Stream.{new_tree_builder, write_all, finish}
use obsideo_provider.Store.Disk.{Disk, parsed}
use obsideo_provider.Store.Objects.{
  StreamFault, no_fault, create_fails, copy_fails, rename_fails, StreamError, merkle_mismatch,
  finalize_failed, io_failed, commit, settle, put_stream,
}
use obsideo_provider.Store.Addressed.{
  HasRoot, index_of, IsAddressed, IsStored, put_stream_cases, Commits, commit-Commits, aborted,
  half, done, settle-IsAddressed,
}

-- The disk with another index for this name, and nothing else changed.
abbrev pub only_indexed : String → List String → Disk → Disk
only_indexed name hashes disk = record disk {
  index = insert name (parsed (index_of hashes)) disk.index;
}

-- How an upload can end: nothing changed; only the index written; stored.
abbrev Outcome : Codec → Time → String → Bytes → Disk → Result StreamError ℕ × Disk → Type 0
Outcome c now expected bytes disk r =
    ((e : StreamError) × (r ≡ (err e, disk)))
    ⊎ ((hashes : List String) × HasRoot c bytes expected hashes
        × (r ≡ (err (io_failed rename_fails), only_indexed expected hashes disk)))
    ⊎ ((d : Disk) × IsStored c now expected bytes d × (r ≡ (ok (length bytes), d)))

module _ (c : Codec) (now : Time) (expected : String) (bytes : Bytes) (disk : Disk) where
  commit-Outcome :
      (fault : StreamFault) (hashes : List String)
      → HasRoot c bytes expected hashes
      → (r : Result StreamError ℕ × Disk) → Commits fault now expected bytes hashes disk r
      → Outcome c now expected bytes disk r
  commit-Outcome fault hashes right r (aborted e) = inl (io_failed fault, e)
  commit-Outcome fault hashes right r (half f e) = inr (inl (hashes, right, rw (← f) e))
  commit-Outcome fault hashes right r (done e) = inr (
      inr (
        _,
        record {
          hashes = hashes;
          has_root = right;
          object = simp (lookup-insert, eq_refl);
          index = simp (lookup-insert, eq_refl);
        },
        e,
      ))

  settle-Outcome :
      (fault : StreamFault) (tree : Result MerkleError (String × List String))
      → build_merkle_tree c bytes ≡ tree
      → Outcome c now expected bytes disk (settle fault now expected bytes tree disk)
  unfolding settle
  settle-Outcome fault (err e) t = inl (finalize_failed e, refl)
  settle-Outcome fault (ok (root, hashes)) t = elim (Bool-cases (str_eq root expected)) [
    | inr other ↦ rw other (inl (merkle_mismatch, refl))
    | inl same ↦ rw same (
        commit-Outcome fault hashes (rw t (ground (arith, eq_iff root expected))) _
          (commit-Commits fault now expected bytes hashes disk))
  ]

module _ (c : Codec) (laws : CodecLaws c) (fault : StreamFault) (now : Time) (expected : String)
    (pieces : List Bytes) (disk : Disk) where
  -- Whatever bytes arrive, under whatever name, in whatever pieces and with whatever fault of the
  -- file system: a store in which every object and index belongs to its name stays one.
  pub put_stream-IsAddressed :
      IsAddressed c disk → IsAddressed c (put_stream c fault now expected pieces disk).1
  put_stream-IsAddressed valid = elim (put_stream_cases c laws fault now expected pieces disk) [
    | inl e ↦ rw e.1 valid
    | inr e ↦ rw e (settle-IsAddressed c fault now expected (flatten pieces) disk valid _ refl)
  ]

  put_stream-Outcome :
      Outcome c now expected (flatten pieces) disk (put_stream c fault now expected pieces disk)
  put_stream-Outcome = elim (put_stream_cases c laws fault now expected pieces disk) [
    | inl e ↦ inl (io_failed fault, e.1)
    | inr e ↦ rw e (settle-Outcome c now expected (flatten pieces) disk fault _ refl)
  ]

  -- A `put_stream` that reports a size has stored exactly the bytes that came, they have the expected
  -- root, the index lists their chunk hashes, and the size is their number.
  pub put_stream-IsStored :
      (n : ℕ)
      → (put_stream c fault now expected pieces disk).0 ≡ ok n
      → IsStored c now expected (flatten pieces) (put_stream c fault now expected pieces disk).1
        × (n ≡ length (flatten pieces))
  put_stream-IsStored n e = elim put_stream-Outcome [
    | inl (_, p) ↦ cc (ap (λ r. r.0) p)
    | inr (inl (_, _, p)) ↦ cc (ap (λ r. r.0) p)
    | inr (inr (d, stored, p)) ↦ (rw p stored, ground (arith, ap (λ r. r.0) p))
  ]

  -- A `put_stream` that reports an error leaves the disk as it was, unless the last step, the rename, is
  -- what failed: then the index of the bytes that came is written under the name, which is their root,
  -- and nothing else is changed.
  pub put_stream_error :
      (e : StreamError)
      → (put_stream c fault now expected pieces disk).0 ≡ err e
      → ((put_stream c fault now expected pieces disk).1 ≡ disk)
        ⊎ ((e ≡ io_failed rename_fails)
            × ((hashes : List String) × HasRoot c (flatten pieces) expected hashes
                × ((put_stream c fault now expected pieces disk).1
                    ≡ only_indexed expected hashes disk)))
  put_stream_error e h = elim put_stream-Outcome [
    | inl (_, p) ↦ inl (rw p)
    | inr (inl (hashes, right, p)) ↦ inr (cc (ap (λ r. r.0) p), (hashes, right, ap (λ r. r.1) p))
    | inr (inr (_, _, p)) ↦ cc (ap (λ r. r.0) p)
  ]

  put_stream-ok :
      (hashes : List String)
      → fault ≡ no_fault
      → HasRoot c (flatten pieces) expected hashes
      → (put_stream c fault now expected pieces disk).0 ≡ ok (length (flatten pieces))
  put_stream-ok hashes f right =
      rw f (elim (put_stream_cases c laws no_fault now expected pieces disk) [
        | inl e ↦ absurd e.0
        | inr e ↦ rw (e, right) (unfold settle commit in simp eq_refl)
      ])

  -- When no call fails, bytes with the expected root are stored under it with their index, and their
  -- number is reported.
  pub put_stream_completes :
      (hashes : List String)
      → fault ≡ no_fault
      → HasRoot c (flatten pieces) expected hashes
      → IsStored c now expected (flatten pieces) (put_stream c fault now expected pieces disk).1
        × ((put_stream c fault now expected pieces disk).0 ≡ ok (length (flatten pieces)))
  put_stream_completes hashes f right =
      let reported = put_stream-ok hashes f right in
      ((put_stream-IsStored (length (flatten pieces)) reported).0, reported)

-- An upload touches no record but the index.
commit-ownership :
    (fault : StreamFault) (now : Time) (root : String) (bytes : Bytes) (hashes : List String)
    (disk : Disk)
    → (commit fault now root bytes hashes disk).1.ownership ≡ disk.ownership
unfolding commit
commit-ownership no_fault now root bytes hashes disk = refl
commit-ownership _ now root bytes hashes disk = refl

settle-ownership :
    (fault : StreamFault) (now : Time) (root : String) (bytes : Bytes)
    (tree : Result MerkleError (String × List String)) (disk : Disk)
    → (settle fault now root bytes tree disk).1.ownership ≡ disk.ownership
unfolding settle
settle-ownership fault now root bytes (err e) disk = refl
settle-ownership fault now root bytes (ok (r, hashes)) disk =
    ground (arith, commit-ownership fault now root bytes hashes disk)

pub put_stream-ownership :
    (c : Codec) (fault : StreamFault) (now : Time) (expected : String) (pieces : List Bytes)
    (disk : Disk)
    → (put_stream c fault now expected pieces disk).1.ownership ≡ disk.ownership
unfolding put_stream
put_stream-ownership c create_fails now expected pieces disk = refl
put_stream-ownership c copy_fails now expected pieces disk = refl
put_stream-ownership c fault now expected pieces disk =
    settle-ownership fault now expected (flatten pieces)
      (finish c (write_all c new_tree_builder pieces)) disk
