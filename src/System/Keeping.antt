-- ===== src/System/Keeping.antt =====
-- The requests and timers that lose nothing: what is on the disk under a name before them, live or in
-- quarantine, is there after them.
use obsideo_provider.Base.{
  ℕ, ◌≡◌, refl, ap, inl, inr, List, String, Bool, true, false, arith, Result, ok, err, str_eq,
  Bool-cases, Option-cases, Result-cases,
}
use mathlib.Core.List.{flatten}
use obsideo_provider.Base.Time.{Time}
use obsideo_provider.Base.Dir.{lookup, has, lookup-insert, lookup-remove}
use obsideo_provider.Merkle.Codec.{Bytes, Codec}
use obsideo_provider.Merkle.Tree.{MerkleError}
use obsideo_provider.Merkle.Stream.{new_tree_builder, write_all, finish}
use obsideo_provider.Store.Disk.{Disk}
use obsideo_provider.Store.Records.{FileKind, object_file, update_coverage, delete}
use obsideo_provider.Store.Objects.{
  StreamFault, create_fails, copy_fails, sync_fails, close_fails, index_fails, rename_fails,
  is_hex_name, commit, settle, put_stream,
}
use obsideo_provider.Store.Staging.{SweepFault, sweep_stale_object_temps}
use obsideo_provider.Store.StagingLaws.{sweep_stale_object_temps_keeps}
use obsideo_provider.Gc.Steps.{held, update_coverage-SameObjects}
use obsideo_provider.Gc.Relate.{IsOrder}
use obsideo_provider.Coverage.Refresher.{Coordinator, refresh}
use obsideo_provider.Coverage.Relate.{refresh-Related}
use obsideo_provider.Api.Tokens.{Claims}
use obsideo_provider.Api.OwnershipLaws.{OnlyOwnership, record_ownership-OnlyOwnership}
use obsideo_provider.Api.Upload.{Server, Upload, store_upload, handle_upload}
use obsideo_provider.Api.UploadLaws.{store_upload_cases, handle_upload_cases}
use obsideo_provider.Api.UploadLaws as UploadLaws
use obsideo_provider.Api.Chunked.{StagingCodec, handle_upload_finalize}
use obsideo_provider.Api.FinalizeLaws.{finalize_disk}
use obsideo_provider.Api.Replicate.{
  Replication, admit_replication, handle_replicate, store_replica_cases, as_upload,
}
use obsideo_provider.Api.Replicate as Replicate
use obsideo_provider.Store.Staging.{Staging}

module _ (m : String) where
  -- What was there is there.
  abbrev pub Keeps : Disk → Disk → Type 0
  Keeps after before = held m before ≡ true → held m after ≡ true

  Keeps-IsOrder : IsOrder Keeps
  Keeps-IsOrder = record { refl = λ d h. h; trans = λ c b a one two h. one (two h) }

  same_files :
      (after before : Disk)
      → after.objects ≡ before.objects
      → after.quarantine ≡ before.quarantine
      → Keeps after before
  same_files after before o q h = rw (o, q) h

  OnlyOwnership-Keeps : (after before : Disk) → OnlyOwnership after before → Keeps after before
  OnlyOwnership-Keeps after before only = same_files after before only.objects only.quarantine

  commit-Keeps :
      (fault : StreamFault) (now : Time) (root : String) (bytes : Bytes) (hashes : List String)
      (disk : Disk)
      → Keeps (commit fault now root bytes hashes disk).1 disk
  unfolding commit
  commit-Keeps sync_fails now root bytes hashes disk h = h
  commit-Keeps close_fails now root bytes hashes disk h = h
  commit-Keeps index_fails now root bytes hashes disk h = h
  commit-Keeps rename_fails now root bytes hashes disk h = h
  commit-Keeps _ now root bytes hashes disk h = grind (arith, lookup-insert)

  settle-Keeps :
      (fault : StreamFault) (now : Time) (root : String) (bytes : Bytes)
      (tree : Result MerkleError (String × List String)) (disk : Disk)
      → Keeps (settle fault now root bytes tree disk).1 disk
  unfolding settle
  settle-Keeps fault now root bytes (err e) disk h = h
  settle-Keeps fault now root bytes (ok (r, hashes)) disk h =
      ground (arith, commit-Keeps fault now root bytes hashes disk h)

  put_stream-Keeps :
      (c : Codec) (fault : StreamFault) (now : Time) (expected : String) (pieces : List Bytes)
      (disk : Disk)
      → Keeps (put_stream c fault now expected pieces disk).1 disk
  unfolding put_stream
  put_stream-Keeps c create_fails now expected pieces disk h = h
  put_stream-Keeps c copy_fails now expected pieces disk h = h
  put_stream-Keeps c fault now expected pieces disk h =
      settle-Keeps fault now expected (flatten pieces)
        (finish c (write_all c new_tree_builder pieces)) disk h

  store_upload-Keeps :
      (s : Server) (u : Upload) (claims : Claims) (disk : Disk)
      → Keeps (store_upload s u claims disk).1 disk
  store_upload-Keeps s u claims disk h =
      let after : held m (UploadLaws.streamed s u claims disk).1 ≡ true =
        put_stream-Keeps s.codec u.fault u.now u.merkle u.body disk h in
      elim (store_upload_cases s u claims disk) [
        | inl (e, p) ↦ rw p after
        | inr (inl (e, r, p)) ↦ rw p after
        | inr (inr (n, e, p)) ↦ rw p (
            OnlyOwnership-Keeps _ _
              (record_ownership-OnlyOwnership u claims (UploadLaws.streamed s u claims disk).1)
              after)
      ]

  -- An upload, however it is answered, loses nothing.
  pub handle_upload-Keeps :
      (s : Server) (u : Upload) (disk : Disk) → Keeps (handle_upload s u disk).1 disk
  handle_upload-Keeps s u disk h = elim (handle_upload_cases s u disk) [
    | inl (st, p, ne) ↦ rw p h
    | inr (claims, passes, fine, p) ↦ rw p (store_upload-Keeps s u claims disk h)
  ]

  pub handle_upload_finalize-Keeps :
      (c : StagingCodec) (reads removes : Bool) (s : Server) (u : Upload) (disk : Disk)
      (staging : Staging)
      → Keeps (handle_upload_finalize c reads removes s u disk staging).1 disk
  handle_upload_finalize-Keeps c reads removes s u disk staging h =
      elim (finalize_disk c reads removes s u disk staging) [
        | inl e ↦ rw e h
        | inr (claims, chunks, e) ↦
            rw e (store_upload-Keeps s (record u { body = chunks }) claims disk h)
      ]

  pub handle_replicate-Keeps :
      (s : Server) (r : Replication) (disk : Disk) → Keeps (handle_replicate s r disk).1 disk
  unfolding handle_replicate
  handle_replicate-Keeps s r disk h = elim (Result-cases (admit_replication s r)) [
    | inr (st, bad) ↦ rw (handle_replicate, bad) h
    | inl ((req, claims, pieces), fine) ↦
        let streamed = Replicate.streamed s r req claims pieces disk in
        let after : held m streamed.1 ≡ true =
          put_stream-Keeps s.codec r.fault r.now req.merkle_root pieces disk h in
        elim (store_replica_cases s r req claims pieces disk) [
          | inl (st, ne, p) ↦ rw (handle_replicate, fine, p) after
          | inr (n, e, p) ↦
              rw (handle_replicate, fine, p)
                (OnlyOwnership-Keeps _ _
                  (record_ownership-OnlyOwnership (as_upload r req pieces) claims streamed.1) after)
        ]
  ]

  -- A refresh of the coverage records writes no object.
  pub refresh-Keeps :
      (w : Coordinator) (size : ℕ) (disk : Disk) → Keeps (refresh w size disk).disk disk
  refresh-Keeps w size disk =
      refresh-Related Keeps Keeps-IsOrder
        (λ writes name answer now d.
          let same = update_coverage-SameObjects writes name answer now d in
          same_files (update_coverage writes name answer now d).1 d same.objects same.quarantine)
        w size disk

  -- A deletion takes no object but the one named.
  pub delete-Keeps :
      (removes : FileKind → Bool) (name : String) (disk : Disk)
      → str_eq name m ≡ false
      → Keeps (delete removes name disk) disk
  unfolding delete
  delete-Keeps removes name disk other h = elim (Bool-cases (removes object_file)) [
    | inl gone ↦ ground (arith, gone, h, lookup-remove name m disk.objects)
    | inr stays ↦ ground (arith, stays, h)
  ]

  sweep_stale_object_temps-quarantine :
      (lists : Bool) (faults : String → SweepFault) (now : Time) (max_age : ℕ) (disk : Disk)
      → (sweep_stale_object_temps lists faults now max_age disk).1.quarantine ≡ disk.quarantine
  unfolding sweep_stale_object_temps
  sweep_stale_object_temps-quarantine true faults now max_age disk = refl
  sweep_stale_object_temps-quarantine false faults now max_age disk = refl

  -- The sweep of temporary files takes no object.
  pub sweep_stale_object_temps-Keeps :
      (lists : Bool) (faults : String → SweepFault) (now : Time) (max_age : ℕ) (disk : Disk)
      → is_hex_name m ≡ true
      → Keeps (sweep_stale_object_temps lists faults now max_age disk).1 disk
  sweep_stale_object_temps-Keeps lists faults now max_age disk hex h =
      let same = sweep_stale_object_temps-quarantine lists faults now max_age disk in
      elim (Option-cases (lookup m disk.objects)) [
        | inr (file, live) ↦
            let still =
              sweep_stale_object_temps_keeps lists faults now max_age disk m file live hex in
            ground (arith, still)
        | inl missing ↦ ground (arith, missing, h, ap (has m) same)
      ]
