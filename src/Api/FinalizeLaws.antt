-- ===== src/Api/FinalizeLaws.antt =====
-- `handleUploadFinalize` of api/chunked.go against the upload of the same bytes at once.
use obsideo_provider.Base.{
  ℕ, ◌<◌, ◌≡◌, refl, ap, ◌⊎◌, inl, inr, List, String, true, Bool, arith, ◌==◌, length, ok,
  Bool-cases, Result-cases, not, ◌&&◌,
}
use obsideo_provider.Base.Int.{ℤ}
use obsideo_provider.Base.Dir.{lookup}
use obsideo_provider.Merkle.Codec.{Bytes}
use obsideo_provider.Store.Disk.{Disk}
use obsideo_provider.Store.Staging.{Staging}
use obsideo_provider.Api.Tokens.{Claims, authorize}
use obsideo_provider.Api.Upload.{Server, Upload, handle_upload, store_upload}
use obsideo_provider.Api.Chunked.{StagingCodec, complete_chunks, assemble, handle_upload_finalize}
use obsideo_provider.Merkle.Codec.{CodecLaws}
use obsideo_provider.Store.Addressed.{IsAddressed}
use obsideo_provider.Api.UploadLaws.{store_upload-IsAddressed}
use obsideo_provider.Api.ChunkedLaws.{
  StagingLaws, Sent, AllSent, IsSent, send_all, send_all_complete,
}

-- The status, and the disk.
abbrev pub served : ℕ × Disk × Staging → ℕ × Disk
served r = (r.0, r.1)

-- The store's part of `assemble` is that of an upload with the chunks for its body.
assemble-store_upload :
    (removes : Bool) (s : Server) (u : Upload) (claims : Claims) (chunks : List Bytes) (disk : Disk)
    (staging : Staging)
    → served (assemble removes s u claims chunks disk staging)
      ≡ store_upload s (record u { body = chunks }) claims disk
unfolding assemble
assemble-store_upload removes s u claims chunks disk staging =
    let (st, disk') = store_upload s (record u { body = chunks }) claims disk in
    elim (Bool-cases (st == 500)) [ inl failed ↦ ground arith | inr fine ↦ ground arith ]

finalize_lem :
    (c : StagingCodec) (removes : Bool) (s : Server) (u : Upload) (chunks : List Bytes)
    (disk : Disk) (staging : Staging)
    → complete_chunks c true (lookup u.merkle staging) ≡ ok chunks
    → served (handle_upload_finalize c true removes s u disk staging)
      ≡ handle_upload s (record u { body = chunks }) disk
unfolding handle_upload_finalize handle_upload
finalize_lem c removes s u chunks disk staging h =
    elim (Result-cases (authorize s.tokens s.keys u.unix_now "upload" u.merkle u.bearer)) [
      | inr (st, bad) ↦ rw (handle_upload_finalize, handle_upload, bad) refl
      | inl (claims, fine) ↦
          elim (Bool-cases (not claims.contracted && not s.accept_uncontracted_data)) [
            | inl barred ↦ rw (handle_upload_finalize, handle_upload, fine, barred) refl
            | inr open_door ↦
                rw (handle_upload_finalize, handle_upload, fine, open_door, h)
                  (assemble-store_upload removes s u claims chunks disk staging)
          ]
    ]

-- An object uploaded in chunks is the object uploaded at once. Whatever waited in staging/ before: once
-- every chunk was sent with an accepted token, in any order and any number of times, the request to
-- finalize gives the status and the disk of a single upload whose body is the chunks in order, with the
-- same faults and the same policy; only the staged chunks are gone or, after a 500, kept.
pub handle_upload_finalize-eq-handle_upload :
    (c : StagingCodec) (text : ℕ → String) (laws : StagingLaws c text) (removes : Bool) (s : Server)
    (u : Upload) (disk : Disk) (sent_at : ℤ) (claims : Claims)
    (authorized : authorize s.tokens s.keys sent_at "upload" u.merkle u.bearer ≡ ok claims)
    (chunks : List Bytes) (sends : List Sent) (staging : Staging)
    → AllSent chunks sends
    → ((j : ℕ) → j < length chunks → IsSent j sends)
    → 0 < length chunks
    → served (
        handle_upload_finalize c true removes s u disk
          (send_all c text laws s u.merkle u.bearer sent_at claims authorized chunks sends staging))
      ≡ handle_upload s (record u { body = chunks }) disk
handle_upload_finalize-eq-handle_upload c text laws removes s u disk sent_at claims authorized
      chunks sends staging all covers nonempty =
    let staged =
      send_all c text laws s u.merkle u.bearer sent_at claims authorized chunks sends staging in
    finalize_lem c removes s u chunks disk staged (
      send_all_complete c text laws s u.merkle u.bearer sent_at claims authorized chunks sends
        staging all covers nonempty)

-- A request to finalize leaves the disk, or does to it what an upload of the chunks does.
pub finalize_disk :
    (c : StagingCodec) (reads removes : Bool) (s : Server) (u : Upload) (disk : Disk)
    (staging : Staging)
    → ((handle_upload_finalize c reads removes s u disk staging).1 ≡ disk)
      ⊎ ((claims : Claims) × (chunks : List Bytes) × ((handle_upload_finalize c reads removes s u
              disk staging).1
            ≡ (store_upload s (record u { body = chunks }) claims disk).1))
unfolding handle_upload_finalize
finalize_disk c reads removes s u disk staging =
    elim (Result-cases (authorize s.tokens s.keys u.unix_now "upload" u.merkle u.bearer)) [
      | inr (st, bad) ↦ inl (rw (handle_upload_finalize, bad) refl)
      | inl (claims, fine) ↦
          elim (Bool-cases (not claims.contracted && not s.accept_uncontracted_data)) [
            | inl barred ↦ inl (rw (handle_upload_finalize, fine, barred) refl)
            | inr open_door ↦
                elim (Result-cases (complete_chunks c reads (lookup u.merkle staging))) [
                  | inr (st, bad) ↦ inl (rw (handle_upload_finalize, fine, open_door, bad) refl)
                  | inl (chunks, whole) ↦ inr (
                    claims,
                    chunks,
                    rw (handle_upload_finalize, fine, open_door, whole)
                        (ap (λ r. r.1)
                          (assemble-store_upload removes s u claims chunks disk staging)),
                  )
                ]
          ]
    ]

-- Every request to finalize, however it is answered, keeps the store addressed by content.
pub handle_upload_finalize-IsAddressed :
    (c : StagingCodec) (reads removes : Bool) (s : Server) (u : Upload) (disk : Disk)
    (staging : Staging) (laws : CodecLaws s.codec)
    → IsAddressed s.codec disk
    → IsAddressed s.codec (handle_upload_finalize c reads removes s u disk staging).1
handle_upload_finalize-IsAddressed c reads removes s u disk staging laws valid =
    elim (finalize_disk c reads removes s u disk staging) [
      | inl e ↦ rw e valid
      | inr (claims, chunks, e) ↦
          rw e (store_upload-IsAddressed s (record u { body = chunks }) claims disk laws valid)
    ]
