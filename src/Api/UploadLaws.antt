-- ===== src/Api/UploadLaws.antt =====
-- What an upload leaves, by the status of its response.
use mathlib.Core.List.{flatten}
use obsideo_provider.Base.{
  ℕ, ◌≡◌, ◌≢◌, ◌⊎◌, inl, inr, refl, sym, ap, ◌∙◌, some, String, true, ◌||◌, arith, Result, ok, err,
  Result-cases, Bool-cases,
}
use obsideo_provider.Base.Dir.{lookup}
use obsideo_provider.Merkle.Codec.{CodecLaws}
use obsideo_provider.Store.Disk.{Disk, File, Ownership}
use obsideo_provider.Store.Objects.{put_stream, StreamError, merkle_mismatch}
use obsideo_provider.Store.Addressed.{IsAddressed, IsStored}
use obsideo_provider.Store.Integrity.{
  put_stream-IsAddressed, put_stream-IsStored, put_stream_error, put_stream-ownership,
}
use obsideo_provider.Api.Tokens.{Claims, authorize}
use obsideo_provider.Api.OwnershipLaws.{
  OnlyOwnership-IsStored, OnlyOwnership-IsAddressed, record_ownership-OnlyOwnership,
  record_ownership_status,
}
use obsideo_provider.Api.TokenLaws.{Passes, authorize-Passes, authorize_status}
use obsideo_provider.Api.Upload.{Server, Upload, record_ownership, store_upload, handle_upload}

module _ (s : Server) (u : Upload) (claims : Claims) (disk : Disk) where
  abbrev pub streamed : Result StreamError ℕ × Disk
  streamed = put_stream s.codec u.fault u.now u.merkle u.body disk

  -- The ways through the rest of the handler: a refusal for the wrong root, an error, or the bytes
  -- stored and the owner recorded.
  pub store_upload_cases :
      ((streamed.0 ≡ err merkle_mismatch) × (store_upload s u claims disk ≡ (422, streamed.1)))
      ⊎ ((e : StreamError) × (streamed.0 ≡ err e)
          × (store_upload s u claims disk ≡ (500, streamed.1)))
      ⊎ ((n : ℕ) × (streamed.0 ≡ ok n)
          × (store_upload s u claims disk ≡ record_ownership u claims streamed.1))
  unfolding store_upload
  store_upload_cases = elim (Result-cases streamed.0) [
    | inl (n, e) ↦ inr (inr (n, e, ground arith))
    | inr (merkle_mismatch, e) ↦ inl (e, ground arith)
    | inr (e', e) ↦ inr (inl (e', e, ground arith))
  ]

module _ (s : Server) (u : Upload) (claims : Claims) (disk : Disk) (laws : CodecLaws s.codec) where
  store_upload-IsStored :
      (store_upload s u claims disk).0 ≡ 200
      → IsStored s.codec u.now u.merkle (flatten u.body) (store_upload s u claims disk).1
  store_upload-IsStored h = elim (store_upload_cases s u claims disk) [
    | inl (e, p) ↦ absurd (omega (arith, ap (λ r. r.0) p))
    | inr (inl (e, r, p)) ↦ absurd (omega (arith, ap (λ r. r.0) p))
    | inr (inr (n, e, p)) ↦ rw p (
        OnlyOwnership-IsStored _ _ _ _ _ _
          (record_ownership-OnlyOwnership u claims (streamed s u claims disk).1)
          (put_stream-IsStored s.codec laws u.fault u.now u.merkle u.body disk n e).0)
  ]

  store_upload_refused :
      (store_upload s u claims disk).0 ≢ 200
      → (store_upload s u claims disk).0 ≢ 500
      → (store_upload s u claims disk).1 ≡ disk
  store_upload_refused h g = elim (store_upload_cases s u claims disk) [
    | inl (e, p) ↦
        rw p
          (elim (put_stream_error s.codec laws u.fault u.now u.merkle u.body disk merkle_mismatch
            e) [ inl same ↦ same | inr (renamed, _) ↦ cc renamed ])
    | inr (inl (e, r, p)) ↦ absurd (g (ap (λ r. r.0) p))
    | inr (inr (n, e, p)) ↦ elim (record_ownership_status u claims (streamed s u claims disk).1) [
      | inl fine ↦ absurd (h (ap (λ r. r.0) p ∙ fine))
      | inr failed ↦ absurd (g (ap (λ r. r.0) p ∙ failed))
    ]
  ]

  pub store_upload-IsAddressed :
      IsAddressed s.codec disk → IsAddressed s.codec (store_upload s u claims disk).1
  store_upload-IsAddressed valid =
      let after = put_stream-IsAddressed s.codec laws u.fault u.now u.merkle u.body disk valid in
      elim (store_upload_cases s u claims disk) [
        | inl (e, p) ↦ rw p after
        | inr (inl (e, r, p)) ↦ rw p after
        | inr (inr (n, e, p)) ↦ rw p (
            OnlyOwnership-IsAddressed _ _ _
              (record_ownership-OnlyOwnership u claims (streamed s u claims disk).1) after)
      ]

module _ (s : Server) (u : Upload) (claims : Claims) (disk : Disk) where
  store_upload-ownership :
      (k : String) (o : File Ownership)
      → lookup k disk.ownership ≡ some o
      → lookup k (store_upload s u claims disk).1.ownership ≡ some o
  store_upload-ownership k o h =
      let same = put_stream-ownership s.codec u.fault u.now u.merkle u.body disk in
      let after : lookup k (streamed s u claims disk).1.ownership ≡ some o = rw same h in
      elim (store_upload_cases s u claims disk) [
        | inl (e, p) ↦ rw p after
        | inr (inl (e, r, p)) ↦ rw p after
        | inr (inr (n, e, p)) ↦
            rw p (
              (record_ownership-OnlyOwnership u claims (streamed s u claims disk).1).kept k o after)
      ]

-- What is known of an upload that was answered with 200.
pub record IsAccepted (s : Server) (u : Upload) (disk : Disk) : Type 0 where
  pub claims : Claims
  pub passes : Passes s.tokens s.keys u.unix_now "upload" u.merkle u.bearer claims
  pub admitted : (claims.contracted || s.accept_uncontracted_data) ≡ true
  pub stored : IsStored s.codec u.now u.merkle (flatten u.body) disk

module _ (s : Server) (u : Upload) (disk : Disk) where
  pub handle_upload_cases :
      ((st : ℕ) × (handle_upload s u disk ≡ (st, disk)) × (st ≢ 200))
      ⊎ ((claims : Claims) × Passes s.tokens s.keys u.unix_now "upload" u.merkle u.bearer claims
          × ((claims.contracted || s.accept_uncontracted_data) ≡ true)
          × (handle_upload s u disk ≡ store_upload s u claims disk))
  unfolding handle_upload
  handle_upload_cases =
      elim (Result-cases (authorize s.tokens s.keys u.unix_now "upload" u.merkle u.bearer)) [
        | inr (st, e) ↦ inl (st, rw (e, handle_upload), authorize_status _ _ _ _ _ _ st e)
        | inl (claims, e) ↦ elim (Bool-cases (claims.contracted || s.accept_uncontracted_data)) [
          | inl fine ↦ inr (claims, authorize-Passes _ _ _ _ _ _ claims e, fine, ground arith)
          | inr unpaid ↦ inl (403, ground arith, omega arith)
        ]
      ]

  -- An upload answered with 200 had a token, signed by one of the keys, unexpired, for an upload of
  -- this object; its data was contracted or the provider takes data that is not; and the bytes of the
  -- body are stored under their own root, which is the name in the request, with their index.
  pub handle_upload-IsAccepted :
      (laws : CodecLaws s.codec)
      → (handle_upload s u disk).0 ≡ 200
      → IsAccepted s u (handle_upload s u disk).1
  handle_upload-IsAccepted laws h = elim handle_upload_cases [
    | inl (st, p, ne) ↦ absurd (ne (sym (ap (λ r. r.0) p) ∙ h))
    | inr (claims, passes, fine, p) ↦
        let done : (store_upload s u claims disk).0 ≡ 200 = sym (ap (λ r. r.0) p) ∙ h in
        record {
          claims = claims;
          passes = passes;
          admitted = fine;
          stored = rw p (store_upload-IsStored s u claims disk laws done);
        }
  ]

  -- A response other than 200 and 500 leaves the disk as it was.
  pub handle_upload_refused :
      (laws : CodecLaws s.codec)
      → (handle_upload s u disk).0 ≢ 200
      → (handle_upload s u disk).0 ≢ 500
      → (handle_upload s u disk).1 ≡ disk
  handle_upload_refused laws h g = elim handle_upload_cases [
    | inl (st, p, ne) ↦ rw p refl
    | inr (claims, passes, fine, p) ↦ rw p (
        store_upload_refused s u claims disk laws (λ e. h (ap (λ r. r.0) p ∙ e))
          (λ e. g (ap (λ r. r.0) p ∙ e)))
  ]

  -- Every upload, however it is answered, keeps the store addressed by content.
  pub handle_upload-IsAddressed :
      (laws : CodecLaws s.codec)
      → IsAddressed s.codec disk
      → IsAddressed s.codec (handle_upload s u disk).1
  handle_upload-IsAddressed laws valid = elim handle_upload_cases [
    | inl (st, p, ne) ↦ rw p valid
    | inr (claims, passes, fine, p) ↦ rw p (store_upload-IsAddressed s u claims disk laws valid)
  ]

  -- No upload changes an ownership record that is there.
  pub handle_upload-ownership :
      (k : String) (o : File Ownership)
      → lookup k disk.ownership ≡ some o
      → lookup k (handle_upload s u disk).1.ownership ≡ some o
  handle_upload-ownership k o h = elim handle_upload_cases [
    | inl (st, p, ne) ↦ rw p h
    | inr (claims, passes, fine, p) ↦ rw p (store_upload-ownership s u claims disk k o h)
  ]
