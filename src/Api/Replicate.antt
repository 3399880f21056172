-- ===== src/Api/Replicate.antt =====
-- api/replicate.go: an object pulled from another provider.
use Prim.Native.String.{◌++◌}
use mathlib.Core.List.{flatten}
use obsideo_provider.Base.{
  ℕ, ◌≡◌, ◌≢◌, ◌⊎◌, inl, inr, refl, sym, ap, ◌∙◌, Option, none, some, List, String, Bool, true, not,
  ◌||◌, arith, str_eq, eq_iff, ◌==◌, if◌then◌else◌, Result, ok, err, ◌>>=◌, Result-cases,
}
use obsideo_provider.Base.Int.{ℤ}
use obsideo_provider.Base.Time.{Time}
use obsideo_provider.Merkle.Codec.{Bytes, CodecLaws}
use obsideo_provider.Store.Disk.{Disk}
use obsideo_provider.Store.Objects.{StreamFault, StreamError, merkle_mismatch, put_stream}
use obsideo_provider.Store.Addressed.{IsAddressed, IsStored}
use obsideo_provider.Store.Integrity.{put_stream-IsAddressed, put_stream-IsStored}
use obsideo_provider.Api.Status.{or_status, expect}
use obsideo_provider.Api.Tokens.{Claims, verify_token, claims_of}
use obsideo_provider.Api.TokenLaws.{IsAuthorized, verify_token-IsAuthorized}
use obsideo_provider.Api.Upload.{Server, Upload, record_ownership}
use obsideo_provider.Api.OwnershipLaws.{
  OnlyOwnership-IsStored, OnlyOwnership-IsAddressed, record_ownership-OnlyOwnership,
}

pub record ReplicateRequest : Type 0 where
  pub source_url : String
  pub merkle_root : String
  pub owner : String
  pub start : ℤ
  pub chunk_size : ℤ
  pub proof_type : ℤ
  pub upload_token : String
  pub download_token : String

-- The request (`none` if it cannot be decoded), the clock, the failures of system calls, and what a
-- GET with an Authorization header brings: nothing, or a status and the pieces of the body.
pub record Replication : Type 0 where
  pub body : Option ReplicateRequest
  pub http_get : (url authorization : String) → Option (ℕ × List Bytes)
  pub unix_now : ℤ
  pub now : Time
  pub fault : StreamFault
  pub writes_ownership : Bool
  pub chmods_ownership : Bool

abbrev pub source_address : ReplicateRequest → String
source_address req = req.source_url ++ ("/download/" ++ req.merkle_root)

-- `openSource`: only a response with status 200 is a source.
unfoldable pub open_source : Replication → ReplicateRequest → Option (List Bytes)
open_source r req = elim (r.http_get (source_address req) ("Bearer " ++ req.download_token)) [
  | none ↦ none
  | some (st, pieces) ↦ if st == 200 then some pieces else none
]

abbrev incomplete : ReplicateRequest → Bool
incomplete req = str_eq req.source_url "" || str_eq req.merkle_root "" || str_eq req.upload_token ""

-- The checks on the request, and the source.
unfoldable pub admit_replication :
    Server → Replication → Result ℕ (ReplicateRequest × Claims × List Bytes)
admit_replication s r = do
  req ← or_status r.body 400
  whole ← expect (not (incomplete req)) 400
  claims ← claims_of s.tokens s.keys r.unix_now req.upload_token
  kind ← expect (str_eq claims.type "upload") 403
  right ← expect (str_eq claims.merkle_root req.merkle_root) 403
  pieces ← or_status (open_source r req) 502
  ok (req, claims, pieces)

-- The same record of the owner as after an upload of these bytes.
abbrev pub as_upload : Replication → ReplicateRequest → List Bytes → Upload
as_upload r req pieces = record {
  merkle = req.merkle_root;
  bearer = some req.upload_token;
  body = pieces;
  unix_now = r.unix_now;
  now = r.now;
  fault = r.fault;
  writes_ownership = r.writes_ownership;
  chmods_ownership = r.chmods_ownership;
}

unfoldable pub store_replica :
    Server → Replication → ReplicateRequest → Claims → List Bytes → Disk → ℕ × Disk
store_replica s r req claims pieces disk =
    let (result, disk') = put_stream s.codec r.fault r.now req.merkle_root pieces disk in
    elim result [
      | err merkle_mismatch ↦ (502, disk')
      | err _ ↦ (500, disk')
      | ok size ↦
          let (st, disk'') = record_ownership (as_upload r req pieces) claims disk' in
          if st == 500 then (500, disk'') else (202, disk'')
    ]

-- `handleReplicate`
unfoldable pub handle_replicate : Server → Replication → Disk → ℕ × Disk
handle_replicate s r disk = elim (admit_replication s r) [
  | err st ↦ (st, disk)
  | ok (req, claims, pieces) ↦ store_replica s r req claims pieces disk
]

admit_replication_steps :
    (s : Server) (r : Replication) (req : ReplicateRequest) (claims : Claims) (pieces : List Bytes)
    → admit_replication s r ≡ ok (req, claims, pieces)
    → (r.body ≡ some req)
      × (verify_token s.tokens s.keys r.unix_now req.upload_token ≡ ok claims)
      × (str_eq claims.type "upload" ≡ true)
      × (str_eq claims.merkle_root req.merkle_root ≡ true)
      × (open_source r req ≡ some pieces)
unfolding admit_replication
admit_replication_steps s r req claims pieces h = ground arith

admit_replication_status :
    (s : Server) (r : Replication) (st : ℕ) → admit_replication s r ≡ err st → st ≢ 202
unfolding admit_replication
admit_replication_status s r st h = ground arith

open_source_lem :
    (r : Replication) (req : ReplicateRequest) (pieces : List Bytes)
    → open_source r req ≡ some pieces
    → r.http_get (source_address req) ("Bearer " ++ req.download_token) ≡ some (200, pieces)
unfolding open_source
open_source_lem r req pieces h = ground arith

module _ (s : Server) (r : Replication) (req : ReplicateRequest) (claims : Claims)
    (pieces : List Bytes) (disk : Disk) where
  abbrev pub streamed : Result StreamError ℕ × Disk
  streamed = put_stream s.codec r.fault r.now req.merkle_root pieces disk

  abbrev pub recorded : ℕ × Disk
  recorded = record_ownership (as_upload r req pieces) claims streamed.1

  -- The ways through the store's part of the handler.
  pub store_replica_cases :
      (((st : ℕ) × (st ≢ 202) × (store_replica s r req claims pieces disk ≡ (st, streamed.1))))
      ⊎ ((n : ℕ) × (streamed.0 ≡ ok n)
          × ((store_replica s r req claims pieces disk).1 ≡ recorded.1))
  unfolding store_replica
  store_replica_cases = elim (Result-cases streamed.0) [
    | inl (n, e) ↦ inr (n, e, ground arith)
    | inr (merkle_mismatch, e) ↦ inl (502, omega arith, ground arith)
    | inr (e', e) ↦ inl (500, omega arith, ground arith)
  ]

-- What is known of a replication that was answered with 202.
pub record IsReplicated (s : Server) (r : Replication) (disk : Disk) : Type 0 where
  pub req : ReplicateRequest
  pub claims : Claims
  pub pieces : List Bytes
  pub body : r.body ≡ some req
  pub authorized : IsAuthorized s.tokens s.keys r.unix_now req.upload_token claims
  pub kind : claims.type ≡ "upload"
  pub right_object : claims.merkle_root ≡ req.merkle_root
  pub fetched :
      r.http_get (source_address req) ("Bearer " ++ req.download_token) ≡ some (200, pieces)
  pub stored : IsStored s.codec r.now req.merkle_root (flatten pieces) disk

-- A replication answered with 202 had an upload token for the object, signed by one of the keys and not
-- expired; its source answered with status 200; and the bytes that the source sent are stored under
-- their own root, which is the one in the request. A source that sends other bytes is not believed.
pub handle_replicate-IsReplicated :
    (s : Server) (r : Replication) (disk : Disk) (laws : CodecLaws s.codec)
    → (handle_replicate s r disk).0 ≡ 202
    → IsReplicated s r (handle_replicate s r disk).1
unfolding handle_replicate
handle_replicate-IsReplicated s r disk laws h = elim (Result-cases (admit_replication s r)) [
  | inr (st, bad) ↦ absurd (admit_replication_status s r st bad (ground arith))
  | inl ((req, claims, pieces), fine) ↦
      let (body, verifies, kind, root, source) =
        admit_replication_steps s r req claims pieces fine in
      let reaches : handle_replicate s r disk ≡ store_replica s r req claims pieces disk =
        rw (handle_replicate, fine) refl in
      elim (store_replica_cases s r req claims pieces disk) [
        | inl (st, ne, p) ↦ absurd (ne (sym (ap (λ x. x.0) p) ∙ sym (ap (λ x. x.0) reaches) ∙ h))
        | inr (n, e, p) ↦ record {
          req = req;
          claims = claims;
          pieces = pieces;
          body = body;
          authorized =
              verify_token-IsAuthorized s.tokens s.keys r.unix_now req.upload_token claims verifies;
          kind = (eq_iff claims.type "upload").0 kind;
          right_object = (eq_iff claims.merkle_root req.merkle_root).0 root;
          fetched = open_source_lem r req pieces source;
          stored =
              rw (handle_replicate, fine, p)
                (OnlyOwnership-IsStored _ _ _ _ _ _
                  (record_ownership-OnlyOwnership (as_upload r req pieces) claims
                    (streamed s r req claims pieces disk).1)
                  (put_stream-IsStored s.codec laws r.fault r.now req.merkle_root pieces disk n
                    e).0);
        }
      ]
]

-- Every replication, whatever its source sends and however it is answered, keeps the store addressed
-- by content.
pub handle_replicate-IsAddressed :
    (s : Server) (r : Replication) (disk : Disk) (laws : CodecLaws s.codec)
    → IsAddressed s.codec disk
    → IsAddressed s.codec (handle_replicate s r disk).1
unfolding handle_replicate
handle_replicate-IsAddressed s r disk laws valid = elim (Result-cases (admit_replication s r)) [
  | inr (st, bad) ↦ rw (handle_replicate, bad) valid
  | inl ((req, claims, pieces), fine) ↦
      let after =
        put_stream-IsAddressed s.codec laws r.fault r.now req.merkle_root pieces disk valid in
      elim (store_replica_cases s r req claims pieces disk) [
        | inl (st, ne, p) ↦ rw (handle_replicate, fine, p) after
        | inr (n, e, p) ↦
            rw (handle_replicate, fine, p)
              (OnlyOwnership-IsAddressed _ _ _
                (record_ownership-OnlyOwnership (as_upload r req pieces) claims
                  (streamed s r req claims pieces disk).1)
                after)
      ]
]
