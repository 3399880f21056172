-- ===== src/Api/Upload.antt =====
-- `handleUpload` of api/upload.go.
use obsideo_provider.Base.{ℕ, Option, List, String, Bool, not, ◌&&◌, str_eq, if◌then◌else◌, ok, err}
use obsideo_provider.Base.Int.{ℤ}
use obsideo_provider.Base.Time.{Time}
use obsideo_provider.Merkle.Codec.{Bytes, Codec}
use obsideo_provider.Store.Disk.{Disk, Ownership, ownership_exists}
use obsideo_provider.Store.Records.{put_ownership}
use obsideo_provider.Store.Objects.{StreamFault, merkle_mismatch, put_stream}
use obsideo_provider.Api.Tokens.{Claims, TokenCodec, authorize}

-- The server, as far as an upload reads it.
pub record Server : Type 0 where
  pub codec : Codec
  pub tokens : TokenCodec
  pub keys : List Bytes
  pub accept_uncontracted_data : Bool

-- A request to upload, with the clock and the failures of system calls while it is served.
pub record Upload : Type 0 where
  pub merkle : String
  pub bearer : Option String
  pub body : List Bytes
  pub unix_now : ℤ
  pub now : Time
  pub fault : StreamFault
  pub writes_ownership : Bool
  pub chmods_ownership : Bool

-- The ownership record is written if the token names both keys and there is none yet.
unfoldable pub record_ownership : Upload → Claims → Disk → ℕ × Disk
record_ownership u claims disk =
    let own : Ownership = record {
      owner_pubkey = claims.owner_pubkey;
      owner_sig_pubkey = claims.owner_sig_pubkey;
      received_at = u.now;
    } in
    let (result, disk') = put_ownership u.writes_ownership u.chmods_ownership u.merkle own disk in
    if not (str_eq claims.owner_pubkey "") && not (str_eq claims.owner_sig_pubkey "")
    then (elim result [
      | ok _ ↦ (200, disk')
      | err ownership_exists ↦ (200, disk')
      | err _ ↦ (500, disk')
    ])
    else (200, disk)

-- The part of the handler after the checks on the token.
unfoldable pub store_upload : Server → Upload → Claims → Disk → ℕ × Disk
store_upload s u claims disk =
    let (result, disk') = put_stream s.codec u.fault u.now u.merkle u.body disk in
    elim result [
      | err merkle_mismatch ↦ (422, disk')
      | err _ ↦ (500, disk')
      | ok size ↦ record_ownership u claims disk'
    ]

-- The status of the response, and the disk after it.
unfoldable pub handle_upload : Server → Upload → Disk → ℕ × Disk
handle_upload s u disk = elim (authorize s.tokens s.keys u.unix_now "upload" u.merkle u.bearer) [
  | err status ↦ (status, disk)
  | ok claims ↦
      if not claims.contracted && not s.accept_uncontracted_data
      then (403, disk)
      else store_upload s u claims disk
]
