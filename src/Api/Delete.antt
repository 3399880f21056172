-- ===== src/Api/Delete.antt =====
-- `handleDeleteSigned` of api/delete.go.
use text.Mathlib.Text.{starts_with}
use Prim.Native.String.{len, slice}
use obsideo_provider.Base.{
  ℕ, Option, none, some, List, String, Bool, not, ◌||◌, str_eq, ◌==◌, if◌then◌else◌, length, Result,
  ok, err, ◌>>=◌,
}
use obsideo_provider.Base.Int.{pos, negsuc, ltb_ℤ}
use obsideo_provider.Base.Time.{Time, sub}
use obsideo_provider.Merkle.Codec.{Bytes}
use obsideo_provider.Store.Disk.{Disk, Ownership, not_found}
use obsideo_provider.Store.Records.{FileKind, get_ownership, delete}
use obsideo_provider.Api.Nonces.{check}
use obsideo_provider.Api.Status.{or_status, expect}

-- 5 and 15 minutes, in nanoseconds.
abbrev pub delete_command_drift_window : ℕ
delete_command_drift_window = 300000000000

abbrev pub delete_command_nonce_ttl : ℕ
delete_command_nonce_ttl = 900000000000

pub record SignedDeleteCommand : Type 0 where
  pub payload : String
  pub signature : String

pub record DeleteCommandPayload : Type 0 where
  pub account_id : String
  pub merkle_root : String
  pub issued_at : String
  pub nonce : String

-- What comes from encoding/json, encoding/base64, crypto/ed25519 and time.
pub record DeleteCodec : Type 0 where
  pub unmarshal_command : Bytes → Option SignedDeleteCommand
  pub decode_base64 : String → Option Bytes
  pub verify : Bytes → String → Bytes → Bool
  pub unmarshal_payload : String → Option DeleteCommandPayload
  pub parse_nano : String → Option Time
  pub parse_plain : String → Option Time

-- A request; `body` is `none` if reading it fails.
pub record Deletion : Type 0 where
  pub merkle : String
  pub body : Option Bytes
  pub now : Time
  pub removes : FileKind → Bool

-- The clocks differ by more than the drift window.
unfoldable pub drifts : Time → Time → Bool
drifts now issued_at =
    let delta = sub now issued_at in
    ltb_ℤ delta (negsuc 299999999999) || ltb_ℤ (pos delete_command_drift_window) delta

module _ (c : DeleteCodec) where
  -- The prefix, 43 characters, and 32 bytes in them.
  unfoldable pub decode_ed25519_fingerprint : String → Option Bytes
  decode_ed25519_fingerprint s =
      let payload = slice s 8 (len s) in
      if not (starts_with s "obk_sig_")
      then none
      else if not (len payload == 43)
      then none
      else (elim (c.decode_base64 payload) [
        | none ↦ none
        | some raw ↦ if length raw == 32 then some raw else none
      ])

  -- Steps 2 to 5: the command in the body, signed with the owner's key.
  unfoldable pub read_command : Ownership → Option Bytes → Result ℕ SignedDeleteCommand
  unfolding decode_ed25519_fingerprint
  read_command own body = do
    bytes ← or_status body 400
    cmd ← or_status (c.unmarshal_command bytes) 400
    fine ← expect (not (str_eq cmd.payload "" || str_eq cmd.signature "")) 400
    sig_bytes ← or_status (c.decode_base64 cmd.signature) 400
    sized ← expect (length sig_bytes == 64) 400
    pub_bytes ← or_status (decode_ed25519_fingerprint own.owner_sig_pubkey) 500
    signed ← expect (c.verify pub_bytes cmd.payload sig_bytes) 401
    ok cmd

  abbrev missing_field : DeleteCommandPayload → Bool
  missing_field pl =
      str_eq pl.account_id ""
      || str_eq pl.merkle_root ""
      || str_eq pl.issued_at ""
      || str_eq pl.nonce ""

  abbrev pub parse_time : String → Option Time
  parse_time s = elim (c.parse_nano s) [ some t ↦ some t | none ↦ c.parse_plain s ]

  -- Steps 6 to 8: the payload is for this object, and of this time.
  unfoldable pub check_payload :
      String → Time → DeleteCommandPayload → Result ℕ DeleteCommandPayload
  check_payload merkle now pl = do
    whole ← expect (not (missing_field pl)) 400
    here ← expect (str_eq pl.merkle_root merkle) 400
    issued_at ← or_status (parse_time pl.issued_at) 400
    current ← expect (not (drifts now issued_at)) 401
    ok pl

  unfoldable pub read_payload : String → Time → String → Result ℕ DeleteCommandPayload
  read_payload merkle now payload =
      or_status (c.unmarshal_payload payload) 400 >>= λ pl. check_payload merkle now pl

  -- Steps 9 and 10: the nonce, and the deletion.
  unfoldable pub finish_delete :
      Deletion
      → Ownership
      → DeleteCommandPayload
      → List (String × Time)
      → Disk
      → ℕ × List (String × Time) × Disk
  finish_delete d own pl nonces disk =
      let (seen, nonces') =
        check delete_command_nonce_ttl own.owner_sig_pubkey pl.nonce d.now nonces in
      if seen then (401, nonces', disk) else (200, nonces', delete d.removes d.merkle disk)

  -- Steps 1 to 8, which change nothing.
  unfoldable pub admit : Deletion → Disk → Result ℕ (Ownership × DeleteCommandPayload)
  admit d disk = elim (get_ownership d.merkle disk) [
    | err not_found ↦ err 404
    | err _ ↦ err 500
    | ok own ↦ read_command own d.body >>= λ cmd.
        read_payload d.merkle d.now cmd.payload >>= λ pl. ok (own, pl)
  ]

  -- The status of the response, the cache, and the disk after it.
  unfoldable pub handle_delete_signed :
      Deletion → List (String × Time) → Disk → ℕ × List (String × Time) × Disk
  handle_delete_signed d nonces disk = elim (admit d disk) [
    | err status ↦ (status, nonces, disk)
    | ok (own, pl) ↦ finish_delete d own pl nonces disk
  ]
