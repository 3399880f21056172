-- ===== src/Tests/RequestTests.antt =====
-- Deletions and downloads of one object.
use obsideo_provider.Base.{
  ◌≡◌, ◌≢◌, refl, none, some, [], ◌∷◌, String, true, false, ok, arith, replicate, str_eq,
  if◌then◌else◌,
}
use obsideo_provider.Base.Int.{pos}
use obsideo_provider.Base.Time.{sub}
use obsideo_provider.Base.Dir.{lookup, insert}
use obsideo_provider.Merkle.Codec.{Bytes}
use obsideo_provider.Store.Disk.{Disk, empty_disk, Ownership, parsed}
use obsideo_provider.Store.Records.{get_ownership, delete}
use obsideo_provider.Store.Objects.{get}
use obsideo_provider.Api.Tokens.{Claims, TokenCodec, authorize, verify_token, any_verifies}
use obsideo_provider.Api.TokenLaws.{Passes}
use obsideo_provider.Api.Nonces.{check}
use obsideo_provider.Api.Delete.{
  DeleteCodec, Deletion, DeleteCommandPayload, decode_ed25519_fingerprint, read_command,
  check_payload, read_payload, drifts, admit, finish_delete, handle_delete_signed,
}
use obsideo_provider.Api.DeleteLaws.{IsDeleted, handle_delete_signed-IsDeleted}
use obsideo_provider.Api.DeleteReplay.{nonces_after, delete_no_replay}
use obsideo_provider.Api.Download.{
  RangeCodec, Download, partial, parse_end, parse_single_byte_range, serve_range, handle_download,
  IsSentOf, handle_download-IsSentOf,
}

abbrev key_text : String
key_text = "obk_sig_aaaaaaaaaaaaaaaaaaaaaaaaaaaaaaaaaaaaaaaaaaa"

abbrev owner : Ownership
owner = record { owner_pubkey = "k"; owner_sig_pubkey = key_text; received_at = 0 }

abbrev disk : Disk
disk = record empty_disk {
  objects = ("ab", record { contents = 1 ∷ 2 ∷ 3 ∷ 4 ∷ []; mtime = 0 }) ∷ [];
  ownership = ("ab", parsed owner) ∷ [];
}

abbrev payload : DeleteCommandPayload
payload = record { account_id = "a"; merkle_root = "ab"; issued_at = "then"; nonce = "n" }

-- A signature is 64 bytes, any other text 32; every signature is good.
abbrev pub codec : DeleteCodec
codec = record {
  unmarshal_command = λ _. some (record { payload = "payload"; signature = "signature" });
  decode_base64 = λ s. some (if str_eq s "signature" then replicate 64 0 else replicate 32 0);
  verify = λ _ _ _. true;
  unmarshal_payload = λ _. some payload;
  parse_nano = λ _. none;
  parse_plain = λ _. some 1000;
}

abbrev deletion : Deletion
deletion = record { merkle = "ab"; body = some (1 ∷ []); now = 2000; removes = λ _. true }

-- The same bytes, sent again.
abbrev again : Deletion
again = record deletion { now = 3000 }

-- The same bytes, for an object without an owner.
abbrev unowned : Deletion
unowned = record deletion { merkle = "cd" }

ownership_read : get_ownership "ab" disk ≡ ok owner
unfolding get_ownership lookup
ownership_read = refl

accepted : (handle_delete_signed codec deletion [] disk).0 ≡ 200
unfolding handle_delete_signed admit get_ownership lookup read_command decode_ed25519_fingerprint
    read_payload check_payload drifts sub finish_delete check insert delete
accepted = refl

not_found_status : (handle_delete_signed codec unowned [] disk).0 ≡ 404
unfolding handle_delete_signed admit get_ownership lookup read_command decode_ed25519_fingerprint
    read_payload check_payload drifts sub finish_delete check insert delete
not_found_status = refl

handle_delete_signed-IsDeleted_example : IsDeleted codec deletion [] disk
handle_delete_signed-IsDeleted_example =
    handle_delete_signed-IsDeleted codec deletion [] disk accepted

delete_no_replay_example :
    (handle_delete_signed codec again
      (nonces_after codec (handle_delete_signed codec deletion [] disk).1 ((unowned, disk) ∷ []))
      disk).0
    ≢ 200
delete_no_replay_example =
    delete_no_replay codec deletion again [] disk disk ((unowned, disk) ∷ []) owner owner accepted
      (omega arith, tt) refl ownership_read ownership_read refl

abbrev claims : Claims
claims = record {
  type = "download";
  merkle_root = "ab";
  provider_id = "p";
  account_id = "a";
  owner_pubkey = "";
  owner_sig_pubkey = "";
  contracted = true;
  issued_at = pos 0;
  expires_at = pos 900;
}

abbrev tokens : TokenCodec
tokens = record {
  split_dot = λ t. some (t, t);
  decode_base64 = λ _. some (1 ∷ []);
  verify = λ _ _ _. true;
  unmarshal_claims = λ _. some claims;
}

-- Every header asks for the positions from 1 to 9.
abbrev ranges : RangeCodec
ranges = record {
  cut_bytes_prefix = λ s. some s;
  has_comma = λ _. false;
  cut_dash = λ _. some ("1", "9");
  parse_int = λ s. some (if str_eq s "1" then pos 1 else pos 9);
}

abbrev download : Download
download =
    handle_download tokens ranges ((7 ∷ []) ∷ []) (pos 800) "ab" (some "token") "bytes=1-9" true
      true none disk

sent : download ≡ partial 1 3 4 (2 ∷ 3 ∷ 4 ∷ [])
unfolding handle_download authorize verify_token any_verifies parse_single_byte_range parse_end
    serve_range get lookup
sent = refl

handle_download-IsSentOf_example :
    ((c : Claims) × Passes tokens ((7 ∷ []) ∷ []) (pos 800) "download" "ab" (some "token") c)
    × ((bytes : Bytes) × (get "ab" disk ≡ ok bytes) × IsSentOf none bytes 1 3 4 (2 ∷ 3 ∷ 4 ∷ []))
handle_download-IsSentOf_example =
    handle_download-IsSentOf tokens ranges ((7 ∷ []) ∷ []) (pos 800) "ab" (some "token") "bytes=1-9"
      true true none disk 1 3 4 (2 ∷ 3 ∷ 4 ∷ []) sent
