-- ===== src/Tests/ApiTests.antt =====
-- Requests to a server that takes data without a contract.
use mathlib.Core.List.{flatten}
use obsideo_provider.Base.{◌≡◌, refl, some, [], ◌∷◌, true, false, ok}
use obsideo_provider.Base.Int.{pos}
use obsideo_provider.Base.Dir.{lookup}
use obsideo_provider.Merkle.Tree.{tree_from_chunk_hashes}
use obsideo_provider.Merkle.Stream.{new_tree_builder, write_all, write, write_loop, finish}
use obsideo_provider.Store.Disk.{Disk, empty_disk, Ownership, parsed}
use obsideo_provider.Store.Objects.{no_fault, put_stream, settle, commit}
use obsideo_provider.Store.Records.{put_ownership}
use obsideo_provider.Api.Tokens.{Claims, TokenCodec, authorize, verify_token, any_verifies}
use obsideo_provider.Api.Upload.{Server, Upload, handle_upload, store_upload, record_ownership}
use obsideo_provider.Api.UploadLaws.{IsAccepted, handle_upload-IsAccepted, handle_upload-ownership}
use obsideo_provider.Tests.Toy.{toy_codec, toy_laws}
use obsideo_provider.Tests.StoreTests.{pieces, root}

abbrev pub claims : Claims
claims = record {
  type = "upload";
  merkle_root = root;
  provider_id = "p";
  account_id = "a";
  owner_pubkey = "k";
  owner_sig_pubkey = "s";
  contracted = false;
  issued_at = pos 0;
  expires_at = pos 900;
}

-- Every token carries these claims, and every signature is good.
abbrev tokens : TokenCodec
tokens = record {
  split_dot = λ t. some (t, t);
  decode_base64 = λ _. some (1 ∷ []);
  verify = λ _ _ _. true;
  unmarshal_claims = λ _. some claims;
}

abbrev pub server : Server
server = record {
  codec = toy_codec;
  tokens = tokens;
  keys = (7 ∷ []) ∷ [];
  accept_uncontracted_data = true;
}

abbrev pub upload : Upload
upload = record {
  merkle = root;
  bearer = some "token";
  body = pieces;
  unix_now = pos 800;
  now = 7;
  fault = no_fault;
  writes_ownership = true;
  chmods_ownership = true;
}

-- Bytes sent under another name.
abbrev misnamed : Upload
misnamed = record upload { body = (9 ∷ []) ∷ [] }

pub authorized : authorize tokens server.keys (pos 800) "upload" root (some "token") ≡ ok claims
unfolding authorize verify_token any_verifies
authorized = refl

succeeds : (handle_upload server upload empty_disk).0 ≡ 200
unfolding handle_upload authorize verify_token any_verifies store_upload record_ownership
    put_ownership put_stream settle commit finish write_all write write_loop tree_from_chunk_hashes
    new_tree_builder lookup flatten
succeeds = refl

handle_upload-IsAccepted_example :
    IsAccepted server upload (handle_upload server upload empty_disk).1
handle_upload-IsAccepted_example =
    handle_upload-IsAccepted server upload empty_disk toy_laws succeeds

mismatch : (handle_upload server misnamed empty_disk).0 ≡ 422
unfolding handle_upload authorize verify_token any_verifies store_upload record_ownership
    put_ownership put_stream settle commit finish write_all write write_loop tree_from_chunk_hashes
    new_tree_builder lookup flatten
mismatch = refl

abbrev owner : Ownership
owner = record { owner_pubkey = "first"; owner_sig_pubkey = "first_sig"; received_at = 1 }

abbrev owned_disk : Disk
owned_disk = record empty_disk { ownership = (root, parsed owner) ∷ [] }

owned : lookup root owned_disk.ownership ≡ some (parsed owner)
unfolding lookup
owned = refl

handle_upload-ownership_example :
    lookup root (handle_upload server upload owned_disk).1.ownership ≡ some (parsed owner)
handle_upload-ownership_example =
    handle_upload-ownership server upload owned_disk root (parsed owner) owned
