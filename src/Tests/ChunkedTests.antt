-- ===== src/Tests/ChunkedTests.antt =====
-- An object uploaded in two chunks, the second one first and twice; and one pulled from a peer.
use mathlib.Core.List.{flatten}
use obsideo_provider.Base.{
  ℕ, zero, suc, ◌<◌, ◌≡◌, ◌≢◌, refl, sym, ap, ◌∙◌, none, some, List, [], ◌∷◌, String, true, false,
  arith, eq_iff, str_eq, length, Bool-cases, inl, inr,
}
use obsideo_provider.Base.Int.{ℤ, pos}
use obsideo_provider.Base.Dir.{lookup}
use obsideo_provider.Merkle.Codec.{Bytes}
use obsideo_provider.Merkle.Tree.{tree_from_chunk_hashes}
use obsideo_provider.Merkle.Stream.{new_tree_builder, write_all, write, write_loop, finish}
use obsideo_provider.Store.Disk.{empty_disk}
use obsideo_provider.Store.Objects.{no_fault, put_stream, settle, commit}
use obsideo_provider.Store.Records.{put_ownership}
use obsideo_provider.Api.Tokens.{verify_token, any_verifies}
use obsideo_provider.Api.Upload.{handle_upload, record_ownership}
use obsideo_provider.Api.Chunked.{StagingCodec, handle_upload_finalize}
use obsideo_provider.Api.ChunkedLaws.{StagingLaws, Sent, IsSent, send_all}
use obsideo_provider.Api.FinalizeLaws.{served, handle_upload_finalize-eq-handle_upload}
use obsideo_provider.Api.Replicate.{
  ReplicateRequest, Replication, IsReplicated, open_source, admit_replication, store_replica,
  handle_replicate, handle_replicate-IsReplicated,
}
use obsideo_provider.Tests.Toy.{toy_codec, toy_laws}
use obsideo_provider.Tests.StoreTests.{pieces, root}
use obsideo_provider.Tests.ApiTests.{server, upload, claims, authorized}

-- A number as a text, and back.
abbrev text : ℕ → String
text n = toy_codec.encode_to_string (n ∷ [])

abbrev bytes_of : String → Bytes
bytes_of s = elim (toy_codec.decode_string s) [ none ↦ [] | some b ↦ b ]

abbrev number : Bytes → ℤ
number [] = pos 0
number (n ∷ _) = pos n

abbrev pub staging_codec : StagingCodec
staging_codec = record {
  chunk_name = text;
  atoi = λ s. some (number (bytes_of s));
  parse_total = number;
  text_bytes = bytes_of;
  cut_chunk_prefix = λ s. some s;
  sort_ints = λ xs. xs;
}

text_read : (n : ℕ) → toy_codec.decode_string (text n) ≡ some (n ∷ [])
text_read n = toy_laws.decode-encode (n ∷ [])

bytes_of-text : (n : ℕ) → bytes_of (text n) ≡ n ∷ []
bytes_of-text n = rw (bytes_of, text_read n) refl

-- A text that reads back as something else is another text.
differs :
    (s : String) (n : ℕ) → toy_codec.decode_string s ≢ some (n ∷ []) → str_eq s (text n) ≡ false
differs s n ne = elim (Bool-cases (str_eq s (text n))) [
  | inr other ↦ other
  | inl same ↦ absurd (ne (ap toy_codec.decode_string ((eq_iff s (text n)).0 same) ∙ text_read n))
]

text_is_nonempty : (n : ℕ) → str_eq (text n) "" ≡ false
text_is_nonempty n = elim (Bool-cases (str_eq (text n) "")) [
  | inr other ↦ other
  | inl same ↦
      absurd (cc (sym (text_read n) ∙ ap toy_codec.decode_string ((eq_iff (text n) "").0 same)))
]

first_eq : (m n : ℕ) → m ∷ [] ≡ n ∷ [] → m ≡ n
first_eq m n e = cc

staging_laws : StagingLaws staging_codec text
staging_laws = record {
  chunk_injective = λ i j e. first_eq i j (sym (bytes_of-text i) ∙ ap bytes_of e ∙ bytes_of-text j);
  chunk_no_meta = λ i. differs "meta" i (λ e. cc e);
  text_nonempty = text_is_nonempty;
  atoi-text = λ n. ap (λ b. some (number b)) (bytes_of-text n);
  parse_total-text = λ n. ap number (bytes_of-text n);
}

abbrev sends : List Sent
sends = (1, 2 ∷ [], 5) ∷ (0, 1 ∷ [], 6) ∷ (1, 2 ∷ [], 7) ∷ []

covers : (j : ℕ) → j < length pieces → IsSent j sends
covers zero h = inr (inl refl)
covers (suc zero) h = inl refl
covers (suc (suc j)) h = absurd (omega (arith, h))

handle_upload_finalize-eq-handle_upload_example :
    served (
      handle_upload_finalize staging_codec true true server upload empty_disk (
        send_all staging_codec text staging_laws server root
          (some "token")
          (pos 800)
          claims
          authorized
          pieces
          sends
          []))
    ≡ handle_upload server upload empty_disk
handle_upload_finalize-eq-handle_upload_example =
    handle_upload_finalize-eq-handle_upload staging_codec text staging_laws true server upload
      empty_disk (pos 800) claims authorized pieces sends []
      (refl, omega arith, (refl, omega arith, (refl, omega arith, tt))) covers (omega arith)

abbrev request : ReplicateRequest
request = record {
  source_url = "http://peer";
  merkle_root = root;
  owner = "";
  start = pos 0;
  chunk_size = pos 0;
  proof_type = pos 0;
  upload_token = "token";
  download_token = "other";
}

abbrev replication : Replication
replication = record {
  body = some request;
  http_get = λ _ _. some (200, pieces);
  unix_now = pos 800;
  now = 7;
  fault = no_fault;
  writes_ownership = true;
  chmods_ownership = true;
}

replicated : (handle_replicate server replication empty_disk).0 ≡ 202
unfolding handle_replicate admit_replication open_source store_replica verify_token any_verifies
    record_ownership put_ownership put_stream settle commit finish write_all write write_loop
    tree_from_chunk_hashes new_tree_builder lookup flatten
replicated = refl

handle_replicate-IsReplicated_example :
    IsReplicated server replication (handle_replicate server replication empty_disk).1
handle_replicate-IsReplicated_example =
    handle_replicate-IsReplicated server replication empty_disk toy_laws replicated
