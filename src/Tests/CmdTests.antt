-- ===== src/Tests/CmdTests.antt =====
-- A key that is made and kept, and a heartbeat that fails.
use obsideo_provider.Base.{
  ℕ, ◌≤◌, ◌≡◌, refl, none, some, List, [], ◌∷◌, map, true, false, if◌then◌else◌, arith, ok, err,
}
use obsideo_provider.Merkle.Codec.{Bytes}
use obsideo_provider.Store.Disk.{Disk, empty_disk}
use obsideo_provider.Identity.{
  ed25519, IdentityCodec, Identity, absent, read_failed, Attempt, load_or_create,
  generate_and_persist, persist_key,
}
use obsideo_provider.Identity.Laws.{IdentityLaws, starts, starts-IsStable}
use obsideo_provider.Cmd.Heartbeat.{Beat, Tick, fresh}
use obsideo_provider.Cmd.Heartbeat.Laws.{all_warnings, all_metric_lines, warnings_bounded}

-- Keys and their encodings are the bytes themselves.
abbrev pub keys : IdentityCodec
keys = record {
  decode_pem = λ b. some b;
  encode_pem = λ b. b;
  parse_pkcs8 = λ b. some (ed25519 b);
  marshal_pkcs8 = λ b. some b;
  public_of = λ b. b;
  sign_with = λ k b. b;
  encode_to_string = λ b. "key";
}

ed25519_of : (b d : Bytes) → some b ≡ some d → some (ed25519 d) ≡ some (ed25519 b)
ed25519_of b d e = cc

pub keys-IdentityLaws : IdentityLaws keys
keys-IdentityLaws = record { decode-encode = λ der. refl; parse-marshal = ed25519_of }

abbrev pub attempt : Attempt
attempt = record {
  reads = true;
  generated = some (7 ∷ [], 7 ∷ []);
  raced = none;
  creates = true;
  write_stops = none;
  closes = true;
}

abbrev unread : Attempt
unread = record attempt { reads = false }

abbrev pub ident : Identity
ident = record { priv = 7 ∷ []; public = 7 ∷ [] }

created : (load_or_create keys attempt absent).0 ≡ ok ident
unfolding load_or_create generate_and_persist persist_key
created = refl

starts-IsStable_example :
    starts keys (load_or_create keys attempt absent).1 (attempt ∷ unread ∷ attempt ∷ []) ≡ (
      map
          (λ (x : Attempt). if x.reads then ok ident else err read_failed)
          (attempt ∷ unread ∷ attempt ∷ []),
      (load_or_create keys attempt absent).1,
    )
starts-IsStable_example =
    starts-IsStable keys keys-IdentityLaws attempt absent ident (attempt ∷ unread ∷ attempt ∷ [])
      refl created

-- Three failures, ten minutes apart at most.
abbrev failing : ℕ → Tick
failing now = record {
  walks = true;
  free = some 5;
  marshals = true;
  builds_request = true;
  status = none;
  now = now;
}

abbrev beat : Beat
beat = record { noble_wallet = ""; provider_version = "v1"; signing_pub_key = "" }

abbrev ticks : List (Disk × Tick)
ticks =
    (empty_disk, failing 1000)
    ∷ (empty_disk, failing 30000001000)
    ∷ (empty_disk, failing 300000001000)
    ∷ []

warnings_bounded_example :
    (all_warnings beat ticks fresh ≤ 2) × (all_metric_lines beat ticks fresh ≡ 0)
warnings_bounded_example = warnings_bounded beat ticks fresh 1000 300000001000 refl (omega arith)
