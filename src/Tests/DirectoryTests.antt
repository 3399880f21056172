-- ===== src/Tests/DirectoryTests.antt =====
-- A directory with one new signer.
use obsideo_provider.Base.{ℕ, ◌≡◌, ◌⊎◌, refl, some, List, [], ◌∷◌, String, true, ok, err, replicate}
use obsideo_provider.Base.Dir.{lookup, remove}
use obsideo_provider.Merkle.Codec.{Bytes}
use obsideo_provider.Api.Tokens.{add_key}
use obsideo_provider.Directory.Refresh.{
  DirectoryCodec, DirectoryError, Fetched, response, read_response, verified_envelope,
  canonical_marshal, raw_signers, signer_key, add_signers, refresh_once,
}
use obsideo_provider.Directory.Laws.{IsRefreshed, refresh_once-IsRefreshed}

abbrev envelope : List (String × String)
envelope = ("authorized_signers", "keys") ∷ ("signature", "s") ∷ []

-- A value is a text, and every array has one entry.
abbrev pub codec : DirectoryCodec String
codec = record {
  unmarshal = λ _. some envelope;
  marshal = λ _. some (1 ∷ []);
  as_text = λ v. some v;
  as_array = λ v. some (v ∷ []);
  decode_base64 = λ _. some (replicate 32 7);
  verify = λ _ _ _. true;
}

abbrev pub fetched : Fetched
fetched = response 200 (some (1 ∷ []))

-- One key is added.
adds :
    refresh_once codec (replicate 32 1) fetched (replicate 32 1 ∷ [])
    ≡ (ok 1, replicate 32 1 ∷ replicate 32 7 ∷ [])
unfolding refresh_once read_response verified_envelope canonical_marshal raw_signers signer_key
    add_signers add_key lookup remove
adds = refl

refresh_once-IsRefreshed_example :
    ((e : DirectoryError) × (refresh_once codec (replicate 32 1) fetched (replicate 32 1 ∷ [])
        ≡ (err e, replicate 32 1 ∷ [])))
    ⊎ ((added : ℕ) × (keys' : List Bytes) × (refresh_once codec
            (replicate 32 1)
            fetched
            (replicate 32 1 ∷ [])
          ≡ (ok added, keys'))
        × IsRefreshed codec (replicate 32 1) fetched (replicate 32 1 ∷ []) keys' added)
refresh_once-IsRefreshed_example =
    refresh_once-IsRefreshed codec (replicate 32 1) fetched (replicate 32 1 ∷ [])
