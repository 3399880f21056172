-- ===== src/Directory/Laws.antt =====
-- Where the keys that a directory adds come from.
use mathlib.Core.List.{append-nil, append_assoc}
use obsideo_provider.Base.{
  ◌-◌, ◌≤◌, ℕ, ◌+◌, ◌≡◌, refl, sym, ◌∙◌, ◌⊎◌, inl, inr, some, List, [], ◌∷◌, ◌++◌, String, true,
  false, arith, length, ok, err, ◌>>=◌, Option-cases, Result-cases,
}
use obsideo_provider.Base.Dir.{remove}
use obsideo_provider.Merkle.Codec.{Bytes}
use obsideo_provider.Api.Tokens.{add_key}
use obsideo_provider.Directory.Refresh.{
  DirectoryCodec, DirectoryError, Fetched, read_response, text_field, canonical_marshal,
  verified_envelope, raw_signers, signer_key, add_signers, refresh_once,
}

-- One of the keys.
abbrev pub Among : Bytes → List Bytes → Type 0
Among key [] = ⊥
Among key (first ∷ keys) = (key ≡ first) ⊎ Among key keys

add_key-append :
    (key : Bytes) (keys : List Bytes)
    → (add_key key keys ≡ (false, keys)) ⊎ (add_key key keys ≡ (true, keys ++ key ∷ []))
unfolding add_key
add_key-append key keys = ground arith

module _ {Value : Type 0} (c : DirectoryCodec Value) where
  -- The key stands in base64 in one of the entries.
  abbrev pub Listed : Bytes → List Value → Type 0
  Listed key [] = ⊥
  Listed key (v ∷ vs) = (signer_key c v ≡ some key) ⊎ Listed key vs

  -- The keys after the loop: those before it, and behind them new ones from the entries.
  pub record Extends (vs : List Value) (keys keys' : List Bytes) (added : ℕ) : Type 0 where
    pub new : List Bytes
    pub appended : keys' ≡ keys ++ new
    pub counted : length new ≡ added
    pub listed : (key : Bytes) → Among key new → Listed key vs

  -- A directory that the coordinator's key has signed.
  pub record IsSigned (coord_pub_key : Bytes) (fetched : Fetched) (rest : List (String × Value))
      : Type 0 where
    pub body : Bytes
    pub envelope : List (String × Value)
    pub sig : Bytes
    pub canonical : Bytes
    pub fine : read_response fetched ≡ ok body
    pub parsed : c.unmarshal body ≡ some envelope
    pub signature : c.decode_base64 (text_field c "signature" envelope) ≡ some sig
    pub signed : canonical_marshal c (remove "signature" envelope) ≡ some canonical
    pub verifies : c.verify coord_pub_key canonical sig ≡ true
    pub stripped : rest ≡ remove "signature" envelope

  add_signers-Extends :
      (vs : List Value) (added : ℕ) (keys : List Bytes)
      → Extends vs keys (add_signers c added vs keys).1 ((add_signers c added vs keys).0 - added)
        × (added ≤ (add_signers c added vs keys).0)
  unfolding add_signers
  add_signers-Extends [] added keys = (
    record {
      new = [];
      appended = sym (append-nil keys);
      counted = omega arith;
      listed = λ key h. h;
    },
    omega arith,
  )
  add_signers-Extends (v ∷ vs) added keys = elim (Option-cases (signer_key c v)) [
    | inl skipped ↦
        let (rest, grows) = add_signers-Extends vs added keys in
        rw (add_signers, skipped)
          (
            record {
              new = rest.new;
              appended = rest.appended;
              counted = rest.counted;
              listed = λ key h. inr (rest.listed key h);
            },
            grows,
          )
    | inr (key, found) ↦ elim (add_key-append key keys) [
      | inl old ↦
          let (rest, grows) = add_signers-Extends vs added keys in
          rw (add_signers, found, old)
            (
              record {
                new = rest.new;
                appended = rest.appended;
                counted = rest.counted;
                listed = λ key h. inr (rest.listed key h);
              },
              grows,
            )
      | inr fresh ↦
          let (rest, grows) = add_signers-Extends vs (added + 1) (keys ++ key ∷ []) in
          rw (add_signers, found, fresh)
            (
              record {
                new = key ∷ rest.new;
                appended = rest.appended ∙ append_assoc keys (key ∷ []) rest.new;
                counted = omega (arith, rest.counted, grows);
                listed = λ k h. elim h [
                  | inl here ↦ inl (rw here found)
                  | inr behind ↦ inr (rest.listed k behind)
                ];
              },
              omega (arith, grows),
            )
    ]
  ]

  verified_steps :
      (coord_pub_key body : Bytes) (rest : List (String × Value))
      → verified_envelope c coord_pub_key body ≡ ok rest
      → (envelope : List (String × Value)) × (sig : Bytes) × (canonical : Bytes) × (c.unmarshal body
          ≡ some envelope)
        × (c.decode_base64 (text_field c "signature" envelope) ≡ some sig)
        × (canonical_marshal c (remove "signature" envelope) ≡ some canonical)
        × (c.verify coord_pub_key canonical sig ≡ true)
        × (rest ≡ remove "signature" envelope)
  unfolding verified_envelope
  verified_steps coord_pub_key body rest h = ground arith

  envelope_steps :
      (coord_pub_key : Bytes) (fetched : Fetched) (rest : List (String × Value))
      → (read_response fetched >>= λ body. verified_envelope c coord_pub_key body) ≡ ok rest
      → IsSigned coord_pub_key fetched rest
  envelope_steps coord_pub_key fetched rest h = elim (Result-cases (read_response fetched)) [
    | inr (e, bad) ↦ absurd (ground (arith, bad))
    | inl (body, fine) ↦
        let verified : verified_envelope c coord_pub_key body ≡ ok rest = rw fine at h in
        let (envelope, sig, canonical, parsed, signature, signed, verifies, stripped) =
          verified_steps coord_pub_key body rest verified in
        record {
          body = body;
          envelope = envelope;
          sig = sig;
          canonical = canonical;
          fine = fine;
          parsed = parsed;
          signature = signature;
          signed = signed;
          verifies = verifies;
          stripped = stripped;
        }
  ]

  -- A directory that was relied on, and what it added to the keys.
  pub record IsRefreshed (coord_pub_key : Bytes) (fetched : Fetched) (keys keys' : List Bytes)
      (added : ℕ) : Type 0 where
    pub envelope : List (String × Value)
    pub signed : IsSigned coord_pub_key fetched envelope
    pub extends : Extends (raw_signers c envelope) keys keys' added

  -- Whatever a refresh fetches, either it fails and the keys are those before it; or what was fetched
  -- carried a signature that the coordinator's key verifies over all its other fields, and the keys are
  -- those before it, in their order, with as many new ones behind them as are reported, each of which
  -- stands in the signed list of authorized signers.
  pub refresh_once-IsRefreshed :
      (coord_pub_key : Bytes) (fetched : Fetched) (keys : List Bytes)
      → ((e : DirectoryError) × (refresh_once c coord_pub_key fetched keys ≡ (err e, keys)))
        ⊎ ((added : ℕ) × (keys' : List Bytes) × (refresh_once c coord_pub_key fetched keys
              ≡ (ok added, keys'))
            × IsRefreshed coord_pub_key fetched keys keys' added)
  unfolding refresh_once
  refresh_once-IsRefreshed coord_pub_key fetched keys =
      elim (Result-cases
        (read_response fetched >>= λ body. verified_envelope c coord_pub_key body)) [
          | inr (e, bad) ↦ inl (e, rw (refresh_once, bad) refl)
          | inl (envelope, fine) ↦
              let r = add_signers c 0 (raw_signers c envelope) keys in
              let (extends, grows) = add_signers-Extends (raw_signers c envelope) 0 keys in
              inr (
                r.0,
                r.1,
                rw (refresh_once, fine) refl,
                record {
                  envelope = envelope;
                  signed = envelope_steps coord_pub_key fetched envelope fine;
                  extends = record {
                    new = extends.new;
                    appended = extends.appended;
                    counted = omega (arith, extends.counted);
                    listed = extends.listed;
                  };
                },
              )
        ]
