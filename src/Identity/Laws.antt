-- ===== src/Identity/Laws.antt =====
-- What restarts do after LoadOrCreate of identity/identity.go has returned an identity.
use obsideo_provider.Base.{
  ◌≡◌, refl, Option, none, some, List, [], ◌∷◌, inl, inr, arith, Result, ok, err, true,
  if◌then◌else◌, Option-cases, Bool-cases, map, ap, sym, ◌∙◌, subst,
}
use obsideo_provider.Merkle.Codec.{Bytes}
use obsideo_provider.Identity.{
  ed25519, IdentityCodec, Identity, KeyFile, absent, contents, IdentityError, read_failed, Attempt,
  parse_identity, persist_key, generate_and_persist, load_or_create,
}

-- The documented behaviour of the encodings: what is encoded or marshalled is read back.
pub record IdentityLaws (c : IdentityCodec) : Type 0 where
  pub decode-encode : (der : Bytes) → c.decode_pem (c.encode_pem der) ≡ some der
  pub parse-marshal :
      (priv der : Bytes) → c.marshal_pkcs8 priv ≡ some der → c.parse_pkcs8 der ≡ some (ed25519 priv)

module _ (c : IdentityCodec) where
  -- ed25519.GenerateKey returns a private key with its own public key.
  abbrev pub IsKeyPair : Option (Bytes × Bytes) → Type 0
  IsKeyPair none = Unit {0}
  IsKeyPair (some (public, priv)) = c.public_of priv ≡ public

  -- The results of a start and of restarts, and the file that they leave.
  unfoldable pub starts : KeyFile → List Attempt → List (Result IdentityError Identity) × KeyFile
  starts file [] = ([], file)
  starts file (a ∷ later) =
      let (result, file') = load_or_create c a file in
      let (results, last) = starts file' later in (result ∷ results, last)

  -- What a start returns where the file has these bytes.
  abbrev from_file : Bytes → Attempt → Result IdentityError Identity
  from_file b a = if a.reads then parse_identity c b else err read_failed

  load_or_create-from_file :
      (b : Bytes) (a : Attempt) → load_or_create c a (contents b) ≡ (from_file b a, contents b)
  unfolding load_or_create
  load_or_create-from_file b a = ground arith

  load_or_create-absent :
      (a : Attempt) → a.reads ≡ true → load_or_create c a absent ≡ generate_and_persist c a
  unfolding load_or_create
  load_or_create-absent a fine = ground (arith, fine)

  -- A file that is there decides every start that can read it, and is never written.
  starts-contents :
      (b : Bytes) (later : List Attempt)
      → starts (contents b) later ≡ (map (from_file b) later, contents b)
  unfolding starts
  starts-contents b [] = refl
  starts-contents b (a ∷ later) = rw (load_or_create-from_file b a, starts-contents b later) refl

  module _ (laws : IdentityLaws c) where
    persist_key_lem :
        (a : Attempt) (made ident : Identity) (pem : Bytes)
        → (persist_key c a made pem).0 ≡ ok ident
        → ((persist_key c a made pem).1 ≡ contents pem) × (made ≡ ident)
    unfolding persist_key
    persist_key_lem a made ident pem h = ground arith

    pub load_or_create-contents :
        (a : Attempt) (file : KeyFile) (ident : Identity)
        → IsKeyPair a.generated
        → (load_or_create c a file).0 ≡ ok ident
        → (b : Bytes) × ((load_or_create c a file).1 ≡ contents b) × (parse_identity c b ≡ ok ident)
    unfolding load_or_create generate_and_persist persist_key parse_identity
    load_or_create-contents a (contents b) ident pair h = elim (Bool-cases a.reads) [
      | inr fault ↦ absurd (ground (arith, fault, h))
      | inl fine ↦ (b, ground (arith, fine), ground (arith, fine, h))
    ]
    load_or_create-contents a absent ident pair h = elim (Option-cases a.generated) [
      | inl failed ↦ absurd (ground (arith, failed, h))
      | inr ((public, priv), made) ↦ elim (Option-cases (c.marshal_pkcs8 priv)) [
        | inl failed ↦ absurd (ground (arith, made, failed, h))
        | inr (der, written) ↦
            let own : c.public_of priv ≡ public = subst IsKeyPair made pair in
            let pem = c.encode_pem der in
            let read = laws.decode-encode der in
            let parsed = laws.parse-marshal priv der written in
            let reads : a.reads ≡ true = ground (arith, h) in
            let kept : (load_or_create c a absent)
                ≡ persist_key c a (record { priv = priv; public = public }) pem =
              load_or_create-absent a reads ∙ rw (generate_and_persist, made, written) refl in
            let (file, same) =
              persist_key_lem a (record { priv = priv; public = public }) ident pem
                (ap (λ r. r.0) (sym kept) ∙ h) in
            (pem, ap (λ r. r.1) kept ∙ file, rw (parse_identity, read, parsed, own) (ap ok same))
      ]
    ]

    -- Once LoadOrCreate has returned an identity, every restart that can read the file returns the same,
    -- every other fails, and the file stays as it is, whatever happens at the restarts.
    pub starts-IsStable :
        (a : Attempt) (file : KeyFile) (ident : Identity) (later : List Attempt)
        → IsKeyPair a.generated
        → (load_or_create c a file).0 ≡ ok ident
        → starts (load_or_create c a file).1 later ≡ (
          map (λ (x : Attempt). if x.reads then ok ident else err read_failed) later,
          (load_or_create c a file).1,
        )
    starts-IsStable a file ident later pair h =
        let (b, e, p) = load_or_create-contents a file ident pair h in
        rw (e, starts-contents b later)
          (ap
            (λ (r : Result IdentityError Identity).
              (map (λ (x : Attempt). if x.reads then r else err read_failed) later, contents b))
            p)
