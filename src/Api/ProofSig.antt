-- ===== src/Api/ProofSig.antt =====
-- What a signature over `ProofSigPayload` of identity/proofsig.go binds.
use obsideo_provider.Base.{ℕ, ◌≡◌, ◌≢◌, refl, sym, [], ◌∷◌, ◌++◌, String}
use obsideo_provider.Merkle.Codec.{Bytes, Codec}
use obsideo_provider.Api.Challenge.{SigningCodec, line, proof_sig_payload}

-- No line feed is among the bytes.
abbrev pub IsOneLine : Bytes → Type 0
IsOneLine [] = Unit {0}
IsOneLine (x ∷ xs) = (x ≢ b'\n') × IsOneLine xs

-- Texts and numbers are known by their bytes, and a number is written on one line.
pub record SigningLaws (s : SigningCodec) : Type 0 where
  pub text_injective : (a b : String) → s.text_bytes a ≡ s.text_bytes b → a ≡ b
  pub itoa_injective : (m n : ℕ) → s.itoa m ≡ s.itoa n → m ≡ n
  pub itoa_one_line : (n : ℕ) → IsOneLine (s.itoa n)

head_eq : (x y : ℕ) (xs ys : Bytes) → x ∷ xs ≡ y ∷ ys → x ≡ y
head_eq x y xs ys e = cc

tail_eq : (x y : ℕ) (xs ys : Bytes) → x ∷ xs ≡ y ∷ ys → xs ≡ ys
tail_eq x y xs ys e = cc

append_cancel : (xs ys zs : Bytes) → xs ++ ys ≡ xs ++ zs → ys ≡ zs
append_cancel [] ys zs e = e
append_cancel (x ∷ xs) ys zs e = append_cancel xs ys zs (tail_eq x x _ _ e)

-- The first line and what is behind it are read back.
line_cancel :
    (a b x y : Bytes) → IsOneLine a → IsOneLine b → line a x ≡ line b y → (a ≡ b) × (x ≡ y)
line_cancel [] [] x y la lb e = (refl, tail_eq _ _ x y e)
line_cancel [] (n ∷ b) x y la lb e = absurd (lb.0 (sym (head_eq _ n x _ e)))
line_cancel (m ∷ a) [] x y la lb e = absurd (la.0 (head_eq m _ _ y e))
line_cancel (m ∷ a) (n ∷ b) x y la lb e =
    let (same, behind) = line_cancel a b x y la.1 lb.1 (tail_eq m n _ _ e) in
    (cc (head_eq m n _ _ e, same), behind)

-- The fields that a payload is made of.
pub record Signed : Type 0 where
  pub provider_id : String
  pub challenge_id : String
  pub nonce : String
  pub merkle_root : String
  pub chunk_index : ℕ
  pub block_index : ℕ
  pub proof_version : ℕ
  pub chunk_data : Bytes

module _ (c : Codec) (s : SigningCodec) where
  abbrev pub payload_of : Signed → Bytes
  payload_of f =
      proof_sig_payload c s f.provider_id f.challenge_id f.nonce f.merkle_root f.chunk_index
        f.block_index f.proof_version f.chunk_data

  -- No text among the fields has a line feed.
  pub record IsPlain (f : Signed) : Type 0 where
    pub provider_line : IsOneLine (s.text_bytes f.provider_id)
    pub challenge_line : IsOneLine (s.text_bytes f.challenge_id)
    pub nonce_line : IsOneLine (s.text_bytes f.nonce)
    pub root_line : IsOneLine (s.text_bytes f.merkle_root)

  -- The fields are the same, and the data has the same digest.
  pub record IsSameProof (f g : Signed) : Type 0 where
    pub provider_id : f.provider_id ≡ g.provider_id
    pub challenge_id : f.challenge_id ≡ g.challenge_id
    pub nonce : f.nonce ≡ g.nonce
    pub merkle_root : f.merkle_root ≡ g.merkle_root
    pub chunk_index : f.chunk_index ≡ g.chunk_index
    pub block_index : f.block_index ≡ g.block_index
    pub proof_version : f.proof_version ≡ g.proof_version
    pub digest : c.hex_encode (c.sha256 f.chunk_data) ≡ c.hex_encode (c.sha256 g.chunk_data)

  -- A signature binds an answer to its challenge: where no text among the fields has a line feed, two
  -- payloads are the same bytes only if they are of the same provider, challenge, nonce, root, chunk
  -- index, block index and version, and of data with the same digest.
  pub proof_sig_payload-IsSameProof :
      SigningLaws s
      → (f g : Signed) → IsPlain f
      → IsPlain g
      → payload_of f ≡ payload_of g
      → IsSameProof f g
  unfolding proof_sig_payload
  proof_sig_payload-IsSameProof laws f g pf pg e =
      let cut = append_cancel (s.text_bytes "obsideo-proof-response-v1") _ _ e in
      let (e1, r1) = line_cancel _ _ _ _ pf.provider_line pg.provider_line (tail_eq _ _ _ _ cut) in
      let (e2, r2) = line_cancel _ _ _ _ pf.challenge_line pg.challenge_line r1 in
      let (e3, r3) = line_cancel _ _ _ _ pf.nonce_line pg.nonce_line r2 in
      let (e4, r4) = line_cancel _ _ _ _ pf.root_line pg.root_line r3 in
      let one = laws.itoa_one_line in
      let (e5, r5) = line_cancel _ _ _ _ (one f.chunk_index) (one g.chunk_index) r4 in
      let (e6, r6) = line_cancel _ _ _ _ (one f.block_index) (one g.block_index) r5 in
      let (e7, r7) = line_cancel _ _ _ _ (one f.proof_version) (one g.proof_version) r6 in
      record {
        provider_id = laws.text_injective _ _ e1;
        challenge_id = laws.text_injective _ _ e2;
        nonce = laws.text_injective _ _ e3;
        merkle_root = laws.text_injective _ _ e4;
        chunk_index = laws.itoa_injective _ _ e5;
        block_index = laws.itoa_injective _ _ e6;
        proof_version = laws.itoa_injective _ _ e7;
        digest = r7;
      }
