-- ===== src/Merkle/Chunks.antt =====
-- The leaf of each chunk of an object, and its proof against the object's root.
use obsideo_provider.Base.{
  ℕ, zero, suc, ◌+◌, ◌-◌, ◌*◌, ◌/◌, ◌≤◌, ◌<◌, ◌≡◌, refl, sym, ap, ◌∙◌, inl, inr, some, List, [],
  ◌∷◌, ◌++◌, String, arith, ltb, if◌then◌else◌, length, length-drop, get_elem?, take, drop, ok,
  Bool-cases, Option-cases, Result-cases,
}
use obsideo_provider.Merkle.Codec.{Bytes, Codec}
use obsideo_provider.Merkle.Tree.{root_of, decode_leaves, tree_from_chunk_hashes}
use obsideo_provider.Merkle.Batch.{
  default_chunk_size, chunk_hash_text, chunk_hash_loop, build_merkle_tree,
}

-- The bytes of the chunk, those that a read at its offset gives.
abbrev pub chunk_at : ℕ → ℕ → Bytes → Bytes
chunk_at size i bytes = take size (drop (i * size) bytes)

-- A read of more bytes than there are ends where they end.
take-length : (n : ℕ) (ys : Bytes) → length ys ≤ n → take (length ys) ys ≡ take n ys
take-length zero [] h = refl
take-length (suc n) [] h = refl
take-length zero (y ∷ ys) h = absurd (omega arith)
take-length (suc n) (y ∷ ys) h = ap (◌∷◌ y) (take-length n ys (omega arith))

take_to_end :
    (n : ℕ) (ys : Bytes) → take (if ltb (length ys) n then length ys else n) ys ≡ take n ys
take_to_end n ys = elim (Bool-cases (ltb (length ys) n)) [
  | inl few ↦ rw few (take-length n ys (ground arith))
  | inr many ↦ rw many refl
]

cut_chunk :
    (size i : ℕ) (bytes : Bytes)
    → take
        ((if ltb (length bytes) (i * size + size) then length bytes else i * size + size)
          - i * size)
        (drop (i * size) bytes)
      ≡ chunk_at size i bytes
cut_chunk size i bytes =
    let start = i * size in
    let rest = drop start bytes in
    let count : (if ltb (length bytes) (start + size) then length bytes else start + size) - start
        ≡ (if ltb (length rest) size then length rest else size) =
      ground (arith, length-drop start bytes) in
    ap (λ n. take n rest) count ∙ take_to_end size rest

module _ (c : Codec) where
  -- The digest of a chunk, before it is made a text.
  abbrev pub chunk_digest : ℕ → Bytes → Bytes
  chunk_digest i chunk = c.sha256 (c.itoa i ++ c.hex_encode chunk)

  pub get_elem?-chunk_hash_loop :
      (size rounds i j : ℕ) (bytes : Bytes)
      → j < rounds
      → get_elem? (chunk_hash_loop c size rounds i bytes) j
        ≡ some (c.encode_to_string (chunk_digest (i + j) (chunk_at size (i + j) bytes)))
  unfolding chunk_hash_loop chunk_hash_text
  get_elem?-chunk_hash_loop size zero i j bytes h = absurd (omega arith)
  get_elem?-chunk_hash_loop size (suc rounds) i zero bytes h =
      let e : i + 0 ≡ i = omega arith in
      rw e (ap (λ b. some (c.encode_to_string (chunk_digest i b))) (cut_chunk size i bytes))
  get_elem?-chunk_hash_loop size (suc rounds) i (suc j) bytes h =
      let e : i + suc j ≡ i + 1 + j = omega arith in
      rw e (get_elem?-chunk_hash_loop size rounds (i + 1) j bytes (omega arith))

  pub length-chunk_hash_loop :
      (size rounds i : ℕ) (bytes : Bytes) → length (chunk_hash_loop c size rounds i bytes) ≡ rounds
  unfolding chunk_hash_loop
  length-chunk_hash_loop size zero i bytes = refl
  length-chunk_hash_loop size (suc rounds) i bytes =
      ap suc (length-chunk_hash_loop size rounds (i + 1) bytes)

  pub decode_leaves_cons :
      (i : ℕ) (h : String) (hs : List String) (leaves : List Bytes)
      → decode_leaves c i (h ∷ hs) ≡ ok leaves
      → (raw : Bytes) × (rest : List Bytes) × (c.decode_string h ≡ some raw)
        × (decode_leaves c (i + 1) hs ≡ ok rest)
        × (leaves ≡ c.sha3_512 raw ∷ rest)
  unfolding decode_leaves
  decode_leaves_cons i h hs leaves e = elim (Option-cases (c.decode_string h)) [
    | inl bad ↦ absurd (ground arith)
    | inr (raw, good) ↦ elim (Result-cases (decode_leaves c (i + 1) hs)) [
      | inr (x, bad) ↦ absurd (ground arith)
      | inl (rest, fine) ↦ (raw, rest, good, fine, ground arith)
    ]
  ]

  pub get_elem?-decode_leaves :
      (i j : ℕ) (hs : List String) (leaves : List Bytes) (h : String) (raw : Bytes)
      → decode_leaves c i hs ≡ ok leaves
      → get_elem? hs j ≡ some h
      → c.decode_string h ≡ some raw
      → get_elem? leaves j ≡ some (c.sha3_512 raw)
  get_elem?-decode_leaves i j [] leaves h raw e g d = cc
  get_elem?-decode_leaves i zero (x ∷ hs) leaves h raw e g d =
      let (raw', rest, d', _, split) = decode_leaves_cons i x hs leaves e in
      let here : x ≡ h = ground arith in
      let same : raw' ≡ raw = cc (d', d, ap c.decode_string here) in rw (split, same) refl
  get_elem?-decode_leaves i (suc j) (x ∷ hs) leaves h raw e g d =
      let (raw', rest, _, e', split) = decode_leaves_cons i x hs leaves e in
      rw split (get_elem?-decode_leaves (i + 1) j hs rest h raw e' g d)

  -- What stands behind a root: the chunk hashes of the bytes, the leaves over them, and their root.
  pub record IsBuilt (bytes : Bytes) (root : String) (hashes : List String) : Type 0 where
    pub count : ℕ
    pub leaves : List Bytes
    pub top : Bytes
    pub counted : count ≡ (length bytes + default_chunk_size - 1) / default_chunk_size
    pub hashed : hashes ≡ chunk_hash_loop c default_chunk_size count 0 bytes
    pub decoded : decode_leaves c 0 hashes ≡ ok leaves
    pub rooted : root_of c leaves ≡ ok top
    pub named : c.encode_to_string top ≡ root

  tree_steps :
      (hashes : List String) (root : String)
      → tree_from_chunk_hashes c hashes ≡ ok root
      → (leaves : List Bytes) × (top : Bytes) × (decode_leaves c 0 hashes ≡ ok leaves)
        × (root_of c leaves ≡ ok top)
        × (c.encode_to_string top ≡ root)
  unfolding tree_from_chunk_hashes
  tree_steps [] root h = cc
  tree_steps (x ∷ xs) root h = elim (Result-cases (decode_leaves c 0 (x ∷ xs))) [
    | inr (e, bad) ↦ absurd (ground arith)
    | inl (leaves, fine) ↦ elim (Result-cases (root_of c leaves)) [
      | inr (e, bad) ↦ absurd (ground arith)
      | inl (top, good) ↦ (leaves, top, fine, good, ground arith)
    ]
  ]

  build_steps :
      (bytes : Bytes) (root : String) (hashes : List String)
      → build_merkle_tree c bytes ≡ ok (root, hashes)
      → let count = (length bytes + default_chunk_size - 1) / default_chunk_size in
        (hashes ≡ chunk_hash_loop c default_chunk_size count 0 bytes)
        × (tree_from_chunk_hashes c hashes ≡ ok root)
  unfolding build_merkle_tree
  build_steps bytes root hashes h =
      let count = (length bytes + default_chunk_size - 1) / default_chunk_size in
      let hs = chunk_hash_loop c default_chunk_size count 0 bytes in
      elim (Result-cases (tree_from_chunk_hashes c hs)) [
        | inr (e, bad) ↦ absurd (ground arith)
        | inl (r, fine) ↦
            let same : hs ≡ hashes = ground arith in
            let top : r ≡ root = ground arith in (sym same, rw (← same, ← top) fine)
      ]

  pub build_merkle_tree-IsBuilt :
      (bytes : Bytes) (root : String) (hashes : List String)
      → build_merkle_tree c bytes ≡ ok (root, hashes)
      → IsBuilt bytes root hashes
  build_merkle_tree-IsBuilt bytes root hashes h =
      let (hashed, tree) = build_steps bytes root hashes h in
      let (leaves, top, decoded, rooted, named) = tree_steps hashes root tree in
      record {
        count = (length bytes + default_chunk_size - 1) / default_chunk_size;
        leaves = leaves;
        top = top;
        counted = refl;
        hashed = hashed;
        decoded = decoded;
        rooted = rooted;
        named = named;
      }
