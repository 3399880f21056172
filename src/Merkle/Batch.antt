-- ===== src/Merkle/Batch.antt =====
-- `BuildMerkleTree` of store/merkle.go and `buildIndex` of store/store.go: the whole object in
-- memory, cut into chunks by index.
use mathlib.Core.List.{flatten, append-nil, append_assoc}
use obsideo_provider.Base.{
  ℕ, zero, suc, ◌+◌, ◌-◌, ◌*◌, ◌/◌, ◌<◌, ◌≡◌, refl, sym, ap, ◌∙◌, ◌⊎◌, inl, inr, ◌≤◌, List, [], ◌∷◌,
  ◌++◌, String, false, arith, ltb, ◌==◌, if◌then◌else◌, length, length-append, take, drop, Result,
  ok, err, ◌>>=◌,
}
use obsideo_provider.Merkle.Codec.{Bytes, Codec}
use obsideo_provider.Merkle.Tree.{MerkleError, empty_data, tree_from_chunk_hashes}

-- 1 MiB
abbrev pub default_chunk_size : ℕ
default_chunk_size = 1024 * 1024

pub record Index : Type 0 where
  pub chunk_size : ℕ
  pub total_chunks : ℕ
  pub chunk_hashes : List String

module _ (c : Codec) where
  -- hex of sha256(fmt.Sprintf("%d%x", i, chunk))
  unfoldable pub chunk_hash_text : ℕ → Bytes → String
  chunk_hash_text i chunk = c.encode_to_string (c.sha256 (c.itoa i ++ c.hex_encode chunk))

  -- The loop over the chunks: `rounds` left, `i` the next index.
  unfoldable pub chunk_hash_loop : ℕ → ℕ → ℕ → Bytes → List String
  chunk_hash_loop size zero i bytes = []
  chunk_hash_loop size (suc rounds) i bytes =
      let start = i * size in
      let end = if ltb (length bytes) (start + size) then length bytes else start + size in
      chunk_hash_text i (take (end - start) (drop start bytes))
      ∷ chunk_hash_loop size rounds (i + 1) bytes

  unfoldable pub build_merkle_tree : Bytes → Result MerkleError (String × List String)
  build_merkle_tree bytes =
      let chunk_count = (length bytes + default_chunk_size - 1) / default_chunk_size in
      let hashes = chunk_hash_loop default_chunk_size chunk_count 0 bytes in
      if length bytes == 0
      then err empty_data
      else (tree_from_chunk_hashes c hashes >>= λ root. ok (root, hashes))

  -- An empty object has one, empty, chunk here.
  unfoldable pub build_index : Bytes → ℕ → Index
  build_index bytes size =
      let count = (length bytes + size - 1) / size in
      let total = if count == 0 then 1 else count in
      record {
        chunk_size = size;
        total_chunks = total;
        chunk_hashes = chunk_hash_loop size total 0 bytes;
      }

  -- The hashes of chunks that are given one by one, numbered from `i`.
  unfoldable pub hash_all : ℕ → List Bytes → List String
  hash_all i [] = []
  hash_all i (chunk ∷ chunks) = chunk_hash_text i chunk ∷ hash_all (i + 1) chunks

abbrev pub AllOf : ℕ → List Bytes → Type 0
AllOf size [] = Unit {0}
AllOf size (x ∷ xs) = (length x ≡ size) × AllOf size xs

-- The last, shorter chunk, if there is one.
abbrev pub last_chunk : Bytes → List Bytes
last_chunk [] = []
last_chunk (x ∷ xs) = (x ∷ xs) ∷ []

drop-append : (xs ys : Bytes) (n : ℕ) → length xs ≡ n → drop n (xs ++ ys) ≡ ys
drop-append [] ys zero e = refl
drop-append [] ys (suc n) e = absurd (omega arith)
drop-append (x ∷ xs) ys zero e = absurd (omega arith)
drop-append (x ∷ xs) ys (suc n) e = drop-append xs ys n (omega arith)

take-append : (xs ys : Bytes) (n : ℕ) → length xs ≡ n → take n (xs ++ ys) ≡ xs
take-append [] ys zero e = refl
take-append [] ys (suc n) e = absurd (omega arith)
take-append (x ∷ xs) ys zero e = absurd (omega arith)
take-append (x ∷ xs) ys (suc n) e = ap (◌∷◌ x) (take-append xs ys n (omega arith))

slice_lem :
    (before chunk rest : Bytes) (start n : ℕ)
    → length before ≡ start
    → length chunk ≡ n
    → take n (drop start (before ++ (chunk ++ rest))) ≡ chunk
slice_lem before chunk rest start n e f =
    rw (drop-append before (chunk ++ rest) start e) (take-append chunk rest n f)

-- The chunk ends where the chunk size or the object does.
chunk_end :
    (size start total n : ℕ)
    → (n ≡ size) × (start + size ≤ total) ⊎ (n < size) × (total ≡ start + n)
    → n ≡ (if ltb total (start + size) then total else start + size) - start
chunk_end size start total n h = ground arith

module _ (c : Codec) (size : ℕ) where
  abbrev Round : ℕ → ℕ → Bytes → Bytes → Bytes → Type 0
  Round rounds i before chunk rest =
      chunk_hash_loop c size (suc rounds) i (before ++ (chunk ++ rest))
      ≡ chunk_hash_text c i chunk
        ∷ chunk_hash_loop c size rounds (i + 1) (before ++ (chunk ++ rest))

  round :
      (rounds i : ℕ) (before chunk rest : Bytes)
      → length before ≡ i * size
      → (length chunk ≡ size) ⊎ ((length chunk < size) × (rest ≡ []))
      → Round rounds i before chunk rest
  unfolding chunk_hash_loop
  round rounds i before chunk rest b h =
      let all = before ++ (chunk ++ rest) in
      let sizes : length all ≡ i * size + (length chunk + length rest) =
        omega (arith, length-append before (chunk ++ rest), length-append chunk rest) in
      ap (λ x. chunk_hash_text c i x ∷ chunk_hash_loop c size rounds (i + 1) all)
        (slice_lem before chunk rest (i * size) _ b (
          chunk_end size (i * size) (length all) (length chunk) (elim h [
            | inl e ↦ inl (e, omega arith)
            | inr e ↦ inr (e.0, omega (arith, ap length e.1))
          ])))

  -- The loop hashes the chunks into which the object is cut.
  pub chunk_hash_loop-hash_all :
      (full : List Bytes) (tail before : Bytes) (i : ℕ)
      → length before ≡ i * size
      → AllOf size full
      → length tail < size
      → chunk_hash_loop c size
          (length full + length (last_chunk tail))
          i
          (before ++ (flatten full ++ tail))
        ≡ hash_all c i (full ++ last_chunk tail)
  unfolding hash_all flatten
  chunk_hash_loop-hash_all [] [] before i b a s = unfold chunk_hash_loop in refl
  chunk_hash_loop-hash_all [] (x ∷ xs) before i b a s =
      ap (λ t. chunk_hash_loop c size 1 i (before ++ t)) (sym (append-nil (x ∷ xs)))
      ∙ (unfold chunk_hash_loop in round 0 i before (x ∷ xs) [] b (inr (s, refl)))
  chunk_hash_loop-hash_all (x ∷ full) tail before i b a s =
      let rounds = length full + length (last_chunk tail) in
      let more : suc (length full) + length (last_chunk tail) ≡ suc rounds = omega arith in
      let ih =
        chunk_hash_loop-hash_all full tail (before ++ x) (i + 1)
          (omega (arith, length-append before x)) a.1 s in
      rw (more, append_assoc x (flatten full) tail)
        (round rounds i before x (flatten full ++ tail) b (inl a.0)
          ∙ ap (λ r. chunk_hash_text c i x ∷ r)
              (ap (chunk_hash_loop c size rounds (i + 1))
                  (sym (append_assoc before x (flatten full ++ tail)))
                ∙ ih))

length-flatten :
    (size : ℕ) (full : List Bytes) → AllOf size full → length (flatten full) ≡ length full * size
unfolding flatten
length-flatten size [] a = omega arith
length-flatten size (x ∷ full) a =
    omega (arith, length-append x (flatten full), length-flatten size full a.1)

-- How many chunks there are.
pub chunk_count_lem :
    (full : List Bytes) (tail : Bytes)
    → AllOf default_chunk_size full
    → length tail < default_chunk_size
    → (length (flatten full ++ tail) + default_chunk_size - 1) / default_chunk_size
      ≡ length full + length (last_chunk tail)
chunk_count_lem full [] a s =
    omega (arith, length-append (flatten full) [], length-flatten default_chunk_size full a)
chunk_count_lem full (x ∷ xs) a s =
    omega (arith, length-append (flatten full) (x ∷ xs), length-flatten default_chunk_size full a)

-- The whole object as `BuildMerkleTree` cuts it.
pub build_merkle_tree_cut :
    (c : Codec) (full : List Bytes) (tail : Bytes)
    → AllOf default_chunk_size full
    → length tail < default_chunk_size
    → 0 < length (flatten full ++ tail)
    → build_merkle_tree c (flatten full ++ tail) ≡ (
        let hashes = hash_all c 0 (full ++ last_chunk tail) in
        tree_from_chunk_hashes c hashes >>= λ root. ok (root, hashes))
unfolding build_merkle_tree
build_merkle_tree_cut c full tail a s nonempty =
    let some_bytes : (length (flatten full ++ tail) == 0) ≡ false = ground arith in
    rw (
      some_bytes,
      chunk_count_lem full tail a s,
      chunk_hash_loop-hash_all c default_chunk_size full tail [] 0 (omega arith) a s,
    )
