-- ===== src/Merkle/StreamLaws.antt =====
-- The streaming builder computes what `BuildMerkleTree` computes on all the bytes written.
use mathlib.Core.List.{flatten, append-nil, append_assoc}
use obsideo_provider.Base.{
  ℕ, zero, suc, ◌+◌, ◌/◌, ◌≤◌, ◌<◌, ◌≡◌, refl, sym, ap, ap₂, subst, ◌∙◌, inl, inr, List, [], ◌∷◌,
  ◌++◌, String, Option, none, some, false, arith, ltb, ◌==◌, if◌then◌else◌, length, length-append,
  take, drop, take-append-drop, length-take, length-drop, Result, ok, ◌>>=◌, Bool-cases,
}
use obsideo_provider.Merkle.Codec.{Bytes, Codec, CodecLaws}
use obsideo_provider.Merkle.Tree.{MerkleError, tree_from_chunk_hashes}
use obsideo_provider.Merkle.Batch.{
  default_chunk_size, chunk_hash_text, hash_all, AllOf, last_chunk, build_merkle_tree,
  build_merkle_tree_cut,
}
use obsideo_provider.Merkle.Stream.{
  TreeBuilder, new_tree_builder, hex_scratch_len, write_hex, finish_chunk, start_chunk, segment_len,
  write_segment, write_loop, write, write_all, finish,
}

-- The running hash inside a chunk: nil between chunks, else the index and the bytes in hex.
unfoldable pub running_of : Codec → ℕ → Bytes → Option Bytes
running_of c n [] = none
running_of c n (x ∷ xs) = some (c.itoa n ++ c.hex_encode (x ∷ xs))

-- What the builder holds after the bytes `written`: the full chunks are hashed, the rest is in the
-- running hash.
pub record Represents (c : Codec) (b : TreeBuilder) (written : Bytes) : Type 0 where
  pub full : List Bytes
  pub tail : Bytes
  pub split : written ≡ flatten full ++ tail
  pub all_full : AllOf default_chunk_size full
  pub short : length tail < default_chunk_size
  pub hashes : b.chunk_hashes ≡ hash_all c 0 full
  pub running : b.chunk_hash ≡ running_of c (length full) tail
  pub fill : b.chunk_fill ≡ length tail
  pub total : b.total ≡ length written

running_of_nonempty :
    (c : Codec) (n : ℕ) (xs : Bytes)
    → 0 < length xs
    → running_of c n xs ≡ some (c.itoa n ++ c.hex_encode xs)
unfolding running_of
running_of_nonempty c n [] h = absurd (omega arith)
running_of_nonempty c n (x ∷ xs) h = refl

AllOf-append :
    (xs : List Bytes) (y : Bytes)
    → AllOf default_chunk_size xs
    → length y ≡ default_chunk_size
    → AllOf default_chunk_size (xs ++ y ∷ [])
AllOf-append [] y a e = (e, tt)
AllOf-append (x ∷ xs) y a e = (a.0, AllOf-append xs y a.1 e)

hash_all-append :
    (c : Codec) (i j : ℕ) (xs : List Bytes) (y : Bytes)
    → i + length xs ≡ j
    → hash_all c i (xs ++ y ∷ []) ≡ hash_all c i xs ++ chunk_hash_text c j y ∷ []
unfolding hash_all
hash_all-append c i j [] y e = let here : i ≡ j = omega arith in rw here
hash_all-append c i j (x ∷ xs) y e =
    ap (◌∷◌ (chunk_hash_text c i x)) (hash_all-append c (i + 1) j xs y (omega arith))

flatten-append : (xs : List Bytes) (y : Bytes) → flatten (xs ++ y ∷ []) ≡ flatten xs ++ y
unfolding flatten
flatten-append [] y = append-nil y
flatten-append (x ∷ xs) y = ap (◌++◌ x) (flatten-append xs y) ∙ sym (append_assoc x (flatten xs) y)

length-hash_all : (c : Codec) (i : ℕ) (xs : List Bytes) → length (hash_all c i xs) ≡ length xs
unfolding hash_all
length-hash_all c i [] = refl
length-hash_all c i (x ∷ xs) = ap suc (length-hash_all c (i + 1) xs)

pub new-Represents : (c : Codec) → Represents c new_tree_builder []
unfolding new_tree_builder running_of hash_all flatten
new-Represents c = record {
  full = [];
  tail = [];
  split = refl;
  all_full = tt;
  short = omega arith;
  hashes = refl;
  running = refl;
  fill = refl;
  total = refl;
}

module _ (c : Codec) (laws : CodecLaws c) where
  -- The pieces written to the hash are the whole segment in hex.
  write_hex_lem :
      (fuel : ℕ) (running seg : Bytes)
      → length seg ≤ fuel
      → write_hex c fuel running seg ≡ running ++ c.hex_encode seg
  unfolding write_hex
  write_hex_lem zero running [] h = rw laws.encode-nil (sym (append-nil running))
  write_hex_lem zero running (x ∷ xs) h = absurd (omega arith)
  write_hex_lem (suc fuel) running [] h = rw laws.encode-nil (sym (append-nil running))
  write_hex_lem (suc fuel) running (x ∷ xs) h =
      let seg : Bytes = x ∷ xs in
      let half = hex_scratch_len / 2 in
      let m : ℕ = if ltb (length seg) half then length seg else half in
      let pos : 0 < m = ground arith in
      write_hex_lem fuel (running ++ c.hex_encode (take m seg)) (drop m seg)
        (omega (arith, length-drop m seg))
      ∙ append_assoc running (c.hex_encode (take m seg)) (c.hex_encode (drop m seg))
      ∙ ap (◌++◌ running) (
          sym (laws.encode-append (take m seg) (drop m seg))
          ∙ ap c.hex_encode (take-append-drop m seg))

  start_chunk_lem :
      (b : TreeBuilder) (written : Bytes) (r : Represents c b written)
      → start_chunk c b ≡ c.itoa (length r.full) ++ c.hex_encode r.tail
  start_chunk_lem b written r = go r.tail r.running
    where
      go :
          (tail : Bytes)
          → b.chunk_hash ≡ running_of c (length r.full) tail
          → start_chunk c b ≡ c.itoa (length r.full) ++ c.hex_encode tail
      go [] e =
          unfold start_chunk running_of in
          rw (e, r.hashes, length-hash_all c 0 r.full, laws.encode-nil) (sym (append-nil _))
      go (x ∷ xs) e = unfold start_chunk running_of in rw e

  module _ (b : TreeBuilder) (written seg : Bytes) (r : Represents c b written)
      (pos : 0 < length seg) (fits : length r.tail + length seg ≤ default_chunk_size) where
    abbrev fed : TreeBuilder
    fed = record b {
      chunk_hash = some (c.itoa (length r.full) ++ c.hex_encode (r.tail ++ seg));
      chunk_fill = b.chunk_fill + length seg;
      total = b.total + length seg;
    }

    -- The chunk is not full yet.
    fed-Represents :
        (length r.tail + length seg < default_chunk_size) → Represents c fed (written ++ seg)
    fed-Represents short = record {
      full = r.full;
      tail = r.tail ++ seg;
      split = rw r.split (append_assoc (flatten r.full) r.tail seg);
      all_full = r.all_full;
      short = omega (arith, length-append r.tail seg);
      hashes = r.hashes;
      running = sym (
          running_of_nonempty c (length r.full) (r.tail ++ seg)
            (omega (arith, length-append r.tail seg)));
      fill = omega (arith, r.fill, length-append r.tail seg);
      total = omega (arith, r.total, length-append written seg);
    }

    -- The chunk is full, and hashed.
    finished-Represents :
        length r.tail + length seg ≡ default_chunk_size
        → Represents c (finish_chunk c fed) (written ++ seg)
    unfolding finish_chunk running_of
    finished-Represents e = record {
      full = r.full ++ (r.tail ++ seg) ∷ [];
      tail = [];
      split = rw r.split (
          append_assoc (flatten r.full) r.tail seg
          ∙ sym (flatten-append r.full (r.tail ++ seg))
          ∙ sym (append-nil _));
      all_full = AllOf-append r.full _ r.all_full (omega (arith, length-append r.tail seg));
      short = omega arith;
      hashes = rw r.hashes (
          unfold chunk_hash_text in
          sym (hash_all-append c 0 (length r.full) r.full _ (omega arith)));
      running = refl;
      fill = refl;
      total = omega (arith, r.total, length-append written seg);
    }

  abbrev after_feed : TreeBuilder → Bytes → ℕ → TreeBuilder
  after_feed b running n =
      let b' : TreeBuilder = record b {
        chunk_hash = some running;
        chunk_fill = b.chunk_fill + n;
        total = b.total + n;
      } in
      if b'.chunk_fill == default_chunk_size then finish_chunk c b' else b'

  after_feed-Represents :
      (b : TreeBuilder) (written seg : Bytes) (r : Represents c b written)
      → 0 < length seg
      → length r.tail + length seg ≤ default_chunk_size
      → Represents c
          (after_feed b (c.itoa (length r.full) ++ c.hex_encode (r.tail ++ seg)) (length seg))
          (written ++ seg)
  after_feed-Represents b written seg r pos fits =
      elim (Bool-cases (b.chunk_fill + length seg == default_chunk_size)) [
        | inl done ↦ rw done (finished-Represents b written seg r pos fits (ground arith))
        | inr more ↦ rw more (fed-Represents b written seg r pos fits (ground arith))
      ]

  -- A round of `Write` consumes the segment.
  write_segment-Represents :
      (b : TreeBuilder) (written p : Bytes)
      → 0 < length p
      → Represents c b written
      → Represents c (write_segment c b p) (written ++ take (segment_len c b p) p)
  unfolding write_segment
  write_segment-Represents b written p pos r =
      let n = segment_len c b p in
      let seg = take n p in
      let size : length seg ≡ n = unfold segment_len in ground (arith, length-take n p) in
      let running : write_hex c (length p) (start_chunk c b) seg
          ≡ c.itoa (length r.full) ++ c.hex_encode (r.tail ++ seg) =
        write_hex_lem (length p) (start_chunk c b) seg (omega (arith, length-take n p))
        ∙ rw (start_chunk_lem b written r, laws.encode-append r.tail seg)
            (append_assoc (c.itoa (length r.full)) (c.hex_encode r.tail) (c.hex_encode seg)) in
      subst (λ b'. Represents c b' (written ++ seg)) (sym (ap₂ (after_feed b) running (sym size)))
        (after_feed-Represents b written seg r
          (unfold segment_len in ground (arith, r.fill, r.short))
          (unfold segment_len in ground (arith, r.fill, r.short)))

  write_loop-Represents :
      (fuel : ℕ) (b : TreeBuilder) (written p : Bytes)
      → length p ≤ fuel
      → Represents c b written
      → Represents c (write_loop c fuel b p) (written ++ p)
  unfolding write_loop
  write_loop-Represents zero b written [] h r = rw append-nil r
  write_loop-Represents zero b written (x ∷ xs) h r = absurd (omega arith)
  write_loop-Represents (suc fuel) b written [] h r = rw append-nil r
  write_loop-Represents (suc fuel) b written (x ∷ xs) h r =
      let p : Bytes = x ∷ xs in
      let n = segment_len c b p in
      let rest =
        write_loop-Represents fuel (write_segment c b p) (written ++ take n p) (drop n p)
          (unfold segment_len in ground (arith, length-drop n p, r.fill, r.short))
          (write_segment-Represents b written p (omega arith) r) in
      rw (append_assoc written (take n p) (drop n p), take-append-drop n p) at rest

  write_all-Represents :
      (b : TreeBuilder) (written : Bytes) (ps : List Bytes)
      → Represents c b written
      → Represents c (write_all c b ps) (written ++ flatten ps)
  unfolding write_all flatten
  write_all-Represents b written [] r = rw append-nil r
  write_all-Represents b written (p ∷ ps) r =
      let rest =
        write_all-Represents (write c b p) (written ++ p) ps
          (write_loop-Represents (length p) b written p (omega arith) r) in
      rw append_assoc at rest

  -- The chunk hashes that `Finish` passes on.
  finish_hashes :
      (b : TreeBuilder) (full : List Bytes) (tail : Bytes)
      → b.chunk_hashes ≡ hash_all c 0 full
      → b.chunk_hash ≡ running_of c (length full) tail
      → b.chunk_fill ≡ length tail
      → (let b' = if ltb 0 b.chunk_fill then finish_chunk c b else b in b'.chunk_hashes)
        ≡ hash_all c 0 (full ++ last_chunk tail)
  unfolding finish_chunk running_of chunk_hash_text
  finish_hashes b full [] h k f = ground (arith, append-nil full)
  finish_hashes b full (x ∷ xs) h k f =
      ground (arith, hash_all-append c 0 (length full) full (x ∷ xs) (omega arith))

  abbrev tree_result : List String → Result MerkleError (String × List String)
  tree_result hs = tree_from_chunk_hashes c hs >>= λ root. ok (root, hs)

  finish_nonempty :
      (b : TreeBuilder)
      → 0 < b.total
      → finish c b
        ≡ tree_result
            (let b' = if ltb 0 b.chunk_fill then finish_chunk c b else b in b'.chunk_hashes)
  unfolding finish
  finish_nonempty b h = let some_bytes : (b.total == 0) ≡ false = ground arith in rw some_bytes

  -- `Finish` on the builder of some bytes gives what `BuildMerkleTree` gives on them.
  pub finish-Represents :
      (b : TreeBuilder) (written : Bytes)
      → Represents c b written
      → finish c b ≡ build_merkle_tree c written
  finish-Represents b [] r = unfold finish build_merkle_tree in ground arith
  finish-Represents b (x ∷ xs) r =
      let nonempty : 0 < length (flatten r.full ++ r.tail) = omega (arith, ap length r.split) in
      finish_nonempty b (omega arith)
      ∙ ap tree_result (finish_hashes b r.full r.tail r.hashes r.running r.fill)
      ∙ sym (build_merkle_tree_cut c r.full r.tail r.all_full r.short nonempty)
      ∙ ap (build_merkle_tree c) (sym r.split)

-- However the bytes of an object are cut into writes, the streaming builder finishes with the same
-- root and chunk hashes, or the same error, as `BuildMerkleTree` on the object as a whole.
pub stream-eq-batch :
    (c : Codec) (laws : CodecLaws c) (ps : List Bytes)
    → finish c (write_all c new_tree_builder ps) ≡ build_merkle_tree c (flatten ps)
stream-eq-batch c laws ps =
    finish-Represents c laws _ (flatten ps)
      (write_all-Represents c laws new_tree_builder [] ps (new-Represents c))
