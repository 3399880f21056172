-- ===== src/Merkle/Perfect.antt =====
-- Levels of a perfect tree: the loops over them end, and the siblings of a node lead to the root.
use native.Mathlib.Nat.{pow-suc}
use obsideo_provider.Base.{
  ℕ, zero, suc, ◌+◌, ◌-◌, ◌*◌, ◌/◌, ◌%◌, ◌^◌, ◌≤◌, ◌<◌, ◌≡◌, refl, ap, inl, inr, List, [], ◌∷◌,
  ◌++◌, Option, none, some, String, arith, ◌==◌, Bool-cases, if◌then◌else◌, length, get_elem?, ok,
}
use obsideo_provider.Merkle.Codec.{Bytes, Codec, CodecLaws}
use obsideo_provider.Merkle.Tree.{pair_level, reduce, sibling_loop, or_panic}
use obsideo_provider.Merkle.Pow2.{lt-pow2}

-- The verifier's side: from a node and its index on a level, the root that the siblings lead to.
unfoldable pub climb : Codec → Bytes → ℕ → List String → Option Bytes
climb c node idx [] = some node
climb c node idx (s ∷ ss) = elim (c.decode_string s) [
  | none ↦ none
  | some sibling ↦
      climb c (c.sha3_512 (if idx % 2 == 0 then node ++ sibling else sibling ++ node)) (idx / 2) ss
]

module _ (c : Codec) where
  pub record Pairs (level : List Bytes) (m : ℕ) : Type 0 where
    pub next : List Bytes
    pub paired : pair_level c level ≡ some next
    pub halved : length next ≡ m
    pub parents :
        (j : ℕ) (a b : Bytes)
        → get_elem? level (2 * j) ≡ some a
        → get_elem? level (2 * j + 1) ≡ some b
        → get_elem? next j ≡ some (c.sha3_512 (a ++ b))

  -- An even level has a next level of half its length, and each node is the hash of its children.
  pub pair_level-Pairs : (m : ℕ) (level : List Bytes) → length level ≡ 2 * m → Pairs level m
  unfolding pair_level
  pair_level-Pairs zero [] e = record {
    next = [];
    paired = refl;
    halved = refl;
    parents = λ j a b p q. cc;
  }
  pair_level-Pairs (suc m) [] e = absurd (omega arith)
  pair_level-Pairs zero (x ∷ level) e = absurd (omega arith)
  pair_level-Pairs (suc m) (x ∷ []) e = absurd (omega arith)
  pair_level-Pairs (suc m) (x ∷ y ∷ rest) e =
      let ih = pair_level-Pairs m rest (omega arith) in
      record {
        next = c.sha3_512 (x ++ y) ∷ ih.next;
        paired = rw ih.paired;
        halved = ap suc ih.halved;
        parents = step ih.next ih.parents;
      }
    where
      step :
          (next : List Bytes)
          → ((j : ℕ) (a b : Bytes)
              → get_elem? rest (2 * j) ≡ some a
              → get_elem? rest (2 * j + 1) ≡ some b
              → get_elem? next j ≡ some (c.sha3_512 (a ++ b)))
          → (j : ℕ) (a b : Bytes) → get_elem? (x ∷ y ∷ rest) (2 * j) ≡ some a
          → get_elem? (x ∷ y ∷ rest) (2 * j + 1) ≡ some b
          → get_elem? (c.sha3_512 (x ++ y) ∷ next) j ≡ some (c.sha3_512 (a ++ b))
      step next ih zero a b p q = cc
      step next ih (suc j) a b p q =
          let left : 2 * suc j ≡ suc (suc (2 * j)) = omega arith in
          let right : 2 * suc j + 1 ≡ suc (suc (2 * j + 1)) = omega arith in
          ih j a b (rw left at p) (rw right at q)

-- Below the length there is an element.
pub get_elem?-lt {ℓ} :
    {A : Type ℓ} (xs : List A) (i : ℕ) → i < length xs → (a : A) × (get_elem? xs i ≡ some a)
get_elem?-lt [] i h = absurd (omega arith)
get_elem?-lt (x ∷ xs) zero h = (x, refl)
get_elem?-lt (x ∷ xs) (suc i) h = get_elem?-lt xs i (omega arith)

get_elem?-some {ℓ} :
    {A : Type ℓ} (xs : List A) (i : ℕ) (a : A) → get_elem? xs i ≡ some a → i < length xs
get_elem?-some [] i a g = cc
get_elem?-some (x ∷ xs) zero a g = omega arith
get_elem?-some (x ∷ xs) (suc i) a g = omega (arith, get_elem?-some xs i a g)

module _ (c : Codec) (laws : CodecLaws c) where
  pub record Climbs (fuel : ℕ) (level : List Bytes) (i : ℕ) (node : Bytes) : Type 0 where
    pub root : Bytes
    pub siblings : List String
    pub reduces : reduce c fuel level ≡ ok root
    pub collects : sibling_loop c fuel level i ≡ ok siblings
    pub climbs : climb c node i siblings ≡ some root

  -- One level up: what holds of the parent on the next level gives it of the node.
  climb_level :
      (fuel i : ℕ) (a b node sibling joined : Bytes) (rest next : List Bytes)
      → pair_level c (a ∷ b ∷ rest) ≡ some next
      → get_elem? (a ∷ b ∷ rest) (if i % 2 == 0 then i + 1 else i - 1) ≡ some sibling
      → (if i % 2 == 0 then node ++ sibling else sibling ++ node) ≡ joined
      → Climbs fuel next (i / 2) (c.sha3_512 joined)
      → Climbs (suc fuel) (a ∷ b ∷ rest) i node
  unfolding reduce sibling_loop climb or_panic
  climb_level fuel i a b node sibling joined rest next p g join above = record {
    root = above.root;
    siblings = c.encode_to_string sibling ∷ above.siblings;
    reduces = rw (p, reduce) above.reduces;
    collects = rw (g, or_panic, p, above.collects);
    climbs = rw (laws.decode-encode sibling, climb, join) above.climbs;
  }

  -- On a level of 2 ^ k nodes, with k rounds, both loops end, and the siblings collected for a
  -- node lead from it to the root.
  pub perfect-Climbs :
      (k fuel : ℕ) (level : List Bytes) (i : ℕ) (node : Bytes)
      → k ≤ fuel
      → length level ≡ 2 ^ k
      → get_elem? level i ≡ some node
      → Climbs fuel level i node
  unfolding reduce sibling_loop climb
  perfect-Climbs k fuel [] i node f e g = absurd (omega (arith, lt-pow2 k))
  perfect-Climbs k fuel (a ∷ []) zero node f e g = record {
    root = a;
    siblings = [];
    reduces = refl;
    collects = refl;
    climbs = cc;
  }
  perfect-Climbs k fuel (a ∷ []) (suc i) node f e g = cc
  perfect-Climbs zero fuel (a ∷ b ∷ rest) i node f e g = absurd (omega arith)
  perfect-Climbs (suc k) zero (a ∷ b ∷ rest) i node f e g = absurd (omega arith)
  perfect-Climbs (suc k) (suc fuel) (a ∷ b ∷ rest) i node f e g =
      let level : List Bytes = a ∷ b ∷ rest in
      let pairs = pair_level-Pairs c (2 ^ k) level (omega (arith, pow-suc 2 k)) in
      let inside = get_elem?-some level i node g in
      let up = λ (parent : Bytes) (h : get_elem? pairs.next (i / 2) ≡ some parent).
        perfect-Climbs k fuel pairs.next (i / 2) parent (omega arith) pairs.halved h in
      elim (Bool-cases (i % 2 == 0)) [
        | inl left ↦
            let at : 2 * (i / 2) ≡ i = ground arith in
            let (sibling, h) = get_elem?-lt level (i + 1) (ground (arith, pow-suc 2 k)) in
            climb_level fuel i a b node sibling (node ++ sibling) rest pairs.next pairs.paired
              (rw left h) (rw left) (up _ (pairs.parents (i / 2) node sibling (rw at g) (rw at h)))
        | inr right ↦
            let at : 2 * (i / 2) + 1 ≡ i = ground arith in
            let before : 2 * (i / 2) ≡ i - 1 = ground arith in
            let (sibling, h) = get_elem?-lt level (i - 1) (ground arith) in
            climb_level fuel i a b node sibling (sibling ++ node) rest pairs.next pairs.paired
              (rw right h) (rw right)
              (up _ (pairs.parents (i / 2) sibling node (rw before h) (rw at g)))
      ]
