-- ===== src/Merkle/Proof.antt =====
-- `computeMerkleProof` against the root of the same leaves: the verifier's climb succeeds.
use obsideo_provider.Base.{
  ℕ, zero, suc, ◌≡◌, refl, List, [], ◌∷◌, ◌++◌, some, String, arith, length, get_elem?, ok,
}
use obsideo_provider.Merkle.Codec.{Bytes, Codec, CodecLaws}
use obsideo_provider.Merkle.Tree.{pad_leaves, root_of, compute_merkle_proof}
use obsideo_provider.Merkle.Pow2.{lt-pow2, next_pow2-IsNextPow2, length-pad_leaves}
use obsideo_provider.Merkle.Perfect.{climb, Climbs, perfect-Climbs}

pub get_elem?-append {ℓ} :
    {A : Type ℓ} (xs ys : List A) (i : ℕ) (a : A)
    → get_elem? xs i ≡ some a
    → get_elem? (xs ++ ys) i ≡ some a
get_elem?-append [] ys i a g = cc
get_elem?-append (x ∷ xs) ys zero a g = g
get_elem?-append (x ∷ xs) ys (suc i) a g = get_elem?-append xs ys i a g

-- The root, the proof and the climb for one leaf.
pub record Proves (c : Codec) (leaves : List Bytes) (i : ℕ) (leaf : Bytes) : Type 0 where
  pub root : Bytes
  pub siblings : List String
  pub has_root : root_of c leaves ≡ ok root
  pub has_proof : compute_merkle_proof c leaves i ≡ ok siblings
  pub verifies : climb c leaf i siblings ≡ some root

module _ (c : Codec) (laws : CodecLaws c) where
  padded-Climbs :
      (leaves : List Bytes) (i : ℕ) (leaf : Bytes)
      → get_elem? leaves i ≡ some leaf
      → Climbs c laws (length (pad_leaves leaves)) (pad_leaves leaves) i leaf
  padded-Climbs leaves i leaf g =
      let pow = next_pow2-IsNextPow2 (length leaves) in
      let size = length-pad_leaves leaves in
      perfect-Climbs c laws pow.exponent (length (pad_leaves leaves)) (pad_leaves leaves) i leaf
        (omega (arith, lt-pow2 pow.exponent, pow.is_power)) (omega (arith, pow.is_power))
        (unfold pad_leaves in get_elem?-append leaves _ i leaf g)

  -- For every leaf of every non-empty list of leaves, `root_of` and `compute_merkle_proof` succeed,
  -- and folding the proof's siblings into the leaf by its index gives the root.
  pub compute_merkle_proof-Proves :
      (leaves : List Bytes) (i : ℕ) (leaf : Bytes)
      → get_elem? leaves i ≡ some leaf
      → Proves c leaves i leaf
  unfolding root_of compute_merkle_proof climb
  compute_merkle_proof-Proves [] i leaf g = cc
  compute_merkle_proof-Proves (a ∷ []) zero leaf g = record {
    root = a;
    siblings = [];
    has_root = refl;
    has_proof = refl;
    verifies = cc;
  }
  compute_merkle_proof-Proves (a ∷ []) (suc i) leaf g = cc
  compute_merkle_proof-Proves (a ∷ b ∷ rest) i leaf g =
      let up = padded-Climbs (a ∷ b ∷ rest) i leaf g in
      record {
        root = up.root;
        siblings = up.siblings;
        has_root = up.reduces;
        has_proof = ground (arith, up.collects);
        verifies = up.climbs;
      }
