-- ===== src/Merkle/Pow2.antt =====
-- `nextPow2` is the least power of two that is not below its argument.
use native.Mathlib.Nat.{pow-suc}
use obsideo_provider.Base.{
  ℕ, zero, suc, ◌+◌, ◌-◌, ◌*◌, ◌^◌, ◌≤◌, ◌<◌, ◌≡◌, refl, inl, inr, arith, ltb, ltb→lt, Bool-cases,
  List, length, length-append, length-replicate, replicate,
}
use obsideo_provider.Merkle.Codec.{Bytes}
use obsideo_provider.Merkle.Tree.{double_until, next_pow2, pad_leaves, zero_leaf}

-- A power of two that is at least n and, unless it is 1, less than twice n.
pub record IsNextPow2 (n v : ℕ) : Type 0 where
  pub exponent : ℕ
  pub is_power : v ≡ 2 ^ exponent
  pub covers : n ≤ v
  pub is_least : (m : ℕ) → n ≤ 2 ^ m → v ≤ 2 ^ m

pub lt-pow2 : (k : ℕ) → k < 2 ^ k
lt-pow2 zero = omega arith
lt-pow2 (suc k) = omega (arith, lt-pow2 k, pow-suc 2 k)

pow2_mono : (a b : ℕ) → a ≤ b → 2 ^ a ≤ 2 ^ b
pow2_mono zero zero h = omega arith
pow2_mono zero (suc b) h = omega (arith, pow-suc 2 b, pow2_mono zero b (omega arith))
pow2_mono (suc a) zero h = absurd (omega arith)
pow2_mono (suc a) (suc b) h = omega (arith, pow-suc 2 a, pow-suc 2 b, pow2_mono a b (omega arith))

-- A power of two that is not below another has its exponent or a larger one.
pow2_le_double : (k m n : ℕ) → 2 ^ k < n → n ≤ 2 ^ m → 2 ^ suc k ≤ 2 ^ m
pow2_le_double k m n h g = elim (Bool-cases (ltb k m)) [
  | inl below ↦ pow2_mono (suc k) m (ground arith)
  | inr above ↦ absurd (omega (arith, pow2_mono m k (ground arith)))
]

double_until-IsNextPow2 :
    (fuel n k : ℕ)
    → n ≤ 2 ^ k + fuel
    → ((m : ℕ) → n ≤ 2 ^ m → 2 ^ k ≤ 2 ^ m)
    → IsNextPow2 n (double_until fuel n (2 ^ k))
unfolding double_until
double_until-IsNextPow2 zero n k h least = record {
  exponent = k;
  is_power = refl;
  covers = omega arith;
  is_least = least;
}
double_until-IsNextPow2 (suc fuel) n k h least =
    let double : 2 ^ k * 2 ≡ 2 ^ suc k = omega (arith, pow-suc 2 k) in
    elim (Bool-cases (ltb (2 ^ k) n)) [
      | inl more ↦
          rw (more, double_until, double)
            (double_until-IsNextPow2 fuel n (suc k) (omega (arith, pow-suc 2 k, lt-pow2 k))
              (λ m g. pow2_le_double k m n (ltb→lt _ _ more) g))
      | inr done ↦
          rw (done, double_until)
            (record { exponent = k; is_power = refl; covers = ground arith; is_least = least })
    ]

-- `next_pow2 n` is the least power of two that is not less than n.
pub next_pow2-IsNextPow2 : (n : ℕ) → IsNextPow2 n (next_pow2 n)
unfolding next_pow2
next_pow2-IsNextPow2 n =
    double_until-IsNextPow2 n n 0 (omega arith) (λ m _. pow2_mono 0 m (omega arith))

-- The padded level has a power of two of nodes, at least as many as there are leaves.
pub length-pad_leaves :
    (leaves : List Bytes) → length (pad_leaves leaves) ≡ next_pow2 (length leaves)
unfolding pad_leaves
length-pad_leaves leaves = omega (
  arith,
  length-append leaves (replicate (next_pow2 (length leaves) - length leaves) zero_leaf),
  length-replicate (next_pow2 (length leaves) - length leaves) zero_leaf,
  (next_pow2-IsNextPow2 (length leaves)).covers,
)
