-- ===== src/Merkle/Collision.antt =====
-- What a collision of the hash function is, and what equal hashes of leaves and pairs mean without
-- one.
use native.Mathlib.Decide.{ℕ_discrete}
use subnet_benchmark.Prelude.{
  ℕ, ◌≡◌, ◌≢◌, sym, ap, ◌∙◌, ◌⊎◌, inl, inr, List, ◌++◌, length, length-append, arith,
}
use subnet_benchmark.Merkle.Hash.{Hash, Leaf, hash_pair, hash_leaf, encode_leaf}
use subnet_benchmark.Merkle.Encoding.{append_inj, IsWellFormed, encode_leaf_inj}

pub bytes_discrete : Discrete (List ℕ)
bytes_discrete = hlevel ℕ_discrete

-- Two texts with one hash.
abbrev pub Collision : (List ℕ → Hash) → Type 0
Collision keccak256 = (x : List ℕ) × (y : List ℕ) × (x ≢ y) × (keccak256 x ≡ keccak256 y)

module _ (keccak256 : List ℕ → Hash) where
  pub same_hash : (x y : List ℕ) → keccak256 x ≡ keccak256 y → (x ≡ y) ⊎ Collision keccak256
  same_hash x y e = elim (bytes_discrete x y) [ yes p ↦ inl p | no p ↦ inr (x, y, p, e) ]

  -- A pair's hash is the hash of the two in one order or the other.
  pub hash_pair_cases :
      (a b : Hash)
      → (hash_pair keccak256 a b ≡ keccak256 (a ++ b))
        ⊎ (hash_pair keccak256 a b ≡ keccak256 (b ++ a))
  unfolding hash_pair
  hash_pair_cases a b = ground arith

  pub same_append :
      (a b x y : Hash)
      → length a ≡ length x
      → keccak256 (a ++ b) ≡ keccak256 (x ++ y)
      → ((a ≡ x) × (b ≡ y)) ⊎ Collision keccak256
  same_append a b x y h e = elim (same_hash (a ++ b) (x ++ y) e) [
    | inl p ↦ inl (append_inj a x h p)
    | inr c ↦ inr c
  ]

  abbrev pub SamePair : Hash → Hash → Hash → Hash → Type 0
  SamePair a b x y = ((a ≡ x) × (b ≡ y)) ⊎ ((a ≡ y) × (b ≡ x))

  -- Pairs of 32-byte hashes with one hash are the same pair, or show a collision.
  pub same_pair :
      (a b x y : Hash)
      → length a ≡ 32
      → length b ≡ 32
      → length x ≡ 32
      → length y ≡ 32
      → hash_pair keccak256 a b ≡ hash_pair keccak256 x y
      → SamePair a b x y ⊎ Collision keccak256
  same_pair a b x y ha hb hx hy e = elim (hash_pair_cases a b) [
    | inl p ↦ elim (hash_pair_cases x y) [
      | inl q ↦ straight (same_append a b x y (omega arith) (sym p ∙ e ∙ q))
      | inr q ↦ crossed (same_append a b y x (omega arith) (sym p ∙ e ∙ q))
    ]
    | inr p ↦ elim (hash_pair_cases x y) [
      | inl q ↦ twisted (same_append b a x y (omega arith) (sym p ∙ e ∙ q))
      | inr q ↦ reversed (same_append b a y x (omega arith) (sym p ∙ e ∙ q))
    ]
  ]
    where
      straight : ((a ≡ x) × (b ≡ y)) ⊎ Collision keccak256 → SamePair a b x y ⊎ Collision keccak256
      straight (inl s) = inl (inl s)
      straight (inr c) = inr c

      crossed : ((a ≡ y) × (b ≡ x)) ⊎ Collision keccak256 → SamePair a b x y ⊎ Collision keccak256
      crossed (inl s) = inl (inr s)
      crossed (inr c) = inr c

      twisted : ((b ≡ x) × (a ≡ y)) ⊎ Collision keccak256 → SamePair a b x y ⊎ Collision keccak256
      twisted (inl s) = inl (inr (s.1, s.0))
      twisted (inr c) = inr c

      reversed : ((b ≡ y) × (a ≡ x)) ⊎ Collision keccak256 → SamePair a b x y ⊎ Collision keccak256
      reversed (inl s) = inl (inl (s.1, s.0))
      reversed (inr c) = inr c

  -- A pair's text has 64 bytes, so it is no text of 32.
  pub pair_not_short :
      (a b : Hash) (x : List ℕ)
      → length a ≡ 32
      → length b ≡ 32
      → length x ≡ 32
      → hash_pair keccak256 a b ≡ keccak256 x
      → Collision keccak256
  pair_not_short a b x ha hb hx e = elim (hash_pair_cases a b) [
    | inl p ↦ (a ++ b, x, (λ s. omega (arith, ap length s, length-append {0} a b)), sym p ∙ e)
    | inr p ↦ (b ++ a, x, (λ s. omega (arith, ap length s, length-append {0} b a)), sym p ∙ e)
  ]

  -- Leaves with one hash are one leaf, or show a collision.
  pub same_leaf :
      (a b : Leaf)
      → IsWellFormed a
      → IsWellFormed b
      → hash_leaf keccak256 a ≡ hash_leaf keccak256 b
      → (a ≡ b) ⊎ Collision keccak256
  unfolding hash_leaf
  same_leaf a b wa wb e =
      elim (same_hash (keccak256 (encode_leaf a)) (keccak256 (encode_leaf b)) e) [
        | inr c ↦ inr c
        | inl p ↦ elim (same_hash (encode_leaf a) (encode_leaf b) p) [
          | inr c ↦ inr c
          | inl q ↦ inl (encode_leaf_inj a b wa wb q)
        ]
      ]
