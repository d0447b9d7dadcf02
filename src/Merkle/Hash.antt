-- ===== src/Merkle/Hash.antt =====
-- Hashes, their order, and the hashes of leaves and pairs (HashLeaf, hashPair, compareHashes).
use Prim.Native.Nat.{Ordering}
use subnet_benchmark.Prelude.{
  ℕ, zero, suc, ◌/◌, ◌%◌, Bool, true, false, List, [], ◌∷◌, ◌++◌, ltb, ◌==◌, replicate,
  if◌then◌else◌,
}

abbrev pub Hash : Type 0
Hash = List ℕ

pub record Leaf : Type 0 where
  pub address : List ℕ
  pub amount : ℕ

-- The 32 bytes of the hash are compared in order; the first that differ decide. Two hashes have
-- the same length, so the clauses for unequal lengths are not met.
unfoldable pub compare_hashes : Hash → Hash → Ordering
compare_hashes [] [] = Ordering.eq
compare_hashes [] (y ∷ ys) = Ordering.lt
compare_hashes (x ∷ xs) [] = Ordering.gt
compare_hashes (x ∷ xs) (y ∷ ys) =
    let rest = compare_hashes xs ys in
    if ltb x y then Ordering.lt else if ltb y x then Ordering.gt else rest

-- The low `k` bytes of a number, big-endian.
unfoldable pub big_endian : ℕ → ℕ → List ℕ
big_endian zero n = []
big_endian (suc k) n = big_endian k (n / 256) ++ (n % 256) ∷ []

-- abi.encode(address, uint256): each left-padded to 32 bytes.
unfoldable pub encode_leaf : Leaf → List ℕ
unfolding big_endian
encode_leaf leaf = replicate 12 0 ++ leaf.address ++ big_endian 32 leaf.amount

-- compareHashes(a, b) > 0
abbrev pub is_gt : Ordering → Bool
is_gt Ordering.gt = true
is_gt _ = false

module _ (keccak256 : List ℕ → Hash) where
  unfoldable pub hash_leaf : Leaf → Hash
  unfolding encode_leaf
  hash_leaf leaf = keccak256 (keccak256 (encode_leaf leaf))

  unfoldable pub hash_pair : Hash → Hash → Hash
  unfolding compare_hashes
  hash_pair a b = if is_gt (compare_hashes a b) then keccak256 (b ++ a) else keccak256 (a ++ b)

-- Equality of two hashes, Go's `==` on arrays.
unfoldable pub hash_eq : Hash → Hash → Bool
hash_eq [] [] = true
hash_eq [] (y ∷ ys) = false
hash_eq (x ∷ xs) [] = false
hash_eq (x ∷ xs) (y ∷ ys) = let rest = hash_eq xs ys in if x == y then rest else false
