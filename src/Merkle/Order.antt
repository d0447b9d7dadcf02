-- ===== src/Merkle/Order.antt =====
-- compareHashes is a total order, so a pair has one hash whichever way round it is given, and the
-- tree depends on the collection of its leaves only.
use Prim.Native.Nat.{Ordering}
use mathlib.Core.List.{cons≢nil}
use mathlib.Core.List.Perm
use native.Mathlib.Decide.{ℕ_discrete}
use subnet_benchmark.Prelude.{
  ℕ, ◌≡◌, refl, ap, true, ◌⊎◌, List, [], ◌∷◌, some, none, Perm, arith, length,
}
use subnet_benchmark.Prelude.Sort.{IsTotalOrder, sort_by-eq_of_perm}
use subnet_benchmark.Merkle.Hash.{Hash, Leaf, compare_hashes, hash_pair, hash_leaf}
use subnet_benchmark.Merkle.Tree.{hash_le, new_tree, build_layers}

hash_discrete : Discrete Hash
hash_discrete = hlevel ℕ_discrete

hashes_set : IsSet (List Hash)
hashes_set = hlevel hash_discrete

compare_hashes-eq : (a b : Hash) → compare_hashes a b ≡ Ordering.eq → a ≡ b
unfolding compare_hashes
compare_hashes-eq [] [] h = refl
compare_hashes-eq [] (y ∷ ys) h = cc
compare_hashes-eq (x ∷ xs) [] h = cc
compare_hashes-eq (x ∷ xs) (y ∷ ys) h = ground (arith, compare_hashes-eq xs ys)

compare_hashes-gt :
    (a b : Hash) → compare_hashes a b ≡ Ordering.gt → compare_hashes b a ≡ Ordering.lt
unfolding compare_hashes
compare_hashes-gt [] [] h = cc
compare_hashes-gt [] (y ∷ ys) h = cc
compare_hashes-gt (x ∷ xs) [] h = refl
compare_hashes-gt (x ∷ xs) (y ∷ ys) h = ground (arith, compare_hashes-gt xs ys)

compare_hashes-lt :
    (a b : Hash) → compare_hashes a b ≡ Ordering.lt → compare_hashes b a ≡ Ordering.gt
unfolding compare_hashes
compare_hashes-lt [] [] h = cc
compare_hashes-lt [] (y ∷ ys) h = refl
compare_hashes-lt (x ∷ xs) [] h = cc
compare_hashes-lt (x ∷ xs) (y ∷ ys) h = ground (arith, compare_hashes-lt xs ys)

hash_le_trans : (a b c : Hash) → hash_le a b ≡ true → hash_le b c ≡ true → hash_le a c ≡ true
unfolding hash_le compare_hashes
hash_le_trans [] [] c h k = k
hash_le_trans [] (y ∷ ys) [] h k = refl
hash_le_trans [] (y ∷ ys) (z ∷ zs) h k = refl
hash_le_trans (x ∷ xs) [] c h k = cc
hash_le_trans (x ∷ xs) (y ∷ ys) [] h k = cc
hash_le_trans (x ∷ xs) (y ∷ ys) (z ∷ zs) h k = ground (arith, hash_le_trans xs ys zs)

hash_le_total : (a b : Hash) → (hash_le a b ≡ true) ⊎ (hash_le b a ≡ true)
unfolding hash_le
hash_le_total a b = ground (arith, compare_hashes-gt a b)

hash_le_antisymm : (a b : Hash) → hash_le a b ≡ true → hash_le b a ≡ true → a ≡ b
unfolding hash_le
hash_le_antisymm a b h k = ground (arith, compare_hashes-eq a b, compare_hashes-lt a b)

pub hash_le-IsTotalOrder : IsTotalOrder hash_le
hash_le-IsTotalOrder = record {
  total = hash_le_total;
  antisymm = hash_le_antisymm;
  trans = hash_le_trans;
}

-- The pair hash is commutative, as OpenZeppelin's verifier needs.
pub hash_pair_comm :
    (keccak256 : List ℕ → Hash) (a b : Hash) → hash_pair keccak256 a b ≡ hash_pair keccak256 b a
unfolding hash_pair
hash_pair_comm keccak256 a b = ground (
  arith,
  compare_hashes-gt a b,
  compare_hashes-lt a b,
  compare_hashes-eq a b,
  compare_hashes-gt b a,
)

abbrev pub layers_of : (List ℕ → Hash) → List Leaf → List (List Hash)
layers_of keccak256 leaves = elim (new_tree keccak256 leaves) [ none ↦ [] | some t ↦ t.hashes ]

-- Two orders of the same leaves give trees with the same layers, hence the same root and proofs.
-- Settlement lists its leaves in the order in which Go walks a map, which is not determined.
pub new_tree_perm :
    (keccak256 : List ℕ → Hash) (xs ys : List Leaf)
    → Perm xs ys
    → layers_of keccak256 xs ≡ layers_of keccak256 ys
unfolding new_tree
new_tree_perm keccak256 [] [] p = refl
new_tree_perm keccak256 [] (y ∷ ys) p = absurd (cons≢nil (Perm.eq-nil (Perm.symm p)))
new_tree_perm keccak256 (x ∷ xs) [] p = absurd (cons≢nil (Perm.eq-nil p))
new_tree_perm keccak256 (x ∷ xs) (y ∷ ys) p =
    ap (λ (hs : List Hash). build_layers keccak256 (length hs) hs)
      (sort_by-eq_of_perm hash_le hash_le-IsTotalOrder hashes_set
        (Perm.map (hash_leaf keccak256) p))
