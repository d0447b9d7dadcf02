-- ===== src/Examples/Trees.antt =====
-- merkle/tree.go at three leaves. A checksum of 32 bytes stands for Keccak-256.
use subnet_benchmark.Prelude.{
  All, ℕ, ◌+◌, ◌*◌, ◌%◌, ◌^◌, ◌<◌, ◌≡◌, refl, sym, subst, ◌⊎◌, true, List, [], ◌∷◌, Option, none,
  some, Mem, arith, foldl, replicate, length,
}
use mathlib.Core.List.{mem-cons_self, mem-cons, not-mem-nil}
use mathlib.Core.List.Perm
use mathlib.Core.Logic.Or
use native.Mathlib.Nat.{ℕ_set}
use native.Mathlib.Bridge.{le_prop}
use subnet_benchmark.Merkle.Hash.{
  Hash, Leaf, big_endian, encode_leaf, hash_leaf, hash_pair, hash_eq, compare_hashes,
}
use subnet_benchmark.Merkle.Tree.{
  Tree, new_tree, build_layers, next_layer, hash_le, root, proof, verify, index_of, proof_loop,
  sibling,
}
use subnet_benchmark.Merkle.Hex.{hex_to_hash, hash_to_hex, hex_to_hash-hash_to_hex}
use subnet_benchmark.Minhash.Minimum.{replicate-AllBelow}
use subnet_benchmark.Merkle.Order.{hash_pair_comm, new_tree_perm, layers_of}
use subnet_benchmark.Merkle.Encoding.{length-big_endian, IsWellFormed, encode_leaf_inj}
use subnet_benchmark.Merkle.Proofs.{proof_verifies}
use subnet_benchmark.Merkle.Collision.{Collision}
use subnet_benchmark.Merkle.Sound.{Is32}
use subnet_benchmark.Merkle.Security.{verify_sound}

abbrev add_byte : ℕ → ℕ → ℕ
add_byte h b = (h * 131 + b + 1) % 2 ^ 61

unfoldable checksum : List ℕ → Hash
unfolding big_endian
checksum x = big_endian 32 (foldl add_byte 7 x)

checksum_size : (x : List ℕ) → length (checksum x) ≡ 32
unfolding checksum
checksum_size x = length-big_endian 32 (foldl add_byte 7 x)

abbrev leaf_of : ℕ → ℕ → Leaf
leaf_of byte amount = record { address = replicate 20 byte; amount = amount }

abbrev three_leaves : List Leaf
three_leaves = leaf_of 1 10 ∷ leaf_of 2 20 ∷ leaf_of 3 30 ∷ []

leaf_of-IsWellFormed : (byte amount : ℕ) → amount < 256 ^ 32 → IsWellFormed (leaf_of byte amount)
leaf_of-IsWellFormed byte amount h = record { address_size = refl; amount_fits = h }

hash_pair_comm_example :
    hash_pair checksum (1 ∷ 2 ∷ []) (1 ∷ 1 ∷ []) ≡ hash_pair checksum (1 ∷ 1 ∷ []) (1 ∷ 2 ∷ [])
hash_pair_comm_example = hash_pair_comm checksum (1 ∷ 2 ∷ []) (1 ∷ 1 ∷ [])

abbrev tree_of : Option Tree → Tree
tree_of none = record { leaves = []; hashes = [] }
tree_of (some t) = t

unfoldable three_tree : Tree
unfolding new_tree
three_tree = tree_of (new_tree checksum three_leaves)

three_tree-built : new_tree checksum three_leaves ≡ some three_tree
unfolding new_tree three_tree
three_tree-built = refl

proof_verifies_example :
    (path : List Hash) × (proof checksum three_tree (leaf_of 1 10) ≡ some path)
    × (verify checksum path (root three_tree) (hash_leaf checksum (leaf_of 1 10)) ≡ true)
proof_verifies_example =
    proof_verifies checksum three_leaves three_tree (leaf_of 1 10) three_tree-built mem-cons_self

new_tree_perm_example :
    layers_of checksum (leaf_of 1 10 ∷ leaf_of 2 20 ∷ [])
    ≡ layers_of checksum (leaf_of 2 20 ∷ leaf_of 1 10 ∷ [])
new_tree_perm_example =
    new_tree_perm checksum (leaf_of 1 10 ∷ leaf_of 2 20 ∷ []) (leaf_of 2 20 ∷ leaf_of 1 10 ∷ [])
      (Perm.swap (leaf_of 2 20) (leaf_of 1 10) [])

encode_leaf_inj_example : leaf_of 4 40 ≡ leaf_of 4 40
encode_leaf_inj_example =
    encode_leaf_inj (leaf_of 4 40) (leaf_of 4 40) (leaf_of-IsWellFormed 4 40 (omega arith))
      (leaf_of-IsWellFormed 4 40 (omega arith)) refl

IsWellFormed-prop : {leaf : Leaf} → IsProp (IsWellFormed leaf)
IsWellFormed-prop {leaf} a b i = record {
  address_size = ℕ_set (length leaf.address) 20 a.address_size b.address_size i;
  amount_fits = le_prop a.amount_fits b.amount_fits i;
}

cons-IsWellFormed :
    {l : Leaf} {leaf : Leaf} {rest : List Leaf}
    → IsWellFormed leaf
    → (Mem l rest → IsWellFormed l)
    → Mem l (leaf ∷ rest)
    → IsWellFormed l
cons-IsWellFormed wf later m =
    Or.elim IsWellFormed-prop (mem-cons.0 m) (λ same. subst IsWellFormed (sym same) wf) later

three_leaves-IsWellFormed : (l : Leaf) → Mem l three_leaves → IsWellFormed l
three_leaves-IsWellFormed l = cons-IsWellFormed (leaf_of-IsWellFormed 1 10 (omega arith)) (
    cons-IsWellFormed (leaf_of-IsWellFormed 2 20 (omega arith))
      (cons-IsWellFormed (leaf_of-IsWellFormed 3 30 (omega arith)) (λ m. absurd (not-mem-nil m))))

abbrev path_of : Option (List Hash) → List Hash
path_of none = []
path_of (some path) = path

unfoldable first_path : List Hash
unfolding proof three_tree
first_path = path_of (proof checksum three_tree (leaf_of 2 20))

first_path-All : All Is32 first_path
unfolding first_path proof proof_loop sibling index_of hash_eq three_tree new_tree build_layers
    next_layer hash_pair hash_le hash_leaf checksum big_endian compare_hashes encode_leaf
first_path-All = (refl, (refl, tt))

first_path-accepted :
    verify checksum first_path (root three_tree) (hash_leaf checksum (leaf_of 2 20)) ≡ true
unfolding verify root first_path proof proof_loop sibling index_of hash_eq three_tree new_tree
    build_layers next_layer hash_pair hash_le hash_leaf checksum big_endian compare_hashes
    encode_leaf
first_path-accepted = refl

verify_sound_example : Mem (leaf_of 2 20) three_leaves ⊎ Collision checksum
verify_sound_example =
    verify_sound checksum checksum_size three_leaves three_tree (leaf_of 2 20) first_path
      three_tree-built three_leaves-IsWellFormed (leaf_of-IsWellFormed 2 20 (omega arith))
      first_path-All first_path-accepted

abbrev far_hash : Hash
far_hash = replicate 32 171

hex_to_hash-hash_to_hex_example : hex_to_hash (hash_to_hex far_hash) ≡ some far_hash
hex_to_hash-hash_to_hex_example =
    hex_to_hash-hash_to_hex far_hash refl (replicate-AllBelow 256 32 171 (omega arith))
