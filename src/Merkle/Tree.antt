-- ===== src/Merkle/Tree.antt =====
-- The tree, its root, proofs and their verification (NewTree, Root, Proof, Verify).
use mathlib.Core.Option
use subnet_benchmark.Prelude.{
  ℕ, zero, suc, ◌+◌, ◌-◌, ◌/◌, ◌%◌, Bool, not, List, [], ◌∷◌, ◌++◌, Option, none, some, map, foldl,
  length, get_or, replicate, ltb, ◌==◌, if◌then◌else◌,
}
use subnet_benchmark.Prelude.Sort.{sort_by}
use subnet_benchmark.Merkle.Hash.{Hash, Leaf, compare_hashes, is_gt, hash_leaf, hash_pair, hash_eq}

-- `hashes` holds the layers, the leaf hashes first and the root last.
pub record Tree : Type 0 where
  pub leaves : List Leaf
  pub hashes : List (List Hash)

-- common.Hash{}
abbrev pub zero_hash : Hash
zero_hash = replicate 32 0

-- The sort's comparison, compareHashes(a, b) <= 0.
unfoldable pub hash_le : Hash → Hash → Bool
unfolding compare_hashes
hash_le a b = not (is_gt (compare_hashes a b))

module _ (keccak256 : List ℕ → Hash) where
  -- One round of the loop that builds the next layer; an odd node is promoted.
  unfoldable pub next_layer : List Hash → List Hash
  next_layer [] = []
  next_layer (a ∷ []) = a ∷ []
  next_layer (a ∷ b ∷ rest) = hash_pair keccak256 a b ∷ next_layer rest

  -- `for len(current) > 1`, with the rounds left as fuel.
  unfoldable pub build_layers : ℕ → List Hash → List (List Hash)
  unfolding next_layer
  build_layers zero current = current ∷ []
  build_layers (suc rounds) current =
      let above = build_layers rounds (next_layer current) in
      if ltb 1 (length current) then current ∷ above else current ∷ []

  -- `none` is the error "empty leaves".
  unfoldable pub new_tree : List Leaf → Option Tree
  unfolding build_layers hash_le
  new_tree [] = none
  new_tree (leaf ∷ leaves) =
      let hashes = sort_by hash_le (map (hash_leaf keccak256) (leaf ∷ leaves)) in
      some (record { leaves = leaf ∷ leaves; hashes = build_layers (length hashes) hashes })

-- top[0], and the zero hash of an empty layer.
abbrev pub first_hash : List Hash → Hash
first_hash [] = zero_hash
first_hash (h ∷ hs) = h

abbrev pub top_hash : List (List Hash) → Hash
top_hash [] = zero_hash
top_hash (layer ∷ []) = first_hash layer
top_hash (layer ∷ above ∷ rest) = top_hash (above ∷ rest)

unfoldable pub root : Tree → Hash
root t = top_hash t.hashes

-- The index of the first entry that is the target.
unfoldable pub index_of : Hash → List Hash → Option ℕ
unfolding hash_eq
index_of target [] = none
index_of target (h ∷ hs) =
    let later = Option.map suc (index_of target hs) in if hash_eq h target then some 0 else later

-- What one layer adds to the proof of the node at `i`.
unfoldable pub sibling : List Hash → ℕ → List Hash
sibling layer i =
    if i % 2 == 0
    then if ltb (i + 1) (length layer) then get_or layer (i + 1) zero_hash ∷ [] else []
    else get_or layer (i - 1) zero_hash ∷ []

-- The loop over every layer but the last.
unfoldable pub proof_loop : List (List Hash) → ℕ → List Hash
unfolding sibling
proof_loop [] i = []
proof_loop (layer ∷ []) i = []
proof_loop (layer ∷ above ∷ rest) i = sibling layer i ++ proof_loop (above ∷ rest) (i / 2)

abbrev pub bottom : List (List Hash) → List Hash
bottom [] = []
bottom (layer ∷ rest) = layer

module _ (keccak256 : List ℕ → Hash) where
  -- `none` is the error "leaf not found in tree".
  unfoldable pub proof : Tree → Leaf → Option (List Hash)
  unfolding index_of proof_loop
  proof t leaf = elim (index_of (hash_leaf keccak256 leaf) (bottom t.hashes)) [
    | none ↦ none
    | some i ↦ some (proof_loop t.hashes i)
  ]

  unfoldable pub verify : List Hash → Hash → Hash → Bool
  unfolding hash_eq
  verify path top leaf = hash_eq (foldl (hash_pair keccak256) leaf path) top
