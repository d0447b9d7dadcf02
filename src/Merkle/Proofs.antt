-- ===== src/Merkle/Proofs.antt =====
-- Every leaf of a tree has a proof, and the proof verifies against the root.
use mathlib.Core.HLevel.{⊥_prop}
use mathlib.Core.List.{mem-cons, not-mem-nil, mem-map_of_mem}
use mathlib.Core.List.Perm
use mathlib.Core.Logic.Or
use subnet_benchmark.Prelude.{
  ℕ, zero, suc, ◌≡◌, ◌≢◌, refl, true, inl, inr, List, [], ◌∷◌, some, none, Mem, map, length,
  get_elem?, arith, Option-cases,
}
use subnet_benchmark.Prelude.Sort.{sort_by, sort_by-perm}
use subnet_benchmark.Merkle.Hash.{Hash, Leaf, hash_eq, hash_leaf}
use subnet_benchmark.Merkle.Tree.{
  Tree, new_tree, hash_le, build_layers, index_of, proof_loop, proof, root, verify, bottom,
  top_hash,
}
use subnet_benchmark.Merkle.Levels.{proof_loop-top}

pub hash_eq_refl : (h : Hash) → hash_eq h h ≡ true
unfolding hash_eq
hash_eq_refl [] = refl
hash_eq_refl (x ∷ xs) = ground (arith, hash_eq_refl xs)

pub hash_eq-true : (a b : Hash) → hash_eq a b ≡ true → a ≡ b
unfolding hash_eq
hash_eq-true [] [] e = refl
hash_eq-true [] (y ∷ ys) e = cc
hash_eq-true (x ∷ xs) [] e = cc
hash_eq-true (x ∷ xs) (y ∷ ys) e = ground (arith, hash_eq-true xs ys)

index_of-some :
    (target : Hash) (hs : List Hash) (i : ℕ)
    → index_of target hs ≡ some i
    → get_elem? hs i ≡ some target
unfolding index_of
index_of-some target [] i e = cc
index_of-some target (h ∷ hs) zero e = ground (arith, hash_eq-true h target)
index_of-some target (h ∷ hs) (suc i) e = ground (arith, index_of-some target hs i)

index_of-ne-none : (target : Hash) (hs : List Hash) → Mem target hs → index_of target hs ≢ none
unfolding index_of
index_of-ne-none target [] m e = not-mem-nil m
index_of-ne-none target (h ∷ hs) m e =
    Or.elim ⊥_prop (mem-cons.0 m) (λ same. ground (arith, hash_eq_refl h))
      (λ later. ground (arith, index_of-ne-none target hs later))

pub bottom-build_layers :
    (keccak256 : List ℕ → Hash) (rounds : ℕ) (current : List Hash)
    → bottom (build_layers keccak256 rounds current) ≡ current
unfolding build_layers
bottom-build_layers keccak256 zero current = refl
bottom-build_layers keccak256 (suc rounds) current = ground arith

unfoldable pub sorted_hashes : (List ℕ → Hash) → List Leaf → List Hash
sorted_hashes keccak256 leaves = sort_by hash_le (map (hash_leaf keccak256) leaves)

module _ (keccak256 : List ℕ → Hash) where
  pub hashes-new_tree :
      (leaves : List Leaf) {t : Tree}
      → new_tree keccak256 leaves ≡ some t
      → t.hashes
        ≡ build_layers keccak256
            (length (sorted_hashes keccak256 leaves))
            (sorted_hashes keccak256 leaves)
  unfolding new_tree sorted_hashes
  hashes-new_tree [] e = cc
  hashes-new_tree (leaf ∷ leaves) e = ground arith

  proof_found :
      (leaves : List Leaf) {t : Tree} (leaf : Leaf) (i : ℕ)
      → new_tree keccak256 leaves ≡ some t
      → index_of (hash_leaf keccak256 leaf) (bottom t.hashes) ≡ some i
      → (path : List Hash) × (proof keccak256 t leaf ≡ some path)
        × (verify keccak256 path (root t) (hash_leaf keccak256 leaf) ≡ true)
  unfolding proof verify root
  proof_found leaves {t} leaf i built found =
      let hs = sorted_hashes keccak256 leaves in
      let layers = hashes-new_tree leaves built in
      let at : get_elem? hs i ≡ some (hash_leaf keccak256 leaf) =
        index_of-some (hash_leaf keccak256 leaf) hs i
          (rw (layers, bottom-build_layers keccak256 (length hs) hs) at found) in
      let folded = proof_loop-top keccak256 (length hs) hs i (omega arith) at in
      (
        proof_loop t.hashes i,
        rw (found, proof),
        rw (layers, folded) (hash_eq_refl (top_hash (build_layers keccak256 (length hs) hs))),
      )

  -- For every leaf of a tree that was built, Proof returns a path, and Verify accepts it.
  pub proof_verifies :
      (leaves : List Leaf) (t : Tree) (leaf : Leaf)
      → new_tree keccak256 leaves ≡ some t
      → Mem leaf leaves
      → (path : List Hash) × (proof keccak256 t leaf ≡ some path)
        × (verify keccak256 path (root t) (hash_leaf keccak256 leaf) ≡ true)
  unfolding sorted_hashes
  proof_verifies leaves t leaf built m =
      let hs = sorted_hashes keccak256 leaves in
      let there : Mem (hash_leaf keccak256 leaf) hs =
        (Perm.mem_iff (sort_by-perm hash_le (map (hash_leaf keccak256) leaves))).1
          (mem-map_of_mem (hash_leaf keccak256) m) in
      elim (Option-cases (index_of (hash_leaf keccak256 leaf) (bottom t.hashes))) [
        | inl missing ↦ absurd (
            index_of-ne-none (hash_leaf keccak256 leaf) hs there (
              rw (hashes-new_tree leaves built, bottom-build_layers keccak256 (length hs) hs) at
                missing))
        | inr (i, found) ↦ proof_found leaves leaf i built found
      ]
