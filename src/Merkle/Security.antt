-- ===== src/Merkle/Security.antt =====
-- What a path that verifies against a tree's root shows: a leaf of the tree, or a collision of
-- Keccak-256.
use mathlib.Core.List.{mem-cons_self, mem-cons_of_mem, not-mem-nil, mem-cons}
use mathlib.Core.List.Perm
use mathlib.Core.HLevel.{⊥_prop}
use mathlib.Core.Logic.Or
use subnet_benchmark.Prelude.{
  All, ℕ, ◌<◌, ◌≡◌, refl, sym, ◌∙◌, ap, subst, true, ◌⊎◌, inl, inr, List, [], ◌∷◌, some, Mem, map,
  foldl, length, arith, Bool, Bool-cases,
}
use subnet_benchmark.Prelude.Sort.{sort_by, sort_by-perm, insert_by}
use subnet_benchmark.Merkle.Hash.{Hash, Leaf, hash_leaf, hash_pair, encode_leaf}
use subnet_benchmark.Merkle.Tree.{Tree, new_tree, hash_le, build_layers, root, verify, top_hash}
use subnet_benchmark.Merkle.Encoding.{IsWellFormed}
use subnet_benchmark.Merkle.Collision.{Collision, bytes_discrete, same_leaf}
use subnet_benchmark.Merkle.Proofs.{hash_eq-true, hashes-new_tree, sorted_hashes}
use subnet_benchmark.Merkle.Sound.{
  In, head, tail, InTree, Stack, IsLeafHash, AllIs32, Is32, build_layers-Stack, leaf_at_bottom,
  path-InTree, top-InTree,
}

In-Mem : {g : Hash} {hs : List Hash} → In g hs → Mem g hs
In-Mem (head e) = rw e mem-cons_self
In-Mem (tail n) = mem-cons_of_mem _ (In-Mem n)

module _ (keccak256 : List ℕ → Hash) where
  -- Searches the leaves for one with the given hash.
  leaf_with_hash :
      (g : Hash) (leaves : List Leaf)
      → ((leaf : Leaf) × Mem leaf leaves × (hash_leaf keccak256 leaf ≡ g))
        ⊎ (¬ Mem g (map (hash_leaf keccak256) leaves))
  leaf_with_hash g [] = inr not-mem-nil
  leaf_with_hash g (l ∷ ls) =
      decide (bytes_discrete (hash_leaf keccak256 l) g) (leaf_with_hash g ls)
    where
      decide :
          Dec (hash_leaf keccak256 l ≡ g)
          → ((leaf : Leaf) × Mem leaf ls × (hash_leaf keccak256 leaf ≡ g))
            ⊎ (¬ Mem g (map (hash_leaf keccak256) ls))
          → ((leaf : Leaf) × Mem leaf (l ∷ ls) × (hash_leaf keccak256 leaf ≡ g))
            ⊎ (¬ Mem g (map (hash_leaf keccak256) (l ∷ ls)))
      decide (yes e) later = inl (l, mem-cons_self, e)
      decide (no ne) (inl (leaf, m, e)) = inl (leaf, mem-cons_of_mem l m, e)
      decide (no ne) (inr absent) =
          inr (λ m. Or.elim ⊥_prop (mem-cons.0 m) (λ e. ne (sym e)) absent)

  leaf_of_sorted :
      (leaves : List Leaf) (g : Hash)
      → In g (sorted_hashes keccak256 leaves)
      → (leaf : Leaf) × Mem leaf leaves × (hash_leaf keccak256 leaf ≡ g)
  unfolding sorted_hashes
  leaf_of_sorted leaves g n = settle (leaf_with_hash g leaves)
    where
      there : Mem g (map (hash_leaf keccak256) leaves)
      there = (Perm.mem_iff (sort_by-perm hash_le (map (hash_leaf keccak256) leaves))).0 (In-Mem n)

      settle :
          ((leaf : Leaf) × Mem leaf leaves × (hash_leaf keccak256 leaf ≡ g))
            ⊎ (¬ Mem g (map (hash_leaf keccak256) leaves))
          → (leaf : Leaf) × Mem leaf leaves × (hash_leaf keccak256 leaf ≡ g)
      settle (inl found) = found
      settle (inr absent) = absurd (absent there)

insert_by-pos :
    (le : Hash → Hash → Bool) (h : Hash) (hs : List Hash) → 0 < length (insert_by le h hs)
insert_by-pos le h [] = omega arith
insert_by-pos le h (x ∷ xs) = elim (Bool-cases (le h x)) [
  | inl e ↦ rw e (omega arith)
  | inr e ↦ rw e (omega arith)
]

sorted_hashes-pos :
    (keccak256 : List ℕ → Hash) (leaves : List Leaf) {t : Tree}
    → new_tree keccak256 leaves ≡ some t
    → 0 < length (sorted_hashes keccak256 leaves)
unfolding sorted_hashes new_tree
sorted_hashes-pos keccak256 [] e = cc
sorted_hashes-pos keccak256 (l ∷ ls) e =
    insert_by-pos hash_le (hash_leaf keccak256 l) (sort_by hash_le (map (hash_leaf keccak256) ls))

module _ (keccak256 : List ℕ → Hash) (size : (x : List ℕ) → Is32 (keccak256 x)) where
  sorted_leaf :
      (leaves : List Leaf) (g : Hash)
      → In g (sorted_hashes keccak256 leaves)
      → IsLeafHash keccak256 size g
  unfolding IsLeafHash hash_leaf
  sorted_leaf leaves g n =
      let (leaf, m, e) = leaf_of_sorted keccak256 leaves g n in
      (keccak256 (encode_leaf leaf), size (encode_leaf leaf), sym e)

  sorted_32 : (leaves : List Leaf) → AllIs32 keccak256 size (sorted_hashes keccak256 leaves)
  unfolding AllIs32 hash_leaf
  sorted_32 leaves g n =
      let (leaf, m, e) = leaf_of_sorted keccak256 leaves g n in
      ap length (sym e) ∙ size (keccak256 (encode_leaf leaf))

  -- Where Keccak-256 returns 32 bytes: a path of 32-byte hashes that Verify accepts for a
  -- well-formed leaf against the root of a tree of well-formed leaves shows that the leaf is one of
  -- the tree's, or it yields two texts with the same Keccak-256 hash.
  pub verify_sound :
      (leaves : List Leaf) (t : Tree) (leaf : Leaf) (path : List Hash)
      → new_tree keccak256 leaves ≡ some t
      → ((l : Leaf) → Mem l leaves → IsWellFormed l)
      → IsWellFormed leaf
      → All Is32 path
      → verify keccak256 path (root t) (hash_leaf keccak256 leaf) ≡ true
      → Mem leaf leaves ⊎ Collision keccak256
  unfolding verify root
  verify_sound leaves t leaf path built wfs wf ok accepted = at_bottom (
      path-InTree keccak256 size path g stack (sorted_32 leaves) (sorted_leaf leaves) ok g32 (
        subst (λ top. InTree top layers) (sym folded)
          (top-InTree keccak256 size stack (sorted_hashes-pos keccak256 leaves built))))
    where
      g : Hash
      g = hash_leaf keccak256 leaf

      hs : List Hash
      hs = sorted_hashes keccak256 leaves

      layers : List (List Hash)
      layers = build_layers keccak256 (length hs) hs

      stack : Stack keccak256 size hs layers
      stack = build_layers-Stack keccak256 size (length hs) hs

      folded : foldl (hash_pair keccak256) g path ≡ top_hash layers
      folded =
          hash_eq-true _ (top_hash t.hashes) accepted
          ∙ ap top_hash (hashes-new_tree keccak256 leaves built)

      g32 : Is32 g
      g32 = unfold hash_leaf in size (keccak256 (encode_leaf leaf))

      same :
          (l : Leaf) × Mem l leaves × (hash_leaf keccak256 l ≡ g)
          → Mem leaf leaves ⊎ Collision keccak256
      same (l, m, e) = elim (same_leaf keccak256 l leaf (wfs l m) wf e) [
        | inl p ↦ inl (subst (λ x. Mem x leaves) p m)
        | inr c ↦ inr c
      ]

      found : In g hs ⊎ Collision keccak256 → Mem leaf leaves ⊎ Collision keccak256
      found (inl n) = same (leaf_of_sorted keccak256 leaves g n)
      found (inr c) = inr c

      at_bottom : InTree g layers ⊎ Collision keccak256 → Mem leaf leaves ⊎ Collision keccak256
      at_bottom (inl n) = found (
          leaf_at_bottom keccak256 size stack (sorted_32 leaves)
            (unfold IsLeafHash hash_leaf in
              (keccak256 (encode_leaf leaf), size (encode_leaf leaf), refl))
            n)
      at_bottom (inr c) = inr c
