-- ===== src/Merkle/Levels.antt =====
-- One layer of the tree and the next: what a step of a proof computes, and how layers shrink.
use mathlib.Core.List.{foldl-append}
use subnet_benchmark.Prelude.{
  ℕ, zero, suc, ◌+◌, ◌-◌, ◌*◌, ◌/◌, ◌%◌, ◌≤◌, ◌<◌, ◌≡◌, refl, true, inl, inr, List, [], ◌∷◌, ◌++◌,
  some, foldl, length, get_elem?, arith, ltb, ◌==◌, Bool-cases,
}
use subnet_benchmark.Merkle.Hash.{Hash, hash_pair}
use subnet_benchmark.Merkle.Tree.{next_layer, build_layers, sibling, proof_loop, top_hash}
use subnet_benchmark.Merkle.Order.{hash_pair_comm}

pub get_elem?-lt :
    (layer : List Hash) (i : ℕ) {h : Hash} → get_elem? layer i ≡ some h → i < length layer
get_elem?-lt [] i e = cc
get_elem?-lt (x ∷ xs) zero e = omega arith
get_elem?-lt (x ∷ xs) (suc i) e = omega (arith, get_elem?-lt xs i e)

-- Two nodes to the left change nothing.
sibling_skip :
    (a b : Hash) (rest : List Hash) (i : ℕ) → sibling (a ∷ b ∷ rest) (suc (suc i)) ≡ sibling rest i
unfolding sibling
sibling_skip a b rest i = elim (Bool-cases (i % 2 == 0)) [
  | inl e ↦
      let parity : (suc (suc i) % 2) ≡ i % 2 = omega arith in
      let right : suc (suc i) + 1 ≡ suc (suc (i + 1)) = omega arith in
      rw (parity, e, right) (ground arith)
  | inr e ↦
      let parity : (suc (suc i) % 2) ≡ i % 2 = omega arith in
      let left : suc (suc i) - 1 ≡ suc (suc (i - 1)) = ground arith in rw (parity, e, left)
]

module _ (keccak256 : List ℕ → Hash) where
  -- The step of a proof at one layer computes the parent's hash.
  pub sibling_step :
      (layer : List Hash) (i : ℕ) {h : Hash}
      → get_elem? layer i ≡ some h
      → get_elem? (next_layer keccak256 layer) (i / 2)
        ≡ some (foldl (hash_pair keccak256) h (sibling layer i))
  unfolding next_layer sibling
  sibling_step [] i e = cc
  sibling_step (a ∷ []) zero e = ground arith
  sibling_step (a ∷ []) (suc i) e = cc
  sibling_step (a ∷ b ∷ rest) zero e = ground arith
  sibling_step (a ∷ b ∷ rest) (suc zero) e = ground (arith, hash_pair_comm keccak256 a b)
  sibling_step (a ∷ b ∷ rest) (suc (suc i)) e =
      let half : suc (suc i) / 2 ≡ suc (i / 2) = omega arith in
      rw (half, sibling_skip a b rest i) (sibling_step rest i e)

  pub length-next_layer :
      (layer : List Hash) → length (next_layer keccak256 layer) * 2 ≤ length layer + 1
  unfolding next_layer
  length-next_layer [] = omega arith
  length-next_layer (a ∷ []) = omega arith
  length-next_layer (a ∷ b ∷ rest) = omega (arith, length-next_layer rest)

  pub length-next_layer_pos :
      (layer : List Hash) → 0 < length layer → 0 < length (next_layer keccak256 layer)
  unfolding next_layer
  length-next_layer_pos [] h = h
  length-next_layer_pos (a ∷ []) h = omega arith
  length-next_layer_pos (a ∷ b ∷ rest) h = omega arith

  -- The loop always leaves a layer, so one more below it is not the last.
  pub proof_loop-build_layers :
      (layer : List Hash) (rounds : ℕ) (current : List Hash) (i : ℕ)
      → proof_loop (layer ∷ build_layers keccak256 rounds current) i
        ≡ sibling layer i ++ proof_loop (build_layers keccak256 rounds current) (i / 2)
  unfolding proof_loop build_layers
  proof_loop-build_layers layer zero current i = refl
  proof_loop-build_layers layer (suc rounds) current i =
      elim (Bool-cases (ltb 1 (length current))) [ inl e ↦ rw e | inr e ↦ rw e ]

  pub top_hash-build_layers :
      (layer : List Hash) (rounds : ℕ) (current : List Hash)
      → top_hash (layer ∷ build_layers keccak256 rounds current)
        ≡ top_hash (build_layers keccak256 rounds current)
  unfolding build_layers
  top_hash-build_layers layer zero current = refl
  top_hash-build_layers layer (suc rounds) current = elim (Bool-cases (ltb 1 (length current))) [
    | inl e ↦ rw e
    | inr e ↦ rw e
  ]

  -- With enough rounds, the proof of any node of a layer folds to the top.
  pub proof_loop-top :
      (rounds : ℕ) (current : List Hash) (i : ℕ) {h : Hash}
      → length current ≤ suc rounds
      → get_elem? current i ≡ some h
      → foldl (hash_pair keccak256) h (proof_loop (build_layers keccak256 rounds current) i)
        ≡ top_hash (build_layers keccak256 rounds current)
  unfolding proof_loop build_layers
  proof_loop-top zero [] i fits e = cc
  proof_loop-top zero (a ∷ []) zero fits e = ground arith
  proof_loop-top zero (a ∷ []) (suc i) fits e = cc
  proof_loop-top zero (a ∷ b ∷ rest) i fits e = absurd (omega arith)
  proof_loop-top (suc rounds) [] i fits e = cc
  proof_loop-top (suc rounds) (a ∷ []) zero fits e = ground arith
  proof_loop-top (suc rounds) (a ∷ []) (suc i) fits e = cc
  proof_loop-top (suc rounds) (a ∷ b ∷ rest) i {h} fits e =
      let layer : List Hash = a ∷ b ∷ rest in
      let above : List Hash = next_layer keccak256 layer in
      let more : ltb 1 (length layer) ≡ true = ground arith in
      rw
        (
          more,
          proof_loop-build_layers layer rounds above i,
          top_hash-build_layers layer rounds above,
          foldl-append,
        )
        (proof_loop-top rounds above (i / 2) (omega (arith, length-next_layer layer))
          (sibling_step layer i e))
