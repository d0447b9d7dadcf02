-- ===== src/Merkle/Sound.antt =====
-- A proof that verifies against the root of a tree is for a leaf of the tree, unless it shows a
-- collision of Keccak-256.
use subnet_benchmark.Prelude.{
  All, ℕ, zero, suc, ◌<◌, ◌≡◌, refl, sym, ap, ◌∙◌, subst, ◌⊎◌, inl, inr, List, [], ◌∷◌, ◌++◌, foldl,
  length, arith, Bool-cases, ltb,
}
use subnet_benchmark.Merkle.Hash.{Hash, hash_pair}
use subnet_benchmark.Merkle.Tree.{next_layer, build_layers, top_hash}
use subnet_benchmark.Merkle.Collision.{Collision, SamePair, same_pair, pair_not_short}
use subnet_benchmark.Merkle.Levels.{length-next_layer_pos}

-- The hash stands in the layer.
pub data In (g : Hash) : List Hash → Type 0 where
  head : {layer : List Hash} {h : Hash} → h ≡ g → In g (h ∷ layer)
  tail : {layer : List Hash} {h : Hash} → In g layer → In g (h ∷ layer)

-- The hash stands in one of the layers.
pub data InTree (g : Hash) : List (List Hash) → Type 0 where
  here : {layer : List Hash} {layers : List (List Hash)} → In g layer → InTree g (layer ∷ layers)
  above :
      {layer : List Hash} {layers : List (List Hash)} → InTree g layers → InTree g (layer ∷ layers)

abbrev pub Is32 : Hash → Type 0
Is32 h = length h ≡ 32

module _ (keccak256 : List ℕ → Hash) (size : (x : List ℕ) → Is32 (keccak256 x)) where
  -- A hash of a text of 32 bytes, as a leaf hash is.
  unfoldable pub IsLeafHash : Hash → Type 0
  IsLeafHash g = (x : List ℕ) × Is32 x × (g ≡ keccak256 x)

  abbrev Promoted : List Hash → Hash → Type 0
  Promoted layer g =
      In g layer
      ⊎ ((a : Hash) × (b : Hash) × In a layer × In b layer × (g ≡ hash_pair keccak256 a b))

  -- A node of the next layer is one of this layer, or the hash of two.
  In-next_layer :
      (layer : List Hash) {g : Hash} → In g (next_layer keccak256 layer) → Promoted layer g
  unfolding next_layer
  In-next_layer [] n = elim n [ ]
  In-next_layer (a ∷ []) n = inl n
  In-next_layer (a ∷ b ∷ rest) (head e) = inr (a, b, head refl, tail (head refl), sym e)
  In-next_layer (a ∷ b ∷ rest) (tail n) = deeper (In-next_layer rest n)
    where
      deeper : {g : Hash} → Promoted rest g → Promoted (a ∷ b ∷ rest) g
      deeper (inl m) = inl (tail (tail m))
      deeper (inr (x, y, mx, my, e)) = inr (x, y, tail (tail mx), tail (tail my), e)

  unfoldable pub AllIs32 : List Hash → Type 0
  AllIs32 layer = (g : Hash) → In g layer → Is32 g

  Is32-hash_pair : (a b : Hash) → Is32 (hash_pair keccak256 a b)
  unfolding hash_pair
  Is32-hash_pair a b = ground (arith, size (a ++ b), size (b ++ a))

  next_layer-AllIs32 : (layer : List Hash) → AllIs32 layer → AllIs32 (next_layer keccak256 layer)
  unfolding AllIs32
  next_layer-AllIs32 layer all g n = settle (In-next_layer layer n)
    where
      settle : Promoted layer g → Is32 g
      settle (inl m) = all g m
      settle (inr (a, b, ma, mb, e)) = ap length e ∙ Is32-hash_pair a b

  -- Each layer is the next layer of the one below it.
  pub data Stack : List Hash → List (List Hash) → Type 0 where
    last : {current : List Hash} → Stack current (current ∷ [])
    more :
        {current : List Hash} {layers : List (List Hash)}
        → Stack (next_layer keccak256 current) layers
        → Stack current (current ∷ layers)

  pub build_layers-Stack :
      (rounds : ℕ) (current : List Hash) → Stack current (build_layers keccak256 rounds current)
  unfolding build_layers
  build_layers-Stack zero current = last
  build_layers-Stack (suc rounds) current = elim (Bool-cases (ltb 1 (length current))) [
    | inl e ↦ rw e (more (build_layers-Stack rounds (next_layer keccak256 current)))
    | inr e ↦ rw e last
  ]

  abbrev Child : List Hash → List (List Hash) → Hash → Hash → Type 0
  Child current layers g h = In g current ⊎ InTree h layers ⊎ Collision keccak256

  module _ (g h p : Hash) (hh : Is32 h) (hp : Is32 p) (e : hash_pair keccak256 h p ≡ g) where
    Child-of_pair :
        (current : List Hash) (layers : List (List Hash)) (a b : Hash)
        → In a current
        → In b current
        → SamePair keccak256 h p a b ⊎ Collision keccak256
        → Child current (current ∷ layers) g h
    Child-of_pair current layers a b ma mb (inl (inl s)) =
        inr (inl (here (subst (λ x. In x current) (sym s.0) ma)))
    Child-of_pair current layers a b ma mb (inl (inr s)) =
        inr (inl (here (subst (λ x. In x current) (sym s.0) mb)))
    Child-of_pair current layers a b ma mb (inr c) = inr (inr c)

    -- If a node of the tree is the hash of `h` and a sibling, then the node is at the bottom, or `h`
    -- is a node of the tree too, or there is a collision.
    Child-InTree :
        {current : List Hash} {layers : List (List Hash)}
        → Stack current layers
        → AllIs32 current
        → InTree g layers
        → Child current layers g h
    Child-InTree last all (here n) = inl n
    Child-InTree last all (above t) = elim t [ ]
    Child-InTree (more s) all (here n) = inl n
    Child-InTree (more {current} {layers} s) all (above t) =
        lift (Child-InTree s (next_layer-AllIs32 current all) t)
      where
        from_pair : Promoted current g → Child current (current ∷ layers) g h
        from_pair (inl m) = inl m
        from_pair (inr (a, b, ma, mb, d)) = Child-of_pair current layers a b ma mb (
            same_pair keccak256 h p a b hh hp (unfold AllIs32 in all a ma)
              (unfold AllIs32 in all b mb) (e ∙ d))

        lift :
            Child (next_layer keccak256 current) layers g h → Child current (current ∷ layers) g h
        lift (inl n) = from_pair (In-next_layer current n)
        lift (inr (inl m)) = inr (inl (above m))
        lift (inr (inr c)) = inr (inr c)

  -- A leaf hash in the tree stands at the bottom.
  pub leaf_at_bottom :
      {g : Hash} {current : List Hash} {layers : List (List Hash)}
      → Stack current layers
      → AllIs32 current
      → IsLeafHash g
      → InTree g layers
      → In g current ⊎ Collision keccak256
  leaf_at_bottom last all l (here n) = inl n
  leaf_at_bottom last all l (above t) = elim t [ ]
  leaf_at_bottom (more s) all l (here n) = inl n
  leaf_at_bottom {g} (more {current} s) all l (above t) =
      descend (leaf_at_bottom s (next_layer-AllIs32 current all) l t)
    where
      from_pair : IsLeafHash g → Promoted current g → In g current ⊎ Collision keccak256
      from_pair _ (inl m) = inl m
      from_pair k (inr (a, b, ma, mb, d)) =
          unfold AllIs32 IsLeafHash in
          inr (pair_not_short keccak256 a b k.0 (all a ma) (all b mb) k.1 (sym d ∙ k.2))

      descend :
          In g (next_layer keccak256 current) ⊎ Collision keccak256
          → In g current ⊎ Collision keccak256
      descend (inl n) = from_pair l (In-next_layer current n)
      descend (inr c) = inr c

  -- A path that folds to a node of the tree starts at a node of the tree.
  pub path-InTree :
      {current : List Hash} {layers : List (List Hash)} (path : List Hash) (h : Hash)
      → Stack current layers
      → AllIs32 current
      → ((g : Hash) → In g current → IsLeafHash g)
      → All Is32 path
      → Is32 h
      → InTree (foldl (hash_pair keccak256) h path) layers
      → InTree h layers ⊎ Collision keccak256
  path-InTree [] h s all leaf ok hh t = inl t
  path-InTree {current} {layers} (p ∷ path) h s all leaf ok hh t =
      step (path-InTree path (hash_pair keccak256 h p) s all leaf ok.1 (Is32-hash_pair h p) t)
    where
      below :
          Child current layers (hash_pair keccak256 h p) h → InTree h layers ⊎ Collision keccak256
      below (inl n) =
          unfold IsLeafHash in
          let (x, hx, d) = leaf (hash_pair keccak256 h p) n in
          inr (pair_not_short keccak256 h p x hh ok.0 hx d)
      below (inr r) = r

      step :
          InTree (hash_pair keccak256 h p) layers ⊎ Collision keccak256
          → InTree h layers ⊎ Collision keccak256
      step (inl m) = below (Child-InTree (hash_pair keccak256 h p) h p hh ok.0 refl s all m)
      step (inr c) = inr c

  top_hash-Stack :
      {current : List Hash} {layers : List (List Hash)} (layer : List Hash)
      → Stack current layers
      → top_hash (layer ∷ layers) ≡ top_hash layers
  top_hash-Stack layer last = refl
  top_hash-Stack layer (more s) = refl

  pub top-InTree :
      {current : List Hash} {layers : List (List Hash)}
      → Stack current layers
      → 0 < length current
      → InTree (top_hash layers) layers
  top-InTree (last {current = []}) h = absurd (omega arith)
  top-InTree (last {current = c ∷ cs}) h = here (head refl)
  top-InTree (more {current} s) h =
      rw (top_hash-Stack current s)
        (above (top-InTree s (length-next_layer_pos keccak256 current h)))
