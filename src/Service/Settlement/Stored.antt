-- ===== src/Service/Settlement/Stored.antt =====
-- buildMerkleTree of internal/service/settlement.go: the proofs in the tables while it runs.
use mathlib.Core.List.{mem-map_of_mem}
use subnet_benchmark.Prelude.{
  All, ℕ, ◌≡◌, refl, inl, inr, Bool, true, false, not, ◌&&◌, List, [], ◌∷◌, map, Mem, Option, none,
  some, arith, Bool-cases,
}
use subnet_benchmark.Model.{Epoch, MerkleProofRow, internal_error, Result, ok, err}
use subnet_benchmark.Merkle.Hash.{Hash}
use subnet_benchmark.Merkle.Tree.{Tree, new_tree, proof, root}
use subnet_benchmark.Merkle.Hex.{hash_to_hex}
use subnet_benchmark.Merkle.Proofs.{proof_verifies}
use subnet_benchmark.Store.{Db, exec}
use subnet_benchmark.Store.Rows.{select, find_row}
use subnet_benchmark.Store.Assignments.{is_some}
use subnet_benchmark.Store.Meets.{
  Meets, Keeps, Meets-pure, Meets-bind, Meets-after, Meets-fail, Meets-statement,
}
use subnet_benchmark.Store.Epochs.{of_date}
use subnet_benchmark.Store.Proofs.{
  proof_in_epoch, proof_for, insert_proof, save_merkle_proof, delete_epoch_merkle_proofs,
  set_epoch_merkle_root,
}
use subnet_benchmark.Service.Settlement.Tree.{
  TreeService, Payment, RecipientResult, eligible, resolve, recipient_rewards, pay_out,
  build_merkle_tree, leaf_of, proof_row, save_found, save_proofs, save_tree, publish_tree,
}
use subnet_benchmark.Store.Keeps.{Keeps-statement, Meets-success}
use subnet_benchmark.Service.Settlement.Keeps.{set_recipients-Keeps}
use subnet_benchmark.Service.Settlement.Whole.{set_epochs}
use subnet_benchmark.Service.Settlement.Trees.{
  Proves, Proven, NoProofs, Verified, with_root, find_row-update_rows, HasRoot-map, HasRoot-set,
  All-append, All-Mem,
}

module _ (svc : TreeService) (epoch_date : ℕ) where
  epochs-Proven :
      (top : Hash) (change : Epoch → Epoch)
      → ((e : Epoch) → (change e).epoch_date ≡ e.epoch_date)
      → ((e : Epoch) → (change e).merkle_root ≡ e.merkle_root)
      → (d : Db) → Proven svc epoch_date top d
      → Proven svc epoch_date top (set_epochs epoch_date change d)
  epochs-Proven top change dates roots d h = record {
    stored_root =
        rw (find_row-update_rows (of_date epoch_date) change (λ e. rw (dates e) refl) d.epochs)
          (HasRoot-map top change roots (find_row (of_date epoch_date) d.epochs) h.stored_root);
    rows = h.rows;
  }

  unproven :
      (top : Hash) (rows : List MerkleProofRow)
      → All (λ row. proof_in_epoch epoch_date row ≡ false) rows
      → All (λ row. proof_in_epoch epoch_date row ≡ true → Proves svc top row) rows
  unproven top [] h = tt
  unproven top (row ∷ rows) h = ((λ e. ground (arith, e, h.0)), unproven top rows h.1)

  set_root-Proven :
      (top : Hash)
      → Meets
          (NoProofs epoch_date)
          (set_epoch_merkle_root epoch_date (hash_to_hex top))
          (λ _. Proven svc epoch_date top)
          (λ _. Unit {0})
  unfolding set_epoch_merkle_root
  set_root-Proven top =
      Meets-statement _
        (λ d h. record {
          stored_root =
              rw (find_row-update_rows (of_date epoch_date) (with_root top) (λ e. refl) d.epochs)
                (HasRoot-set top (find_row (of_date epoch_date) d.epochs));
          rows = unproven top d.merkle_proofs h;
        })
        (λ d h. tt)

  added-Proven :
      (top : Hash) (p : MerkleProofRow)
      → Proves svc top (record p { claimed = false })
      → (d : Db) → Proven svc epoch_date top d
      → Proven svc epoch_date top (insert_proof p d).1
  unfolding insert_proof
  added-Proven top p new d h =
      elim (Bool-cases (
        is_some (find_row (of_date p.epoch_date) d.epochs)
        && not (is_some (find_row (proof_for p.epoch_date p.recipient) d.merkle_proofs)))) [
          | inl may ↦ rw may (record {
            stored_root = h.stored_root;
            rows = All-append _ d.merkle_proofs (record p { claimed = false }) h.rows (λ e. new);
          })
          | inr not_ ↦ rw not_ h
        ]

  module _ (all : List Payment) (tree : Tree)
      (built : new_tree svc.keccak256 (map (leaf_of svc) all) ≡ some tree) where
    save_found-Proven :
        (p : Payment)
        → Mem p all
        → Keeps
            (Proven svc epoch_date (root tree))
            (save_found svc epoch_date p (proof svc.keccak256 tree (leaf_of svc p)))
    unfolding save_merkle_proof
    save_found-Proven p m =
        let (path, found, accepted) =
          proof_verifies svc.keccak256 (map (leaf_of svc) all) tree (leaf_of svc p) built
            (mem-map_of_mem (leaf_of svc) m) in
        rw found (
          Keeps-statement (Proven svc epoch_date (root tree)) _ (λ d h.
            added-Proven (root tree) (proof_row svc epoch_date p path)
              (record { path = path; leaf_text = refl; path_text = refl; verifies = accepted }) d
              h))

    save_proofs-Proven :
        (payments : List Payment)
        → All (λ p. Mem p all) payments
        → Keeps (Proven svc epoch_date (root tree)) (save_proofs svc epoch_date tree payments)
    unfolding save_proofs
    save_proofs-Proven [] ms = Meets-pure tt (λ d h. h)
    save_proofs-Proven (p ∷ payments) ms =
        Meets-bind _ _ (save_found-Proven p ms.0) (λ _. save_proofs-Proven payments ms.1)

  save_tree-Verified :
      (payments : List Payment) (tree : Option Tree)
      → new_tree svc.keccak256 (map (leaf_of svc) payments) ≡ tree
      → Meets
          (NoProofs epoch_date)
          (save_tree svc epoch_date payments tree)
          (λ _. Verified svc epoch_date)
          (λ _. Unit {0})
  save_tree-Verified payments none built = Meets-fail internal_error (λ d h. tt)
  save_tree-Verified payments (some tree) built = Meets-bind _ _ (set_root-Proven (root tree)) (λ _.
      Meets-success (Proven svc epoch_date (root tree)) _ (
        Meets-after (λ _ d h. inr (root tree, h))
          (save_proofs-Proven payments tree built payments (All-Mem payments payments (λ x m. m)))))

  publish_tree-Verified :
      (payments : List Payment)
      → Meets
          (NoProofs epoch_date)
          (publish_tree svc epoch_date payments)
          (λ _. Verified svc epoch_date)
          (λ _. Unit {0})
  unfolding publish_tree
  publish_tree-Verified [] = Meets-pure tt (λ d h. inl h)
  publish_tree-Verified (p ∷ payments) = save_tree-Verified (p ∷ payments) _ refl

  pay_out-Verified :
      (r : Result (List RecipientResult))
      → Meets
          (NoProofs epoch_date)
          (pay_out svc epoch_date r)
          (λ _. Verified svc epoch_date)
          (λ _. Unit {0})
  pay_out-Verified (err e) = Meets-fail e (λ d h. tt)
  pay_out-Verified (ok results) =
      Meets-bind _ _
        (Meets-success (NoProofs epoch_date) _ (
          set_recipients-Keeps (NoProofs epoch_date) epoch_date (λ address recipient d h. h)
            results))
        (λ _. publish_tree-Verified (svc.walk_recipients (recipient_rewards results [])))

  pub build_merkle_tree-Verified :
      (testnet : Bool) (rewards : List Payment)
      → Meets
          (NoProofs epoch_date)
          (build_merkle_tree svc testnet epoch_date rewards)
          (λ _. Verified svc epoch_date)
          (λ _. Unit {0})
  unfolding build_merkle_tree
  build_merkle_tree-Verified testnet rewards =
      pay_out-Verified (resolve testnet svc.request (eligible (svc.walk_rewards rewards)))

  -- A change of the epoch that keeps its date and its root.
  pub changed-Verified :
      (change : Epoch → Epoch)
      → ((e : Epoch) → (change e).epoch_date ≡ e.epoch_date)
      → ((e : Epoch) → (change e).merkle_root ≡ e.merkle_root)
      → Keeps (Verified svc epoch_date) (exec (set_epochs epoch_date change))
  changed-Verified change dates roots = Keeps-statement (Verified svc epoch_date) _ kept
    where
      kept :
          (d : Db)
          → Verified svc epoch_date d
          → Verified svc epoch_date (set_epochs epoch_date change d)
      kept d (inl h) = inl h
      kept d (inr (top, h)) = inr (top, epochs-Proven top change dates roots d h)

  no_proofs :
      (rows : List MerkleProofRow)
      → All
          (λ row. proof_in_epoch epoch_date row ≡ false)
          (select (λ row. not (proof_in_epoch epoch_date row)) rows)
  unfolding select
  no_proofs [] = tt
  no_proofs (row ∷ rows) = elim (Bool-cases (proof_in_epoch epoch_date row)) [
    | inl it ↦ rw it (no_proofs rows)
    | inr other ↦ rw other (other, no_proofs rows)
  ]

  pub delete_proofs-NoProofs :
      {P : Db → Type 0}
      → Meets P (delete_epoch_merkle_proofs epoch_date) (λ _. NoProofs epoch_date) (λ _. Unit {0})
  unfolding delete_epoch_merkle_proofs
  delete_proofs-NoProofs = Meets-statement _ (λ d h. no_proofs d.merkle_proofs) (λ d h. tt)
