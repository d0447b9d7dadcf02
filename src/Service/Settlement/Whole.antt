-- ===== src/Service/Settlement/Whole.antt =====
-- A statement about the tables that every write of a settlement keeps true is kept by the settlement.
use subnet_benchmark.Prelude.{
  ℕ, ◌≡◌, refl, Bool, not, List, [], ◌∷◌, map, length, Option, none, some, String,
}
use subnet_benchmark.Model.{
  Question, WorkerEpochReward, MerkleProofRow, Epoch, internal_error, Result, ok, err,
}
use subnet_benchmark.Merkle.Hash.{Hash}
use subnet_benchmark.Merkle.Tree.{Tree, new_tree, proof}
use subnet_benchmark.Store.{Db}
use subnet_benchmark.Store.Rows.{select, update_rows}
use subnet_benchmark.Store.Meets.{Keeps, Meets-bind}
use subnet_benchmark.Store.Epochs.{
  of_date, upsert_epoch, create_or_reset_epoch, finish_epoch, list_scored_questions_in_range,
  list_scored_assignments_for_questions,
}
use subnet_benchmark.Store.Rewards.{in_epoch, has_worker, add_reward, delete_epoch_rewards}
use subnet_benchmark.Store.Proofs.{
  proof_in_epoch, insert_proof, save_merkle_proof, delete_epoch_merkle_proofs,
  set_epoch_merkle_root, set_epoch_published,
}
use subnet_benchmark.Service.Settlement.{compute_stats, is_testnet}
use subnet_benchmark.Service.Settlement.Tree.{
  Payment, RecipientResult, TreeService, leaf_of, proof_row, save_found, save_proofs, save_tree,
  publish_tree, pay_out, eligible, resolve, recipient_rewards, build_merkle_tree,
}
use subnet_benchmark.Service.Settlement.Run.{
  SettlementService, cfg, payment_of, settle_stats, settle_questions, settle,
}
use subnet_benchmark.Store.Keeps.{Keeps-statement, Keeps-query, Keeps-pure, Keeps-fail}
use subnet_benchmark.Service.Settlement.Keeps.{
  Free, judge-Keeps, flags-Keeps, violations-Keeps, batch_save-Keeps, set_recipients-Keeps,
  publish-Keeps,
}

abbrev pub set_epochs : ℕ → (Epoch → Epoch) → Db → Db
set_epochs epoch_date change d = record d {
  epochs = update_rows (of_date epoch_date) change d.epochs;
}

-- Each write of a settlement of the epoch keeps `P`.
pub record Writes (P : Db → Type 0) (epoch_date : ℕ) : Type 0 where
  pub free : Free P
  pub epoch_reset : (total : ℕ) (d : Db) → P d → P (upsert_epoch epoch_date total d)
  pub epoch_changed :
      (change : Epoch → Epoch)
      → ((e : Epoch) → (change e).epoch_date ≡ e.epoch_date)
      → (d : Db) → P d
      → P (set_epochs epoch_date change d)
  pub proofs_deleted :
      (d : Db)
      → P d
      → P (record d {
        merkle_proofs = select (λ p. not (proof_in_epoch epoch_date p)) d.merkle_proofs;
      })
  pub rewards_deleted :
      (d : Db)
      → P d
      → P (record d {
        worker_epoch_rewards = select (λ r. not (in_epoch epoch_date r)) d.worker_epoch_rewards;
      })
  pub reward_added :
      (r : WorkerEpochReward) (d : Db) → r.epoch_date ≡ epoch_date → P d → P (add_reward r d)
  pub recipient_set :
      (address recipient : String) (d : Db)
      → P d
      → P (record d {
        worker_epoch_rewards =
            update_rows
              (has_worker epoch_date address)
              (λ r. record r { recipient = some recipient })
              d.worker_epoch_rewards;
      })
  pub proof_added :
      (p : MerkleProofRow) (d : Db) → p.epoch_date ≡ epoch_date → P d → P (insert_proof p d).1

module _ (P : Db → Type 0) (epoch_date : ℕ) (writes : Writes P epoch_date) where
  module _ (svc : TreeService) where
    save_found-Keeps :
        (p : Payment) (path : Option (List Hash)) → Keeps P (save_found svc epoch_date p path)
    unfolding save_merkle_proof
    save_found-Keeps p none = Keeps-fail P internal_error
    save_found-Keeps p (some path) =
        Keeps-statement P _ (λ d h. writes.proof_added (proof_row svc epoch_date p path) d refl h)

    save_proofs-Keeps :
        (tree : Tree) (payments : List Payment) → Keeps P (save_proofs svc epoch_date tree payments)
    unfolding save_proofs
    save_proofs-Keeps tree [] = Keeps-pure P tt
    save_proofs-Keeps tree (p ∷ payments) =
        Meets-bind _ _ (save_found-Keeps p (proof svc.keccak256 tree (leaf_of svc p)))
          (λ _. save_proofs-Keeps tree payments)

    save_tree-Keeps :
        (payments : List Payment) (tree : Option Tree)
        → Keeps P (save_tree svc epoch_date payments tree)
    unfolding set_epoch_merkle_root
    save_tree-Keeps payments none = Keeps-fail P internal_error
    save_tree-Keeps payments (some tree) =
        Meets-bind _ _ (Keeps-statement P _ (λ d h. writes.epoch_changed _ (λ e. refl) d h))
          (λ _. save_proofs-Keeps tree payments)

    publish_tree-Keeps : (payments : List Payment) → Keeps P (publish_tree svc epoch_date payments)
    unfolding publish_tree
    publish_tree-Keeps [] = Keeps-pure P tt
    publish_tree-Keeps (p ∷ payments) =
        save_tree-Keeps (p ∷ payments) (new_tree svc.keccak256 (map (leaf_of svc) (p ∷ payments)))

    pay_out-Keeps : (r : Result (List RecipientResult)) → Keeps P (pay_out svc epoch_date r)
    pay_out-Keeps (err e) = Keeps-fail P e
    pay_out-Keeps (ok results) =
        Meets-bind _ _ (set_recipients-Keeps P epoch_date writes.recipient_set results)
          (λ _. publish_tree-Keeps (svc.walk_recipients (recipient_rewards results [])))

    build_merkle_tree-Keeps :
        (testnet : Bool) (rewards : List Payment)
        → Keeps P (build_merkle_tree svc testnet epoch_date rewards)
    unfolding build_merkle_tree
    build_merkle_tree-Keeps testnet rewards =
        pay_out-Keeps (resolve testnet svc.request (eligible (svc.walk_rewards rewards)))

  finish_epoch-Keeps : (now scored : ℕ) → Keeps P (finish_epoch now epoch_date scored)
  unfolding finish_epoch
  finish_epoch-Keeps now scored =
      Keeps-statement P _ (λ d h. writes.epoch_changed _ (λ e. refl) d h)

  published-Keeps : (now : ℕ) → Keeps P (set_epoch_published now epoch_date)
  unfolding set_epoch_published
  published-Keeps now = Keeps-statement P _ (λ d h. writes.epoch_changed _ (λ e. refl) d h)

  module _ (svc : SettlementService) (now : ℕ) where
    settle_questions-Keeps :
        (questions : List Question) → Keeps P (settle_questions svc now epoch_date questions)
    unfolding settle_questions settle_stats list_scored_assignments_for_questions
    settle_questions-Keeps [] = finish_epoch-Keeps now 0
    settle_questions-Keeps (q ∷ questions) =
        let c = cfg svc in
        Meets-bind _ _ (Keeps-query P _) (λ assignments.
          let stats = compute_stats c.total_reward (q ∷ questions) assignments in
          Meets-bind _ _
            (batch_save-Keeps P epoch_date writes.reward_added svc.store_score c.min_tasks
              (svc.walk_stats stats))
            (λ _. Meets-bind _ _ (judge-Keeps P writes.free c stats (q ∷ questions)) (λ _.
              Meets-bind _ _
                (build_merkle_tree-Keeps svc.tree (is_testnet svc.rt_config)
                  (map (payment_of c.min_tasks) stats))
                (λ _. Meets-bind _ _ (finish_epoch-Keeps now (length (q ∷ questions))) (λ _.
                  Meets-bind _ _ (violations-Keeps P writes.free)
                    (λ _. publish-Keeps P epoch_date published-Keeps svc now svc.onchain))))))

    -- A statement about the tables that each of its writes keeps is kept by a settlement, whichever
    -- statements fail.
    pub settle-Keeps : Keeps P (settle svc now epoch_date)
    unfolding settle create_or_reset_epoch delete_epoch_merkle_proofs delete_epoch_rewards
        list_scored_questions_in_range
    settle-Keeps =
        Meets-bind _ _ (Keeps-statement P _ (λ d h. writes.epoch_reset (cfg svc).total_reward d h))
          (λ _. Meets-bind _ _ (Keeps-statement P _ (λ d h. writes.proofs_deleted d h)) (λ _.
            Meets-bind _ _ (Keeps-statement P _ (λ d h. writes.rewards_deleted d h)) (λ _.
              Meets-bind _ _ (flags-Keeps P writes.free epoch_date _) (λ _.
                Meets-bind _ _ (Keeps-query P _) (λ questions. settle_questions-Keeps questions)))))
