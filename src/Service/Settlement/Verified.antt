-- ===== src/Service/Settlement/Verified.antt =====
-- Settle of internal/service/settlement.go: the proofs that it stores.
use subnet_benchmark.Prelude.{ℕ, ◌≡◌, refl, List, [], ◌∷◌, map, length, inl, inr}
use subnet_benchmark.Model.{Question}
use subnet_benchmark.Store.{Db, World}
use subnet_benchmark.Store.Meets.{Meets, Ends, Keeps, Meets-bind, Meets-before}
use subnet_benchmark.Store.Epochs.{
  create_or_reset_epoch, finish_epoch, list_scored_questions_in_range,
  list_scored_assignments_for_questions,
}
use subnet_benchmark.Store.Rewards.{delete_epoch_rewards}
use subnet_benchmark.Store.Proofs.{set_epoch_published}
use subnet_benchmark.Service.Settlement.{compute_stats, is_testnet}
use subnet_benchmark.Service.Settlement.Run.{
  SettlementService, cfg, payment_of, settle_stats, settle_questions, settle,
}
use subnet_benchmark.Store.Keeps.{Keeps-statement, Keeps-query, Meets-success}
use subnet_benchmark.Service.Settlement.Keeps.{
  Free, judge-Keeps, flags-Keeps, violations-Keeps, batch_save-Keeps, publish-Keeps,
}
use subnet_benchmark.Service.Settlement.Trees.{NoProofs, Verified}
use subnet_benchmark.Service.Settlement.Stored.{
  build_merkle_tree-Verified, changed-Verified, delete_proofs-NoProofs,
}

module _ (svc : SettlementService) (now epoch_date : ℕ) where
  free-NoProofs : Free (NoProofs epoch_date)
  free-NoProofs = record { questions = λ qs d h. h; sets = λ bs d h. h; workers = λ ws d h. h }

  free-Verified : Free (Verified svc.tree epoch_date)
  free-Verified = record {
    questions = λ qs d h. kept d _ refl refl h;
    sets = λ bs d h. kept d _ refl refl h;
    workers = λ ws d h. kept d _ refl refl h;
  }
    where
      kept :
          (d e : Db)
          → e.merkle_proofs ≡ d.merkle_proofs
          → e.epochs ≡ d.epochs
          → Verified svc.tree epoch_date d
          → Verified svc.tree epoch_date e
      kept d e same epochs (inl h) = inl (rw same h)
      kept d e same epochs (inr (top, h)) =
          inr (top, record { stored_root = rw epochs h.stored_root; rows = rw same h.rows })

  finish_epoch-Verified :
      (scored : ℕ) → Keeps (Verified svc.tree epoch_date) (finish_epoch now epoch_date scored)
  unfolding finish_epoch
  finish_epoch-Verified scored = changed-Verified svc.tree epoch_date _ (λ e. refl) (λ e. refl)

  published-Verified :
      (now' : ℕ) → Keeps (Verified svc.tree epoch_date) (set_epoch_published now' epoch_date)
  unfolding set_epoch_published
  published-Verified now' = changed-Verified svc.tree epoch_date _ (λ e. refl) (λ e. refl)

  settle_questions-Verified :
      (questions : List Question)
      → Meets
          (NoProofs epoch_date)
          (settle_questions svc now epoch_date questions)
          (λ _. Verified svc.tree epoch_date)
          (λ _. Unit {0})
  unfolding settle_questions settle_stats list_scored_assignments_for_questions
  settle_questions-Verified [] =
      Meets-before _ (λ d h. inl h)
        (Meets-success (Verified svc.tree epoch_date) _ (finish_epoch-Verified 0))
  settle_questions-Verified (q ∷ questions) =
      let c = cfg svc in
      let none_yet = NoProofs epoch_date in
      let verified = Verified svc.tree epoch_date in
      Meets-bind _ _ (Meets-success none_yet _ (Keeps-query none_yet _)) (λ assignments.
        let stats = compute_stats c.total_reward (q ∷ questions) assignments in
        Meets-bind _ _
          (Meets-success none_yet _ (
            batch_save-Keeps none_yet epoch_date (λ r d e h. h) svc.store_score c.min_tasks
              (svc.walk_stats stats)))
          (λ _.
            Meets-bind _ _
              (Meets-success none_yet _
                (judge-Keeps none_yet free-NoProofs c stats (q ∷ questions)))
              (λ _.
                Meets-bind _ _
                  (build_merkle_tree-Verified svc.tree epoch_date (is_testnet svc.rt_config)
                    (map (payment_of c.min_tasks) stats))
                  (λ _.
                    Meets-bind _ _
                      (Meets-success verified _ (finish_epoch-Verified (length (q ∷ questions))))
                      (λ _.
                        Meets-bind _ _
                          (Meets-success verified _ (violations-Keeps verified free-Verified))
                          (λ _. Meets-success verified _ (
                            publish-Keeps verified epoch_date published-Verified svc now
                              svc.onchain)))))))

  settle-Meets :
      Meets
        (λ _. Unit {0})
        (settle svc now epoch_date)
        (λ _. Verified svc.tree epoch_date)
        (λ _. Unit {0})
  unfolding settle create_or_reset_epoch delete_epoch_rewards list_scored_questions_in_range
  settle-Meets =
      let any = λ (d : Db). Unit {0} in
      let none_yet = NoProofs epoch_date in
      Meets-bind _ _ (Meets-success any _ (Keeps-statement any _ (λ d h. tt))) (λ _.
        Meets-bind _ _ (delete_proofs-NoProofs svc.tree epoch_date) (λ _.
          Meets-bind _ _ (Meets-success none_yet _ (Keeps-statement none_yet _ (λ d h. h))) (λ _.
            Meets-bind _ _
              (Meets-success none_yet _ (flags-Keeps none_yet free-NoProofs epoch_date _))
              (λ _.
                Meets-bind _ _ (Meets-success none_yet _ (Keeps-query none_yet _))
                  (λ questions. settle_questions-Verified questions)))))

  -- After a settlement that succeeds, either no proof is stored for the epoch, or the stored texts of
  -- every proof are those of the recipient's leaf and of a path that `verify` accepts for that leaf
  -- against the root whose text is the stored root of the epoch, if the
  -- epoch is stored.
  pub settle-Verified :
      (w : World)
      → Ends (λ _. Verified svc.tree epoch_date) (λ _. Unit {0}) (settle svc now epoch_date w)
  settle-Verified w = settle-Meets.at w tt
