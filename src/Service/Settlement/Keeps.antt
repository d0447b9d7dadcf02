-- ===== src/Service/Settlement/Keeps.antt =====
-- A statement about the tables that each write of a settlement keeps true stays true.
use subnet_benchmark.Prelude.{
  All, Bool-cases, inl, inr, take, drop, ℕ, zero, suc, ◌≡◌, refl, List, [], ◌∷◌, map, Option, none,
  some, String, ltb,
}
use subnet_benchmark.Store.Rows.{update_rows}
use subnet_benchmark.Service.Onchain.{
  OnchainService, unconfigured, onchain_config, sent, publish_root, publish_merkle_root,
}
use subnet_benchmark.Service.Settlement.{
  SettlementConfig, MinerStats, is_testnet, reward_row, score_of,
}
use subnet_benchmark.Service.Settlement.Tree.{RecipientResult, set_recipients}
use subnet_benchmark.Service.Settlement.Run.{SettlementService, judge, judge_counted, publish}
use subnet_benchmark.Model.{
  BenchmarkSet, Worker, Question, WorkerEpochReward, Fraction, internal_error, Result, ok, err,
}
use subnet_benchmark.Float64.{is_less}
use subnet_benchmark.Store.{Db}
use subnet_benchmark.Store.Meets.{Keeps, Meets-bind, Meets-ignore}
use subnet_benchmark.Store.Epochs.{
  reset_benchmark_flags, count_invalid_reports, mark_benchmark, reset_all_epoch_violations,
}
use subnet_benchmark.Store.Rewards.{
  has_worker, add_reward, may_insert_reward, insert_each, inserted_or_not, insert_rewards,
  save_batches, batch_save_worker_epoch_rewards, set_worker_epoch_recipient,
}
use subnet_benchmark.Store.Proofs.{set_epoch_published, get_epoch_merkle_root}
use subnet_benchmark.Store.Keeps.{Keeps-statement, Keeps-query, Keeps-pure, Keeps-fail, Keeps-if}

-- `P` says nothing of the questions, the sets and the workers.
pub record Free (P : Db → Type 0) : Type 0 where
  pub questions : (qs : List Question) (d : Db) → P d → P (record d { questions = qs })
  pub sets : (bs : List BenchmarkSet) (d : Db) → P d → P (record d { benchmark_sets = bs })
  pub workers : (ws : List Worker) (d : Db) → P d → P (record d { workers = ws })

module _ (P : Db → Type 0) (free : Free P) where
  mark_benchmark-Keeps :
      (question_id : ℕ) (bs_id : String) → Keeps P (mark_benchmark question_id bs_id)
  unfolding mark_benchmark
  mark_benchmark-Keeps question_id bs_id =
      Meets-bind _ _ (Keeps-statement P _ (λ d p. free.questions _ d p))
        (λ _. Keeps-statement P _ (λ d p. free.sets _ d p))

  judge_counted-Keeps :
      (c : SettlementConfig) (stats : List MinerStats) (q : Question) (invalid : ℕ)
      → Keeps P (judge_counted c stats q invalid)
  judge_counted-Keeps c stats q invalid = Keeps-if P (ltb 1 invalid) _ _ (Keeps-pure P tt) (
      Keeps-if P (is_less (score_of stats q.questioner) c.benchmark_min_score) _ _ (Keeps-pure P tt)
        (mark_benchmark-Keeps q.question_id q.bs_id))

  pub judge-Keeps :
      (c : SettlementConfig) (stats : List MinerStats) (questions : List Question)
      → Keeps P (judge c stats questions)
  unfolding judge count_invalid_reports
  judge-Keeps c stats [] = Keeps-pure P tt
  judge-Keeps c stats (q ∷ questions) =
      Meets-bind _ _
        (Keeps-if P (ltb q.score 4) _ _ (Keeps-pure P tt)
          (Meets-bind _ _ (Keeps-query P _) (λ invalid. judge_counted-Keeps c stats q invalid)))
        (λ _. judge-Keeps c stats questions)

  pub flags-Keeps : (start end_ : ℕ) → Keeps P (reset_benchmark_flags start end_)
  unfolding reset_benchmark_flags
  flags-Keeps start end_ = Keeps-statement P _ (λ d p. free.questions _ d p)

  pub violations-Keeps : Keeps P reset_all_epoch_violations
  unfolding reset_all_epoch_violations
  violations-Keeps = Keeps-statement P _ (λ d p. free.workers _ d p)

abbrev pub Dated : ℕ → List WorkerEpochReward → Type 0
Dated epoch_date rewards = All (λ r. r.epoch_date ≡ epoch_date) rewards

All-take {ℓ κ} : {A : Type ℓ} (P : A → Type κ) (n : ℕ) (xs : List A) → All P xs → All P (take n xs)
All-take P zero xs h = tt
All-take P (suc n) [] h = tt
All-take P (suc n) (x ∷ xs) h = (h.0, All-take P n xs h.1)

All-drop {ℓ κ} : {A : Type ℓ} (P : A → Type κ) (n : ℕ) (xs : List A) → All P xs → All P (drop n xs)
All-drop P zero xs h = h
All-drop P (suc n) [] h = tt
All-drop P (suc n) (x ∷ xs) h = All-drop P n xs h.1

-- Each reward that is added, and each recipient that is set, keeps `P`.
module _ (P : Db → Type 0) (epoch_date : ℕ) where
  abbrev KeptBy : Option Db → Type 0
  KeptBy none = Unit {0}
  KeptBy (some d) = P d

  module _
      (added : (r : WorkerEpochReward) (d : Db)
        → r.epoch_date ≡ epoch_date
        → P d
        → P (add_reward r d)) where
    insert_each-Keeps :
        (rewards : List WorkerEpochReward) (d : Db)
        → Dated epoch_date rewards
        → P d
        → KeptBy (insert_each rewards d)
    unfolding insert_each
    insert_each-Keeps [] d dated p = p
    insert_each-Keeps (r ∷ rewards) d dated p = elim (Bool-cases (may_insert_reward r d)) [
      | inl may ↦ rw may (insert_each-Keeps rewards (add_reward r d) dated.1 (added r d dated.0 p))
      | inr not_ ↦ rw not_ tt
    ]

    inserted : (d : Db) (e : Option Db) → P d → KeptBy e → P (inserted_or_not d e).1
    inserted d none p k = p
    inserted d (some e) p k = k

    save_batches-Keeps :
        (rounds : ℕ) (rewards : List WorkerEpochReward)
        → Dated epoch_date rewards
        → Keeps P (save_batches rounds rewards)
    unfolding save_batches insert_rewards
    save_batches-Keeps rounds [] dated = Keeps-pure P tt
    save_batches-Keeps zero (r ∷ rewards) dated = Keeps-pure P tt
    save_batches-Keeps (suc rounds) (r ∷ rewards) dated =
        Meets-bind _ _
          (Keeps-statement P _ (λ d p.
            inserted d (insert_each (take 100 (r ∷ rewards)) d) p (
              insert_each-Keeps (take 100 (r ∷ rewards)) d (All-take _ 100 (r ∷ rewards) dated) p)))
          (λ _.
            save_batches-Keeps rounds (drop 100 (r ∷ rewards)) (All-drop _ 100 (r ∷ rewards) dated))

    reward_rows-Dated :
        (store_score : Fraction → ℕ) (min_tasks : ℕ) (stats : List MinerStats)
        → Dated epoch_date (map (reward_row store_score epoch_date min_tasks) stats)
    unfolding reward_row
    reward_rows-Dated store_score min_tasks [] = tt
    reward_rows-Dated store_score min_tasks (s ∷ stats) =
        (refl, reward_rows-Dated store_score min_tasks stats)

    pub batch_save-Keeps :
        (store_score : Fraction → ℕ) (min_tasks : ℕ) (stats : List MinerStats)
        → Keeps P (
            batch_save_worker_epoch_rewards
              (map (reward_row store_score epoch_date min_tasks) stats))
    unfolding batch_save_worker_epoch_rewards
    batch_save-Keeps store_score min_tasks stats =
        save_batches-Keeps _ (map (reward_row store_score epoch_date min_tasks) stats)
          (reward_rows-Dated store_score min_tasks stats)

  pub set_recipients-Keeps :
      ((address recipient : String) (d : Db)
        → P d
        → P (record d {
          worker_epoch_rewards =
              update_rows
                (has_worker epoch_date address)
                (λ r. record r { recipient = some recipient })
                d.worker_epoch_rewards;
        }))
      → (results : List RecipientResult) → Keeps P (set_recipients epoch_date results)
  unfolding set_recipients set_worker_epoch_recipient
  set_recipients-Keeps set [] = Keeps-pure P tt
  set_recipients-Keeps set (e ∷ results) =
      Meets-bind _ _ (Keeps-statement P _ (λ d p. set e.worker_addr e.recipient d p))
        (λ _. set_recipients-Keeps set results)

  module _ (published : (now : ℕ) → Keeps P (set_epoch_published now epoch_date)) where
    publish_root-Keeps :
        (svc : OnchainService) (now : ℕ) (top : List ℕ)
        → Keeps P (publish_root svc now epoch_date top)
    unfolding publish_root
    publish_root-Keeps svc now [] = Keeps-fail P internal_error
    publish_root-Keeps svc now (c ∷ top) = ended (svc.send _ _ (c ∷ top))
      where
        ended : (r : Result (Unit {0})) → Keeps P (sent now epoch_date r)
        ended (ok _) = published now
        ended (err e) = Keeps-fail P e

    pub publish-Keeps :
        (svc : SettlementService) (now : ℕ) (chain : Option OnchainService)
        → Keeps P (publish svc now epoch_date chain)
    unfolding publish publish_merkle_root get_epoch_merkle_root
    publish-Keeps svc now none = Keeps-pure P tt
    publish-Keeps svc now (some chain) =
        Keeps-if P (is_testnet svc.rt_config) _ _ (Keeps-pure P tt) (
          Meets-ignore _ (
            Keeps-if P (unconfigured (onchain_config chain.rt_config chain.config)) _ _
              (Keeps-fail P internal_error)
              (Meets-bind _ _ (Keeps-query P _) (λ top. publish_root-Keeps chain now top))))
