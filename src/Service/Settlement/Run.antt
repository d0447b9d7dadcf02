-- ===== src/Service/Settlement/Run.antt =====
-- Settle of internal/service/settlement.go.
use subnet_benchmark.Prelude.{
  ℕ, ◌+◌, Bool, List, [], ◌∷◌, map, length, Option, none, some, ltb, if◌then◌else◌,
}
use subnet_benchmark.Model.{Question, Fraction}
use subnet_benchmark.Float64.{is_less}
use subnet_benchmark.Store.{M, ◌>>=◌, ◌>>◌, pure, ignore}
use subnet_benchmark.Store.Epochs.{
  create_or_reset_epoch, reset_benchmark_flags, finish_epoch, list_scored_questions_in_range,
  list_scored_assignments_for_questions, count_invalid_reports, mark_benchmark,
  reset_all_epoch_violations,
}
use subnet_benchmark.Store.Rewards.{delete_epoch_rewards, batch_save_worker_epoch_rewards}
use subnet_benchmark.Store.Proofs.{delete_epoch_merkle_proofs}
use subnet_benchmark.Service.Config.{RuntimeConfig}
use subnet_benchmark.Service.Onchain.{OnchainService, publish_merkle_root, day_length}
use subnet_benchmark.Service.Settlement.{
  SettlementConfig, settlement_config, is_testnet, MinerStats, compute_stats, reward_row,
  final_reward, score_of,
}
use subnet_benchmark.Service.Settlement.Tree.{TreeService, Payment, build_merkle_tree}

-- SettlementService; `walk_stats` is the order in which Go ranges over the statistics.
pub record SettlementService : Type 0 where
  pub config : SettlementConfig
  pub rt_config : Option RuntimeConfig
  pub tree : TreeService
  pub onchain : Option OnchainService
  pub walk_stats : List MinerStats → List MinerStats
  pub store_score : Fraction → ℕ

abbrev pub cfg : SettlementService → SettlementConfig
cfg svc = settlement_config svc.rt_config svc.config

abbrev mark_if : Bool → Question → M (Unit {0})
mark_if low q = if low then pure tt else mark_benchmark q.question_id q.bs_id

-- More than one invalid report, or a low composite score of the questioner, rules a question out.
abbrev pub judge_counted : SettlementConfig → List MinerStats → Question → ℕ → M (Unit {0})
judge_counted c stats q invalid =
    if ltb 1 invalid
    then pure tt
    else mark_if (is_less (score_of stats q.questioner) c.benchmark_min_score) q

unfoldable pub judge : SettlementConfig → List MinerStats → List Question → M (Unit {0})
unfolding count_invalid_reports mark_benchmark is_less
judge c stats [] = pure tt
judge c stats (q ∷ questions) =
    (if ltb q.score 4
      then pure tt
      else (do invalid ← count_invalid_reports q.question_id; judge_counted c stats q invalid))
    >> judge c stats questions

abbrev pub payment_of : ℕ → MinerStats → Payment
payment_of min_tasks s = record { payee = s.address; amount = final_reward min_tasks s }

-- A failure to publish is logged and dropped.
unfoldable pub publish : SettlementService → ℕ → ℕ → Option OnchainService → M (Unit {0})
unfolding publish_merkle_root ignore
publish svc now epoch_date none = pure tt
publish svc now epoch_date (some chain) =
    if is_testnet svc.rt_config then pure tt else ignore (publish_merkle_root chain now epoch_date)

unfoldable pub settle_stats :
    SettlementService → ℕ → ℕ → List Question → List MinerStats → M (Unit {0})
unfolding batch_save_worker_epoch_rewards reward_row final_reward judge build_merkle_tree
    finish_epoch reset_all_epoch_violations publish
settle_stats svc now epoch_date questions stats =
    batch_save_worker_epoch_rewards
      (map (reward_row svc.store_score epoch_date (cfg svc).min_tasks) (svc.walk_stats stats))
    >> (judge (cfg svc) stats questions
        >> (build_merkle_tree svc.tree (is_testnet svc.rt_config) epoch_date
              (map (payment_of (cfg svc).min_tasks) stats)
            >> (finish_epoch now epoch_date (length questions)
                >> (reset_all_epoch_violations >> publish svc now epoch_date svc.onchain))))

abbrev pub ids_of : List Question → List ℕ
ids_of = map (λ q. q.question_id)

unfoldable pub settle_questions : SettlementService → ℕ → ℕ → List Question → M (Unit {0})
unfolding finish_epoch list_scored_assignments_for_questions compute_stats settle_stats
settle_questions svc now epoch_date [] = finish_epoch now epoch_date 0
settle_questions svc now epoch_date (q ∷ questions) = do
  assignments ← list_scored_assignments_for_questions (ids_of (q ∷ questions))
  settle_stats svc now epoch_date (q ∷ questions)
      (compute_stats (cfg svc).total_reward (q ∷ questions) assignments)

-- Settle, for the day that begins at `epoch_date`.
unfoldable pub settle : SettlementService → ℕ → ℕ → M (Unit {0})
unfolding create_or_reset_epoch delete_epoch_merkle_proofs delete_epoch_rewards
    reset_benchmark_flags list_scored_questions_in_range settle_questions
settle svc now epoch_date = do
  epoch ← create_or_reset_epoch epoch_date (cfg svc).total_reward
  delete_epoch_merkle_proofs epoch_date
  delete_epoch_rewards epoch_date
  reset_benchmark_flags epoch_date (epoch_date + day_length)
  questions ← list_scored_questions_in_range epoch_date (epoch_date + day_length)
  settle_questions svc now epoch_date questions
