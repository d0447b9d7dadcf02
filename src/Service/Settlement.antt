-- ===== src/Service/Settlement.antt =====
-- internal/service/settlement.go: the statistics of an epoch's workers and their rewards. A Go map is
-- a list of entries in the order of their first use; ranges over maps go in an order that is given.
pub mod Totals
pub mod Payout
pub mod Pool
pub mod Tree
pub mod Keeps
pub mod Whole
pub mod Elsewhere
pub mod Retries
pub mod Trees
pub mod Stored
pub mod Verified
pub mod Amounts
pub mod Run
use subnet_benchmark.Prelude.{
  ℕ, zero, suc, ◌+◌, ◌-◌, ◌*◌, ◌/◌, Bool, true, false, ◌&&◌, ◌||◌, not, List, [], ◌∷◌, ◌++◌, map,
  length, Option, none, some, String, str_eq, ltb, leb, ◌==◌, if◌then◌else◌,
}
use subnet_benchmark.Model.{
  Question, Assignment, AssignmentStatus, Fraction, WorkerEpochReward, is_timed_out,
}
use subnet_benchmark.Float64.{of_int, of_numeric, times, divided, plus, is_less, truncate}
use subnet_benchmark.Store.Rows.{select}
use subnet_benchmark.Store.Assignments.{of_question}
use subnet_benchmark.Store.Epochs.{is_scored}
use subnet_benchmark.Service.Config.{RuntimeConfig}

-- SettlementConfig; the least composite score of a benchmark's questioner is a double.
pub record SettlementConfig : Type 0 where
  pub total_reward : ℕ
  pub min_tasks : ℕ
  pub benchmark_min_score : Fraction

abbrev pub default_settlement_config : SettlementConfig
default_settlement_config = record {
  total_reward = 1000000;
  min_tasks = 10;
  benchmark_min_score = divided (of_int 6) (of_int 10);
}

-- SettlementService.cfg
abbrev pub settlement_config : Option RuntimeConfig → SettlementConfig → SettlementConfig
settlement_config none config = config
settlement_config (some rt) config = record {
  total_reward = rt.total_reward;
  min_tasks = rt.min_tasks;
  benchmark_min_score = rt.benchmark_min_score;
}

-- isTestnet
abbrev pub is_testnet : Option RuntimeConfig → Bool
is_testnet none = false
is_testnet (some rt) = rt.testnet_mode

-- An entry of the map `stats`.
pub record MinerStats : Type 0 where
  pub address : String
  pub scored_asks : ℕ
  pub scored_answers : ℕ
  pub timed_out_answers : ℕ
  pub ask_score_sum : ℕ
  pub answer_score_sum : ℕ
  pub raw_reward : ℕ

abbrev pub no_stats : String → MinerStats
no_stats address = record {
  address = address;
  scored_asks = 0;
  scored_answers = 0;
  timed_out_answers = 0;
  ask_score_sum = 0;
  answer_score_sum = 0;
  raw_reward = 0;
}

-- ensureStats, and what is done with the entry.
unfoldable pub with_stats : String → (MinerStats → MinerStats) → List MinerStats → List MinerStats
with_stats address change [] = change (no_stats address) ∷ []
with_stats address change (s ∷ stats) =
    let rest = with_stats address change stats in
    if str_eq s.address address then change s ∷ stats else s ∷ rest

-- int64(float64(pool) * share)
unfoldable pub pay : ℕ → ℕ → ℕ
unfolding truncate times of_int of_numeric
pay pool share = truncate (times (of_int pool) (of_numeric share))

abbrev pub tally_ask : ℕ → Question → MinerStats → MinerStats
tally_ask ask_pool q s = record s {
  scored_asks = s.scored_asks + 1;
  ask_score_sum = s.ask_score_sum + q.score;
  raw_reward = s.raw_reward + pay ask_pool q.share;
}

abbrev pub one_if : Bool → ℕ
one_if b = if b then 1 else 0

abbrev pub tally_answer : ℕ → Assignment → MinerStats → MinerStats
tally_answer answer_pool a s = record s {
  scored_answers = s.scored_answers + one_if (is_scored a.status);
  timed_out_answers = s.timed_out_answers + one_if (is_timed_out a.status);
  answer_score_sum = s.answer_score_sum + a.score;
  raw_reward = s.raw_reward + pay answer_pool a.share;
}

unfoldable pub tally_answers : ℕ → List Assignment → List MinerStats → List MinerStats
unfolding with_stats pay
tally_answers answer_pool [] stats = stats
tally_answers answer_pool (a ∷ assignments) stats =
    tally_answers answer_pool assignments (with_stats a.worker (tally_answer answer_pool a) stats)

unfoldable pub tally_questions :
    ℕ → ℕ → List Assignment → List Question → List MinerStats → List MinerStats
unfolding with_stats pay tally_answers select
tally_questions ask_pool answer_pool assignments [] stats = stats
tally_questions ask_pool answer_pool assignments (q ∷ questions) stats =
    tally_questions ask_pool answer_pool assignments questions (
      tally_answers answer_pool (select (of_question q.question_id) assignments)
        (with_stats q.questioner (tally_ask ask_pool q) stats))

-- The reward of one question, of which a third, rounded down, goes to its questioner.
abbrev pub base_reward : ℕ → ℕ → ℕ
base_reward total_reward questions = total_reward / questions

unfoldable pub compute_stats : ℕ → List Question → List Assignment → List MinerStats
unfolding tally_questions
compute_stats total_reward questions assignments =
    let base = base_reward total_reward (length questions) in
    tally_questions (base / 3) (base - base / 3) assignments questions []

abbrev pub ten : Fraction
ten = record { num = 10; den = 1 }

abbrev pub average : ℕ → ℕ → Fraction
average total count = divided (of_int total) (of_int count)

unfoldable pub composite_score : MinerStats → Fraction
unfolding divided of_int plus
composite_score s =
    let asks = average s.ask_score_sum s.scored_asks in
    let answers = average s.answer_score_sum (s.scored_answers + s.timed_out_answers) in
    if ltb 0 s.scored_asks && ltb 0 (s.scored_answers + s.timed_out_answers)
    then divided (plus asks answers) ten
    else if ltb 0 s.scored_asks
    then divided asks ten
    else if ltb 0 (s.scored_answers + s.timed_out_answers)
    then divided answers ten
    else record { num = 0; den = 1 }

-- Below the least number of tasks there is no reward.
unfoldable pub final_reward : ℕ → MinerStats → ℕ
unfolding composite_score truncate times of_int
final_reward min_tasks s =
    if leb min_tasks (s.scored_asks + s.scored_answers)
    then truncate (times (of_int s.raw_reward) (composite_score s))
    else 0

-- `store_score` is the value that the column keeps of a double.
unfoldable pub reward_row : (Fraction → ℕ) → ℕ → ℕ → MinerStats → WorkerEpochReward
unfolding composite_score final_reward
reward_row store_score epoch_date min_tasks s = record {
  epoch_date = epoch_date;
  worker_address = s.address;
  recipient = none;
  scored_asks = s.scored_asks;
  scored_answers = s.scored_answers;
  timed_out_answers = s.timed_out_answers;
  ask_score_sum = s.ask_score_sum;
  answer_score_sum = s.answer_score_sum;
  raw_reward = s.raw_reward;
  composite_score = store_score (composite_score s);
  final_reward = final_reward min_tasks s;
}

abbrev pub score_of : List MinerStats → String → Fraction
score_of [] address = record { num = 0; den = 1 }
score_of (s ∷ stats) address =
    if str_eq s.address address then composite_score s else score_of stats address
