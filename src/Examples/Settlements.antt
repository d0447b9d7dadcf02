-- ===== src/Examples/Settlements.antt =====
-- internal/service/settlement.go at a scored question with two answers.
use mathlib.Core.List.Perm
use subnet_benchmark.Prelude.{
  ℕ, ◌≡◌, ◌≤◌, refl, Bool, true, false, ◌++◌, List, [], ◌∷◌, map, arith, some, String,
}
use subnet_benchmark.Model.{
  Question, Assignment, QuestionStatus, AssignmentStatus, WorkerEpochReward, Result, ok, err,
}
use subnet_benchmark.Store.{World, statement}
use subnet_benchmark.Store.Epochs.{new_epoch}
use subnet_benchmark.Store.Rewards.{batch_save_worker_epoch_rewards}
use subnet_benchmark.Store.Batches.{batch_save-Holds}
use subnet_benchmark.Store.Meets.{Ends}
use subnet_benchmark.Store.Questions.{new_question}
use subnet_benchmark.Store.Assignments.{new_assignment}
use subnet_benchmark.Store.Rows.{select}
use subnet_benchmark.Store.Workers.{new_worker}
use subnet_benchmark.Float64.{
  round_even, scale_up, scale_down, round, of_int, of_numeric, times, divided, plus, truncate,
}
use subnet_benchmark.Service.Rootnet.{get_reward_recipient, to_lower}
use subnet_benchmark.Service.Settlement.{
  MinerStats, with_stats, pay, tally_answers, tally_questions, compute_stats, composite_score,
  final_reward, reward_row,
}
use subnet_benchmark.Service.Settlement.Totals.{total_raw, SharesFit, compute_stats-le}
use subnet_benchmark.Service.Settlement.Payout.{final_reward-le}
use subnet_benchmark.Service.Settlement.Pool.{total_final, total_final-le}
use subnet_benchmark.Service.Settlement.Tree.{
  RecipientResult, eligible, resolve, look_up_all, lookup_recipient, recipient_rewards,
}
use subnet_benchmark.Service.Settlement.Retries.{Looked, lookup_recipient_lem}
use subnet_benchmark.Service.Settlement.Run.{settle}
use subnet_benchmark.Service.Settlement.Amounts.{total_amount, leaves-le}
use subnet_benchmark.Service.Settlement.Elsewhere.{Elsewhere, settle-Elsewhere}
use subnet_benchmark.Service.Settlement.Trees.{Verified}
use subnet_benchmark.Service.Settlement.Verified.{settle-Verified}
use subnet_benchmark.Handler.{Http, written}
use subnet_benchmark.Handler.Claims.{ClaimView, handle_claim}
use subnet_benchmark.Handler.Claimable.{Served, handle_claim-Served}
use subnet_benchmark.Examples.Tables.{small_db, world_of, settlement_service}

abbrev scored_questions : List Question
scored_questions =
    record (new_question 1 "sums" "asker" "2 + 2" "4" [] 5) {
      status = QuestionStatus.scored;
      score = 5;
      share = 9000;
      scored_at = some 60;
    }
    ∷ []

abbrev scored_answer : ℕ → String → Assignment
scored_answer id worker = record (new_assignment id 1 worker 100 10) {
  status = AssignmentStatus.scored;
  score = 5;
  share = 5000;
}

abbrev scored_answers : List Assignment
scored_answers = scored_answer 1 "miner" ∷ scored_answer 2 "other" ∷ []

unfoldable stats : List MinerStats
unfolding compute_stats
stats = compute_stats 1000 scored_questions scored_answers

shares : SharesFit scored_answers scored_questions
unfolding select
shares = (omega arith, omega arith, tt)

-- A third of the reward, at 0.9, for the questioner, and half of the rest for each answer.
raw : map (λ s. s.raw_reward) stats ≡ 299 ∷ 333 ∷ 333 ∷ []
unfolding stats compute_stats tally_questions tally_answers with_stats select pay of_int of_numeric
    times truncate round round_even scale_up scale_down
raw = refl

compute_stats-le_example : total_raw (compute_stats 1000 scored_questions scored_answers) ≤ 1000
compute_stats-le_example =
    compute_stats-le 1000 scored_questions scored_answers (omega arith) shares

total_final-le_example : total_final 1 (compute_stats 1000 scored_questions scored_answers) ≤ 1000
total_final-le_example =
    total_final-le 1000 1 scored_questions scored_answers (omega arith) (omega arith) shares
      (omega arith, tt) ((omega arith, refl), ((omega arith, refl), tt))

abbrev two_roles : MinerStats
two_roles = record {
  address = "miner";
  scored_asks = 1;
  scored_answers = 2;
  timed_out_answers = 1;
  ask_score_sum = 5;
  answer_score_sum = 8;
  raw_reward = 700;
}

final_reward-le_example : final_reward 1 two_roles ≤ 700
final_reward-le_example =
    final_reward-le 4 1 two_roles (omega arith) (omega arith)
      (record { tasks = omega arith; ask_scores = omega arith; answer_scores = omega arith })

-- (5.0 + 8 / 3) / 10.0 is just below 0.76666…, and 700 of that is cut to 536.
two_roles-reward : final_reward 1 two_roles ≡ 536
unfolding final_reward composite_score divided plus of_int times truncate round round_even scale_up
    scale_down
two_roles-reward = refl

lookup_recipient_example :
    Looked settlement_service.tree.request "Miner" 3 1
      (lookup_recipient settlement_service.tree.request "Miner" 3 1)
lookup_recipient_example = lookup_recipient_lem settlement_service.tree.request "Miner" 3 1

-- The second attempt succeeds.
lookup_recipient-second : lookup_recipient settlement_service.tree.request "Miner" 3 1 ≡ ok "miner"
unfolding lookup_recipient get_reward_recipient to_lower
lookup_recipient-second = refl

abbrev own : ℕ → String → RecipientResult
own amount worker = record { worker_addr = worker; recipient = worker; reward = amount }

leaves-le_example :
    total_amount (recipient_rewards (own 149 "asker" ∷ own 166 "miner" ∷ own 166 "other" ∷ []) [])
    ≤ 1000
unfolding resolve eligible look_up_all lookup_recipient get_reward_recipient to_lower select
    compute_stats tally_questions tally_answers with_stats pay of_int of_numeric times truncate
    round round_even scale_up scale_down final_reward composite_score divided plus
leaves-le_example =
    leaves-le settlement_service.tree true 1000 1 scored_questions scored_answers
      (own 149 "asker" ∷ own 166 "miner" ∷ own 166 "other" ∷ []) (λ payments. Perm.refl payments)
      (λ payments. Perm.refl payments) refl (omega arith) (omega arith) shares (omega arith, tt)
      ((omega arith, refl), ((omega arith, refl), tt))

abbrev scored_world : World
scored_world = world_of (record small_db {
  workers = new_worker "asker" 1 ∷ new_worker "miner" 1 ∷ new_worker "other" 1 ∷ [];
  questions = scored_questions;
  assignments = scored_answers;
})

settle-Elsewhere_example :
    Elsewhere 0 scored_world.db (settle settlement_service 90 0 scored_world).1.db
settle-Elsewhere_example = settle-Elsewhere settlement_service 90 0 scored_world

settle-Verified_example :
    Ends
      (λ _. Verified settlement_service.tree 0)
      (λ _. Unit {0})
      (settle settlement_service 90 0 scored_world)
settle-Verified_example = settle-Verified settlement_service 90 0 scored_world

abbrev settled : World
settled = (settle settlement_service 90 0 scored_world).1

-- The settlement succeeds: three recipients are paid, and each has a proof.
settled-amounts : map (λ p. p.amount) settled.db.merkle_proofs ≡ 149 ∷ 166 ∷ 166 ∷ []
unfolding settle statement
settled-amounts = refl

settled-Verified : Verified settlement_service.tree 0 settled.db
unfolding settle statement
settled-Verified = settle-Verified settlement_service 90 0 scored_world

handle_claim-Served_example :
    Ends
      (λ reply _. Served settlement_service.tree reply)
      (λ _. Unit {0})
      (handle_claim "Miner" (some 0) settled)
handle_claim-Served_example =
    handle_claim-Served settlement_service.tree 0 settled settled-Verified "Miner"

abbrev amount_of : Result (Http ClaimView) → ℕ
amount_of (ok (written status v)) = v.amount
amount_of _ = 0

settled-claim : amount_of (handle_claim "Miner" (some 0) settled).0 ≡ 166
unfolding settle statement handle_claim
settled-claim = refl

abbrev opened : World
opened = world_of (record small_db { epochs = new_epoch 0 1000 ∷ [] })

abbrev one_row : List WorkerEpochReward
one_row = reward_row (λ x. 0) 0 1 two_roles ∷ []

batch_save-Holds_example :
    Ends
      (λ _ d. d.worker_epoch_rewards ≡ [] ++ one_row)
      (λ _. Unit {0})
      (batch_save_worker_epoch_rewards one_row opened)
unfolding reward_row
batch_save-Holds_example = batch_save-Holds one_row opened

abbrev succeeds : {A : Type 0} → Result A → Bool
succeeds (ok a) = true
succeeds (err e) = false

batch_saved : succeeds (batch_save_worker_epoch_rewards one_row opened).0 ≡ true
unfolding batch_save_worker_epoch_rewards statement reward_row
batch_saved = refl
