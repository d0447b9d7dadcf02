-- ===== src/Examples/Scores.antt =====
-- service/scoring.go at three replies.
use mathlib.Core.List.Perm
use subnet_benchmark.Prelude.{
  ℕ, ◌+◌, ◌*◌, ◌^◌, ◌≤◌, ◌≡◌, Bool, true, false, List, [], ◌∷◌, none, some, String, arith, ◌&&◌,
}
use subnet_benchmark.Model.{Assignment, AssignmentStatus, Worker}
use subnet_benchmark.Store.Rows.{count_rows}
use subnet_benchmark.Store.Assignments.{has_id}
use subnet_benchmark.Service.Config.{minute}
use subnet_benchmark.Service.Scoring.{Group, compute_scores}
use subnet_benchmark.Service.Scoring.Groups.{is_read, scores_id}
use subnet_benchmark.Service.Scoring.Coverage.{compute_scores-count}
use subnet_benchmark.Service.Scoring.Shares.{stored_total, stored_total-le}
use subnet_benchmark.Service.Suspension.{suspended_until, suspended_until_lem, later_of}

abbrev pub replied_row : ℕ → Bool → String → Assignment
replied_row id valid answer = record {
  assignment_id = id;
  question_id = 1;
  worker = "worker";
  status = AssignmentStatus.replied;
  reply_ddl = 100;
  reply_valid = some valid;
  reply_answer = some answer;
  replied_at = some 50;
  share = 0;
  score = 0;
  created_at = 10;
}

abbrev three_replies : List Assignment
three_replies = replied_row 1 true "4" ∷ replied_row 2 true "5" ∷ replied_row 3 false "" ∷ []

abbrev in_order : List Group → List Group
in_order groups = groups

compute_scores-count_example :
    count_rows (scores_id 2) (compute_scores in_order "exact" "7" three_replies).answer_scores
    ≡ count_rows (λ a. has_id 2 a && is_read a) three_replies
compute_scores-count_example =
    compute_scores-count in_order "exact" "7" three_replies 2 (λ groups. Perm.refl groups)
      (unfold count_rows in omega arith)

stored_total-le_example :
    stored_total (compute_scores in_order "exact" "4" three_replies).answer_scores ≤ 10000
stored_total-le_example =
    stored_total-le in_order "exact" "4" three_replies (λ groups. Perm.refl groups) (omega arith)

abbrev pub some_worker : Worker
some_worker = record {
  address = "worker";
  suspended_until = some 70;
  epoch_violations = 2;
  last_poll_at = none;
  created_at = 1;
}

suspended_until_example :
    suspended_until 50 10 some_worker ≡ later_of 50 (some 70) + 10 * 2 ^ 2 * minute
suspended_until_example = suspended_until_lem 50 10 some_worker (omega arith)
