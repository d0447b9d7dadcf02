-- ===== src/Service/Scoring/Run.antt =====
-- ScoreQuestion of internal/service/scoring.go against the store.
use subnet_benchmark.Prelude.{
  ℕ, Bool, true, false, List, [], ◌∷◌, Option, none, some, ltb, if◌then◌else◌,
}
use subnet_benchmark.Model.{
  Question, Assignment, AssignmentStatus, BenchmarkSet, is_submitted, is_replied, internal_error,
}
use subnet_benchmark.Store.{M, ◌>>=◌, ◌>>◌, pure, fail}
use subnet_benchmark.Store.Rows.{select, find_row}
use subnet_benchmark.Store.Assignments.{list_assignments_by_question, set_assignment_score, has_id}
use subnet_benchmark.Store.Questions.{get_question, score_question_row}
use subnet_benchmark.Store.Sets.{get_benchmark_set}
use subnet_benchmark.Service.Config.{RuntimeConfig, suspension_threshold}
use subnet_benchmark.Service.Suspension.{maybe_suspend}
use subnet_benchmark.Service.Scoring.{Group, Scores, AnswerScore, compute_scores}

-- ScoringService: its configuration, and the order in which Go walks the groups of a majority.
pub record ScoringService : Type 0 where
  pub rt_config : Option RuntimeConfig
  pub base_suspension_minutes : ℕ
  pub walk : List Group → List Group

-- The loop of SetAssignmentScore; the first failure ends it.
unfoldable pub save_scores : List AnswerScore → M (Unit {0})
unfolding set_assignment_score
save_scores [] = pure tt
save_scores (s ∷ scores) =
    set_assignment_score s.id AssignmentStatus.scored s.score s.share >> save_scores scores

abbrev pub suspend_if_found : ScoringService → ℕ → Option Assignment → M (Unit {0})
suspend_if_found svc now none = pure tt
suspend_if_found svc now (some a) =
    maybe_suspend svc.rt_config svc.base_suspension_minutes now a.worker

-- The loop over the scores below the threshold.
unfoldable pub suspend_low : ScoringService → ℕ → List Assignment → List AnswerScore → M (Unit {0})
unfolding maybe_suspend find_row
suspend_low svc now assignments [] = pure tt
suspend_low svc now assignments (s ∷ scores) =
    (if ltb s.score (suspension_threshold svc.rt_config)
      then suspend_if_found svc now (find_row (has_id s.id) assignments)
      else pure tt)
    >> suspend_low svc now assignments scores

abbrev pub suspend_questioner : ScoringService → ℕ → Question → ℕ → M (Unit {0})
suspend_questioner svc now q score =
    if ltb score (suspension_threshold svc.rt_config)
    then maybe_suspend svc.rt_config svc.base_suspension_minutes now q.questioner
    else pure tt

-- What follows the UPDATE of the question; `false` means that it was scored already.
unfoldable pub save_answers :
    ScoringService → ℕ → Question → List Assignment → Scores → Bool → M (Unit {0})
unfolding save_scores suspend_low
save_answers svc now q assignments scores false = pure tt
save_answers svc now q assignments scores true = do
  save_scores scores.answer_scores
  suspend_questioner svc now q scores.question_score
  suspend_low svc now assignments scores.answer_scores

abbrev pub replied_of : List Assignment → List Assignment
replied_of = select (λ a. is_replied a.status)

unfoldable pub score_in_set :
    ScoringService → ℕ → Question → List Assignment → Option BenchmarkSet → M (Unit {0})
unfolding save_answers compute_scores score_question_row
score_in_set svc now q assignments none = fail internal_error
score_in_set svc now q assignments (some bs) = do
  let scores = compute_scores svc.walk bs.answer_check_method q.answer (replied_of assignments)
  updated ←
      score_question_row q.question_id scores.question_score scores.question_share scores.pass_rate
        now
  save_answers svc now q assignments scores updated

abbrev pub score_replied :
    ScoringService → ℕ → Question → List Assignment → List Assignment → M (Unit {0})
score_replied svc now q assignments [] = fail internal_error
score_replied svc now q assignments (a ∷ replied) = do
  bs ← get_benchmark_set q.bs_id
  score_in_set svc now q assignments bs

unfoldable pub score_submitted : ScoringService → ℕ → Question → M (Unit {0})
unfolding score_in_set list_assignments_by_question get_benchmark_set
score_submitted svc now q = do
  assignments ← list_assignments_by_question q.question_id
  score_replied svc now q assignments (replied_of assignments)

unfoldable pub score_found : ScoringService → ℕ → Option Question → M (Unit {0})
unfolding score_submitted
score_found svc now none = pure tt
score_found svc now (some q) = if is_submitted q.status then score_submitted svc now q else pure tt

unfoldable pub score_question : ScoringService → ℕ → ℕ → M (Unit {0})
unfolding score_found get_question
score_question svc now question_id = do q ← get_question question_id; score_found svc now q
