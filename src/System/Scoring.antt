-- ===== src/System/Scoring.antt =====
-- internal/service/scoring.go and timer.go: what the operations keep true of the assignments.
use subnet_benchmark.Prelude.{
  ℕ, refl, Bool, true, false, List, [], ◌∷◌, Option, none, some, String, ltb, ◌==◌,
}
use subnet_benchmark.Model.{Assignment, Question, BenchmarkSet, Worker, is_submitted}
use subnet_benchmark.Store.{M, ignore}
use subnet_benchmark.Store.Rows.{find_row}
use subnet_benchmark.Store.Assignments.{has_id, list_assignments_by_question}
use subnet_benchmark.Store.Questions.{get_question, score_question_row, score_row}
use subnet_benchmark.Store.Sets.{get_benchmark_set}
use subnet_benchmark.Store.Workers.{get_worker, suspend_worker}
use subnet_benchmark.Store.Meets.{Keeps, Meets-ignore}
use subnet_benchmark.Service.Config.{RuntimeConfig, suspension_threshold, base_susp_minutes}
use subnet_benchmark.Service.Suspension.{maybe_suspend, suspend_found}
use subnet_benchmark.Service.Scoring.{Scores, AnswerScore, compute_scores}
use subnet_benchmark.Service.Scoring.Run.{
  ScoringService, save_scores, suspend_if_found, suspend_low, suspend_questioner, save_answers,
  replied_of, score_in_set, score_replied, score_submitted, score_found, score_question,
}
use subnet_benchmark.System.{Inv}
use subnet_benchmark.System.Statements.{set_assignment_score-Inv}
use subnet_benchmark.System.Operations.{other-Inv, query-Inv, fail-Inv, pure-Inv, bind-Inv, if-Inv}

module _ (required now : ℕ) where
  ignore-Inv : {A : Type 0} (m : M A) → Keeps (Inv required) m → Keeps (Inv required) (ignore m)
  ignore-Inv m h = Meets-ignore m h

  module _ (config : Option RuntimeConfig) (fallback : ℕ) (address : String) where
    suspend_found-Inv :
        (base : ℕ) (w : Option Worker) → Keeps (Inv required) (suspend_found now base address w)
    unfolding suspend_worker
    suspend_found-Inv base none = pure-Inv required tt
    suspend_found-Inv base (some w) = ignore-Inv _ (other-Inv required _ (λ d. refl))

    maybe_suspend-Inv : Keeps (Inv required) (maybe_suspend config fallback now address)
    unfolding maybe_suspend get_worker
    maybe_suspend-Inv =
        if-Inv required (suspension_threshold config == 0) _ _ (pure-Inv required tt) (
          ignore-Inv _ (
            bind-Inv required _ _ (query-Inv required _)
              (suspend_found-Inv (base_susp_minutes config fallback))))

  save_scores-Inv : (scores : List AnswerScore) → Keeps (Inv required) (save_scores scores)
  unfolding save_scores
  save_scores-Inv [] = pure-Inv required tt
  save_scores-Inv (s ∷ scores) =
      bind-Inv required _ _ (set_assignment_score-Inv required s.id s.score s.share)
        (λ _. save_scores-Inv scores)

  module _ (svc : ScoringService) where
    suspend_if_found-Inv :
        (a : Option Assignment) → Keeps (Inv required) (suspend_if_found svc now a)
    suspend_if_found-Inv none = pure-Inv required tt
    suspend_if_found-Inv (some a) =
        maybe_suspend-Inv svc.rt_config svc.base_suspension_minutes a.worker

    suspend_low-Inv :
        (assignments : List Assignment) (scores : List AnswerScore)
        → Keeps (Inv required) (suspend_low svc now assignments scores)
    unfolding suspend_low
    suspend_low-Inv assignments [] = pure-Inv required tt
    suspend_low-Inv assignments (s ∷ scores) =
        bind-Inv required _ _
          (if-Inv required (ltb s.score (suspension_threshold svc.rt_config)) _ _
            (suspend_if_found-Inv (find_row (has_id s.id) assignments)) (pure-Inv required tt))
          (λ _. suspend_low-Inv assignments scores)

    suspend_questioner-Inv :
        (q : Question) (score : ℕ) → Keeps (Inv required) (suspend_questioner svc now q score)
    suspend_questioner-Inv q score =
        if-Inv required (ltb score (suspension_threshold svc.rt_config)) _ _
          (maybe_suspend-Inv svc.rt_config svc.base_suspension_minutes q.questioner)
          (pure-Inv required tt)

    module _ (q : Question) (assignments : List Assignment) where
      save_answers-Inv :
          (scores : Scores) (updated : Bool)
          → Keeps (Inv required) (save_answers svc now q assignments scores updated)
      unfolding save_answers
      save_answers-Inv scores false = pure-Inv required tt
      save_answers-Inv scores true =
          bind-Inv required _ _ (save_scores-Inv scores.answer_scores) (λ _.
            bind-Inv required _ _ (suspend_questioner-Inv q scores.question_score)
              (λ _. suspend_low-Inv assignments scores.answer_scores))

      score_in_set-Inv :
          (bs : Option BenchmarkSet) → Keeps (Inv required) (score_in_set svc now q assignments bs)
      unfolding score_in_set score_question_row score_row
      score_in_set-Inv none = fail-Inv required _
      score_in_set-Inv (some bs) = bind-Inv required _ _ (other-Inv required _ (λ d. refl)) (
          save_answers-Inv
            (compute_scores svc.walk bs.answer_check_method q.answer (replied_of assignments)))

      score_replied-Inv :
          (replied : List Assignment)
          → Keeps (Inv required) (score_replied svc now q assignments replied)
      unfolding get_benchmark_set
      score_replied-Inv [] = fail-Inv required _
      score_replied-Inv (a ∷ replied) =
          bind-Inv required _ _ (query-Inv required _) score_in_set-Inv

    score_submitted-Inv : (q : Question) → Keeps (Inv required) (score_submitted svc now q)
    unfolding score_submitted list_assignments_by_question
    score_submitted-Inv q =
        bind-Inv required _ _ (query-Inv required _)
          (λ assignments. score_replied-Inv q assignments (replied_of assignments))

    score_found-Inv : (q : Option Question) → Keeps (Inv required) (score_found svc now q)
    unfolding score_found
    score_found-Inv none = pure-Inv required tt
    score_found-Inv (some q) =
        if-Inv required (is_submitted q.status) _ _ (score_submitted-Inv q) (pure-Inv required tt)

    pub score_question-Inv :
        (question_id : ℕ) → Keeps (Inv required) (score_question svc now question_id)
    unfolding score_question get_question
    score_question-Inv question_id = bind-Inv required _ _ (query-Inv required _) score_found-Inv
