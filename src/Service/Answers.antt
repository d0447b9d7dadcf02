-- ===== src/Service/Answers.antt =====
-- internal/service/answer.go: a worker answers an assigned question.
pub mod Checks
use Prim.Native.String.{len}
use subnet_benchmark.Prelude.{
  ℕ, Bool, true, false, Option, none, some, String, ltb, if◌then◌else◌, not,
}
use subnet_benchmark.Model.{
  Assignment, Question, BenchmarkSet, is_claimed, internal_error, user_error, Result, ok, err,
}
use subnet_benchmark.Store.{Db, World, M, ◌>>=◌, ◌>>◌, pure, fail, ignore}
use subnet_benchmark.Store.Assignments.{
  get_assignment_by_worker, timeout_assignment, set_assignment_reply,
}
use subnet_benchmark.Store.Questions.{get_question}
use subnet_benchmark.Store.Sets.{get_benchmark_set}

pub record SubmitAnswerRequest : Type 0 where
  pub question_id : ℕ
  pub valid : Bool
  pub answer : String
  pub worker : String

abbrev pub notify : Option (Assignment → M (Unit {0})) → Assignment → M (Unit {0})
notify none a = pure tt
notify (some callback) a = callback a

unfoldable pub save_answer :
    Option (Assignment → M (Unit {0}))
    → ℕ
    → SubmitAnswerRequest
    → Assignment
    → Option BenchmarkSet
    → M (Unit {0})
unfolding set_assignment_reply
save_answer on_submitted now req a none = fail internal_error
save_answer on_submitted now req a (some bs) =
    if ltb bs.answer_maxlen (len req.answer)
    then fail (user_error "field_too_long")
    else set_assignment_reply now a.assignment_id req.valid req.answer >> notify on_submitted a

unfoldable pub answer_question :
    Option (Assignment → M (Unit {0}))
    → ℕ
    → SubmitAnswerRequest
    → Assignment
    → Option Question
    → M (Unit {0})
unfolding save_answer get_benchmark_set
answer_question on_submitted now req a none = fail (user_error "not_found")
answer_question on_submitted now req a (some q) = do
  bs ← get_benchmark_set q.bs_id
  save_answer on_submitted now req a bs

unfoldable pub answer_assignment :
    Option (Assignment → M (Unit {0})) → ℕ → SubmitAnswerRequest → Option Assignment → M (Unit {0})
unfolding answer_question get_question timeout_assignment
answer_assignment on_submitted now req none = fail (user_error "no_assignment")
answer_assignment on_submitted now req (some a) =
    if not (is_claimed a.status)
    then fail (user_error "no_assignment")
    else if ltb a.reply_ddl now
    then ignore (timeout_assignment a.assignment_id) >> fail (user_error "deadline_passed")
    else (do q ← get_question req.question_id; answer_question on_submitted now req a q)

-- SubmitAnswer; `row` is the row that the database returns first when the worker has several.
unfoldable pub submit_answer :
    Option (Assignment → M (Unit {0})) → ℕ → ℕ → SubmitAnswerRequest → M (Unit {0})
unfolding answer_assignment get_assignment_by_worker
submit_answer on_submitted now row req = do
  a ← get_assignment_by_worker row req.question_id req.worker
  answer_assignment on_submitted now req a
