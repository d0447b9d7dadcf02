-- ===== src/Handler/Submissions.antt =====
-- HandleSubmit of internal/handler/question.go and of answer.go, and HandlePoll of poll.go. A worker
-- that the middleware has not set is the empty text.
use subnet_benchmark.Prelude.{
  ℕ, Bool, ◌||◌, Option, none, some, String, str_eq, ◌==◌, if◌then◌else◌,
}
use subnet_benchmark.Model.{Assignment, Error, user_error, Result, ok, err}
use subnet_benchmark.Store.{World, M, pure}
use subnet_benchmark.Service.Questions.{QuestionService, SubmitQuestionRequest, submit_question}
use subnet_benchmark.Service.Answers.{SubmitAnswerRequest, submit_answer}
use subnet_benchmark.Service.Polling.{PollService, AssignmentView, poll_online}
use subnet_benchmark.Handler.{Http, written, error_status}

pub record QuestionBody : Type 0 where
  pub bs_id : String
  pub question : String
  pub answer : String

pub record AnswerBody : Type 0 where
  pub question_id : ℕ
  pub valid : Bool
  pub answer : String

abbrev pub reply_of : {A : Type 0} → (Error → ℕ) → ℕ → Result A × World → Result (Http A) × World
reply_of status_of success (ok a, w) = (ok (written success a), w)
reply_of status_of success (err e, w) = (ok (error_status (status_of e)), w)

-- The result of the service as a response.
unfoldable pub respond : {A : Type 0} → (Error → ℕ) → ℕ → M A → M (Http A)
respond status_of success m w = reply_of status_of success (m w)

abbrev pub question_status : Error → ℕ
question_status (user_error code) = if str_eq code "not_enough_miners" then 503 else 400
question_status _ = 500

abbrev pub answer_status : Error → ℕ
answer_status (user_error code) = 400
answer_status _ = 500

abbrev pub poll_status : Error → ℕ
poll_status e = 500

abbrev pub question_request : String → QuestionBody → SubmitQuestionRequest
question_request worker b = record {
  bs_id = b.bs_id;
  question = b.question;
  answer = b.answer;
  worker = worker;
}

abbrev pub question_body : QuestionService → ℕ → String → Option QuestionBody → M (Http ℕ)
question_body svc now worker none = pure (error_status 400)
question_body svc now worker (some b) =
    if str_eq b.bs_id "" || str_eq b.question "" || str_eq b.answer ""
    then pure (error_status 400)
    else respond question_status 201 (submit_question svc now (question_request worker b))

unfoldable pub handle_submit_question :
    QuestionService → ℕ → String → Option QuestionBody → M (Http ℕ)
unfolding submit_question respond
handle_submit_question svc now worker body =
    if str_eq worker "" then pure (error_status 401) else question_body svc now worker body

abbrev pub answer_request : String → AnswerBody → SubmitAnswerRequest
answer_request worker b = record {
  question_id = b.question_id;
  valid = b.valid;
  answer = b.answer;
  worker = worker;
}

abbrev pub answer_body :
    Option (Assignment → M (Unit {0})) → ℕ → ℕ → String → Option AnswerBody → M (Http (Unit {0}))
answer_body on_submitted now row worker none = pure (error_status 400)
answer_body on_submitted now row worker (some b) =
    if b.question_id == 0
    then pure (error_status 400)
    else respond answer_status 200 (submit_answer on_submitted now row (answer_request worker b))

unfoldable pub handle_submit_answer :
    Option (Assignment → M (Unit {0})) → ℕ → ℕ → String → Option AnswerBody → M (Http (Unit {0}))
unfolding submit_answer respond
handle_submit_answer on_submitted now row worker body =
    if str_eq worker ""
    then pure (error_status 401)
    else answer_body on_submitted now row worker body

unfoldable pub handle_poll : PollService → ℕ → ℕ → String → M (Http (Option AssignmentView))
unfolding poll_online respond
handle_poll svc now random worker =
    if str_eq worker ""
    then pure (error_status 401)
    else respond poll_status 200 (poll_online svc now random worker)
