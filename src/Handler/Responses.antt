-- ===== src/Handler/Responses.antt =====
-- The responses to a question and to an answer (internal/handler/question.go and answer.go), each with
-- the tables that it leaves.
use subnet_benchmark.Prelude.{ℕ, ◌≡◌, ◌⊎◌, Option, none, some, String}
use subnet_benchmark.Model.{Assignment, Error, db_error, user_error, internal_error, Result, err}
use subnet_benchmark.Store.{Db, World}
use subnet_benchmark.Store.Meets.{Ends}
use subnet_benchmark.Service.Questions.{SubmitQuestionRequest, QuestionService, submit_question}
use subnet_benchmark.Service.Questions.Contract.{with_question}
use subnet_benchmark.Service.Questions.Contract.{Accepted as AcceptedQuestion}
use subnet_benchmark.Service.Answers.{SubmitAnswerRequest, submit_answer}
use subnet_benchmark.Service.Answers.Checks.{answered, Accepted, Refused}
use subnet_benchmark.Service.Timers.{answer_submitted}
use subnet_benchmark.Handler.{Http, written, error_status}
use subnet_benchmark.Handler.Submissions.{QuestionBody, AnswerBody}

-- What a worker asks with the fields of a body, and what it answers.
abbrev pub asked : String → QuestionBody → SubmitQuestionRequest
asked worker b = record {
  bs_id = b.bs_id;
  question = b.question;
  answer = b.answer;
  worker = worker;
}

abbrev pub replied : String → AnswerBody → SubmitAnswerRequest
replied worker b = record {
  question_id = b.question_id;
  valid = b.valid;
  answer = b.answer;
  worker = worker;
}

-- A success of the status `success` ends as `Q` says, an error response as `E` says.
abbrev pub Replied : {A : Type 0} → ℕ → (A → Db → Type 0) → (Db → Type 0) → Http A → Db → Type 0
Replied success Q E (written status a) d = (status ≡ success) × Q a d
Replied success Q E (error_status status) d = E d

-- A call that is answered, and how.
abbrev pub Responds : {A : Type 0} → (Http A → Db → Type 0) → Result (Http A) × World → Type 0
Responds R = Ends R (λ _. ⊥)

-- The status of a refusal: 400 for a fault of the user, 500 for any other.
pub data Fault : Error → ℕ → Type 0 where
  of_user : (code : String) → Fault (user_error code) 400
  of_database : Fault db_error 500
  of_server : Fault internal_error 500

-- The responses to a question, with the tables `d` that each leaves.
pub data QuestionResponse (svc : QuestionService) (now : ℕ) (worker : String)
    (body : Option QuestionBody) (w : World) : Http ℕ → Db → Type 0 where
  no_worker : worker ≡ "" → QuestionResponse svc now worker body w (error_status 401) w.db
  not_read :
      ¬ (worker ≡ "") → body ≡ none → QuestionResponse svc now worker body w (error_status 400) w.db
  incomplete :
      (b : QuestionBody)
      → ¬ (worker ≡ "")
      → body ≡ some b
      → (b.bs_id ≡ "") ⊎ ((b.question ≡ "") ⊎ (b.answer ≡ ""))
      → QuestionResponse svc now worker body w (error_status 400) w.db
  stored :
      (b : QuestionBody) (d : Db)
      → ¬ (worker ≡ "")
      → body ≡ some b
      → AcceptedQuestion svc now (asked worker b) w.db
      → d ≡ with_question now (asked worker b) w.db
      → QuestionResponse svc now worker body w (written 201 w.db.next_question_id) d
  short_of_miners :
      (b : QuestionBody) (d : Db)
      → body ≡ some b
      → (submit_question svc now (asked worker b) w).0 ≡ err (user_error "not_enough_miners")
      → d ≡ w.db
      → QuestionResponse svc now worker body w (error_status 503) d
  refused :
      (b : QuestionBody) (e : Error) (status : ℕ) (d : Db)
      → body ≡ some b
      → (submit_question svc now (asked worker b) w).0 ≡ err e
      → ¬ (e ≡ user_error "not_enough_miners")
      → Fault e status
      → d ≡ w.db
      → QuestionResponse svc now worker body w (error_status status) d

-- The responses to an answer, with the tables `d` that each leaves.
pub data AnswerResponse (now row : ℕ) (worker : String) (body : Option AnswerBody) (w : World)
    : Http (Unit {0}) → Db → Type 0 where
  no_worker : worker ≡ "" → AnswerResponse now row worker body w (error_status 401) w.db
  not_read :
      ¬ (worker ≡ "") → body ≡ none → AnswerResponse now row worker body w (error_status 400) w.db
  incomplete :
      (b : AnswerBody)
      → ¬ (worker ≡ "")
      → body ≡ some b
      → b.question_id ≡ 0
      → AnswerResponse now row worker body w (error_status 400) w.db
  stored :
      (b : AnswerBody) (a : Assignment) (d : Db)
      → ¬ (worker ≡ "")
      → body ≡ some b
      → Accepted now row (replied worker b) w.db a
      → d ≡ answered now (replied worker b) a.assignment_id w.db
      → AnswerResponse now row worker body w (written 200 tt) d
  refused :
      (b : AnswerBody) (e : Error) (status : ℕ) (d : Db)
      → body ≡ some b
      → (submit_answer (some answer_submitted) now row (replied worker b) w).0 ≡ err e
      → Fault e status
      → Refused now row (replied worker b) w.db d
      → AnswerResponse now row worker body w (error_status status) d
