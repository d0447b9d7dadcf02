-- ===== src/Examples/Responses.antt =====
-- internal/handler at a small database.
use subnet_benchmark.Prelude.{◌≡◌, refl, true, some}
use subnet_benchmark.Model.{ok}
use subnet_benchmark.Store.{statement}
use subnet_benchmark.Service.Timers.{answer_submitted}
use subnet_benchmark.Handler.{written, error_status}
use subnet_benchmark.Handler.Submissions.{
  QuestionBody, AnswerBody, handle_submit_question, handle_submit_answer,
}
use subnet_benchmark.Examples.Tables.{small_db, claimed_db, world_of, questions_service}

abbrev sum_body : QuestionBody
sum_body = record { bs_id = "sums"; question = "1 + 2"; answer = "3" }

abbrev four_body : AnswerBody
four_body = record { question_id = 1; valid = true; answer = "4" }

-- Without a worker there is no service call.
no_worker :
    (handle_submit_question questions_service 90 "" (some sum_body) (world_of small_db)).0
    ≡ ok (error_status 401)
unfolding handle_submit_question
no_worker = refl

-- The answer is taken.
answer_taken :
    (handle_submit_answer
      (some answer_submitted)
      50
      0
      "miner"
      (some four_body)
      (world_of claimed_db)).0
    ≡ ok (written 200 tt)
unfolding handle_submit_answer statement answer_submitted
answer_taken = refl
