-- ===== src/Service/Answers/Checks.antt =====
-- SubmitAnswer of internal/service/answer.go, specified by the tables before and after it.
use subnet_benchmark.Prelude.{
  ℕ, ◌≤◌, ◌<◌, ◌≡◌, refl, sym, subst, ◌∙◌, true, not, ◌&&◌, List, Option, none, some, String, ltb,
  ltb→lt, arith, ◌==◌, inl, inr, Bool-cases,
}
use Prim.Native.String.{len}
use subnet_benchmark.Model.{Assignment, Question, BenchmarkSet, is_claimed}
use subnet_benchmark.Store.{Db, World, ignore}
use subnet_benchmark.Store.Rows.{find_row, count_rows, select, update_rows, any_row}
use subnet_benchmark.Store.Assignments.{
  of_question, of_worker, claimed_with_id, reply, reply_row, set_assignment_reply, time_out,
  time_out_row, timeout_assignment, get_assignment_by_worker,
}
use subnet_benchmark.Store.Questions.{get_question, question_has_id, set_has_id}
use subnet_benchmark.Store.Sets.{get_benchmark_set}
use subnet_benchmark.Store.Reads.{then_, query-Finds, fail-Meets, require}
use subnet_benchmark.Store.Meets.{
  Meets, Ends, Outcome, Meets-statement, Meets-fail, Meets-if, Meets-bind, Meets-ignore,
  Meets-after,
}
use subnet_benchmark.Service.Timers.{answer_submitted, cancel_timer, delete_timer, spawn}
use subnet_benchmark.Service.Answers.{
  SubmitAnswerRequest, save_answer, answer_question, answer_assignment, submit_answer,
}

-- The worker's assignments of a question.
unfoldable pub theirs_for : ℕ → String → Db → List Assignment
unfolding select
theirs_for question_id worker d =
    select (λ a. of_question question_id a && of_worker worker a) d.assignments

-- The tables with the claimed row of an identifier answered, and with it timed out.
unfoldable pub answered : ℕ → SubmitAnswerRequest → ℕ → Db → Db
unfolding update_rows
answered now req id d = record d {
  assignments = update_rows (claimed_with_id id) (reply now req.valid req.answer) d.assignments;
}

unfoldable pub timed_out_row : ℕ → Db → Db
unfolding update_rows
timed_out_row id d = record d {
  assignments = update_rows (claimed_with_id id) time_out d.assignments;
}

-- What an accepted answer has passed, in the tables `before`.
pub record Accepted (now row : ℕ) (req : SubmitAnswerRequest) (before : Db) (a : Assignment)
    : Type 0 where
  pub question : Question
  pub set : BenchmarkSet
  pub returned : any_row row (theirs_for req.question_id req.worker before) ≡ some a
  pub claimed : is_claimed a.status ≡ true
  pub in_time : now ≤ a.reply_ddl
  pub of_question : find_row (question_has_id req.question_id) before.questions ≡ some question
  pub of_set : find_row (set_has_id question.bs_id) before.benchmark_sets ≡ some set
  pub short : len req.answer ≤ set.answer_maxlen

-- A refused answer leaves the tables as they were, or times out the row whose deadline has passed.
pub data Refused (now row : ℕ) (req : SubmitAnswerRequest) (before d : Db) : Type 0 where
  unchanged : d ≡ before → Refused now row req before d
  late :
      (a : Assignment)
      → any_row row (theirs_for req.question_id req.worker before) ≡ some a
      → is_claimed a.status ≡ true
      → a.reply_ddl < now
      → d ≡ timed_out_row a.assignment_id before
      → Refused now row req before d

-- OnAnswerSubmitted changes no table and does not fail.
quiet : {P E : Db → Type 0} (a : Assignment) → Meets P (answer_submitted a) (λ _. P) E
unfolding answer_submitted cancel_timer delete_timer spawn
quiet a = record { at = λ w p. p }

module _ (now row : ℕ) (req : SubmitAnswerRequest) (before : Db) where
  abbrev Refusal : Db → Type 0
  Refusal d = Refused now row req before d

  abbrev Reply : Unit {0} → Db → Type 0
  Reply _ d =
      (a : Assignment) × (d ≡ answered now req a.assignment_id before)
      × Accepted now row req before a

  reply-Outcome :
      (id : ℕ)
      → Outcome
          (λ _ d. d ≡ answered now req id before)
          Refusal
          (reply_row now id req.valid req.answer before)
  unfolding reply_row answered
  reply-Outcome id = elim (Bool-cases (count_rows (claimed_with_id id) before.assignments == 0)) [
    | inl gone ↦ rw gone (Refused.unchanged refl)
    | inr there ↦ rw there refl
  ]

  reply-Meets :
      (id : ℕ)
      → Meets
          (λ d. d ≡ before)
          (set_assignment_reply now id req.valid req.answer)
          (λ _ d. d ≡ answered now req id before)
          Refusal
  unfolding set_assignment_reply
  reply-Meets id =
      Meets-statement (reply_row now id req.valid req.answer)
        (λ d same.
          subst
            (λ (e : Db).
              Outcome (λ _ c. c ≡ answered now req id before) Refusal
                (reply_row now id req.valid req.answer e))
            (sym same) (reply-Outcome id))
        (λ d same. Refused.unchanged same)

  save-Meets :
      (a : Assignment) (bs : Option BenchmarkSet)
      → ((set : BenchmarkSet)
          → bs ≡ some set
          → len req.answer ≤ set.answer_maxlen
          → Accepted now row req before a)
      → Meets (λ d. d ≡ before) (save_answer (some answer_submitted) now req a bs) Reply Refusal
  unfolding save_answer
  save-Meets a none accepted = fail-Meets before Refusal (Refused.unchanged refl) _
  save-Meets a (some bs) accepted =
      require before Refusal (Refused.unchanged refl) (ltb bs.answer_maxlen (len req.answer)) _ _
        (λ short. Meets-bind _ _ (reply-Meets a.assignment_id) (λ _.
          Meets-after (λ _ d same. (a, same, accepted bs refl (ground (arith, short)))) (quiet a)))

  question-Meets :
      (a : Assignment) (q : Option Question)
      → ((question : Question) (set : BenchmarkSet)
          → q ≡ some question
          → find_row (set_has_id question.bs_id) before.benchmark_sets ≡ some set
          → len req.answer ≤ set.answer_maxlen
          → Accepted now row req before a)
      → Meets (λ d. d ≡ before) (answer_question (some answer_submitted) now req a q) Reply Refusal
  unfolding answer_question get_benchmark_set
  question-Meets a none accepted = fail-Meets before Refusal (Refused.unchanged refl) _
  question-Meets a (some q) accepted =
      then_ before Refusal _ _ (query-Finds before Refusal (Refused.unchanged refl) _) (λ bs read.
        save-Meets a bs (λ set found short. accepted q set refl (sym read ∙ found) short))

  late-Meets :
      (a : Assignment)
      → any_row row (theirs_for req.question_id req.worker before) ≡ some a
      → is_claimed a.status ≡ true
      → a.reply_ddl < now
      → Meets (λ d. d ≡ before) (ignore (timeout_assignment a.assignment_id)) (λ _. Refusal) Refusal
  unfolding timeout_assignment time_out_row timed_out_row
  late-Meets a returned claimed past = Meets-ignore _ (
      Meets-statement _ (λ d same. Refused.late a returned claimed past (rw same refl))
        (λ d same. Refused.unchanged same))

  assignment-Meets :
      (a : Option Assignment)
      → a ≡ any_row row (theirs_for req.question_id req.worker before)
      → Meets (λ d. d ≡ before) (answer_assignment (some answer_submitted) now req a) Reply Refusal
  unfolding answer_assignment get_question
  assignment-Meets none read = fail-Meets before Refusal (Refused.unchanged refl) _
  assignment-Meets (some a) read =
      require before Refusal (Refused.unchanged refl) (not (is_claimed a.status)) _ _ (λ open_.
        let claimed : is_claimed a.status ≡ true = ground (arith, open_) in
        Meets-if (ltb a.reply_ddl now) _ _
          (λ past.
            Meets-bind _ _ (late-Meets a (sym read) claimed (ltb→lt _ _ past))
              (λ _. Meets-fail _ (λ d refused. refused)))
          (λ in_time.
            then_ before Refusal _ _ (query-Finds before Refusal (Refused.unchanged refl) _)
              (λ q found. question-Meets a q (λ question set is_it of_set short. record {
                question = question;
                set = set;
                returned = sym read;
                claimed = claimed;
                in_time = ground (arith, in_time);
                of_question = sym found ∙ is_it;
                of_set = of_set;
                short = short;
              }))))

  -- The whole of SubmitAnswer, from the tables `before`.
  submit_answer-Meets :
      Meets (λ d. d ≡ before) (submit_answer (some answer_submitted) now row req) Reply Refusal
  unfolding submit_answer get_assignment_by_worker theirs_for
  submit_answer-Meets =
      then_ before Refusal _ _ (query-Finds before Refusal (Refused.unchanged refl) _)
        assignment-Meets

-- An answer is accepted only if the row that the database returns for the worker and the question
-- is claimed, its deadline has not passed, the question and its set exist and the text fits. Then
-- exactly the claimed row of that identifier gets the reply. After an error the tables are as
-- before, or, where the deadline of the claimed row has passed, with that row timed out.
pub submit_answer_lem :
    (now row : ℕ) (req : SubmitAnswerRequest) (w : World)
    → Ends
        (λ _ d.
          (a : Assignment) × (d ≡ answered now req a.assignment_id w.db)
          × Accepted now row req w.db a)
        (λ d. Refused now row req w.db d)
        (submit_answer (some answer_submitted) now row req w)
submit_answer_lem now row req w = (submit_answer-Meets now row req w.db).at w refl
