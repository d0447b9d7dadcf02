-- ===== src/Store/Questions.antt =====
-- internal/store/question.go.
use subnet_benchmark.Prelude.{
  ℕ, suc, ◌+◌, Bool, true, false, not, ◌&&◌, List, [], ◌∷◌, ◌++◌, Option, none, some, String,
  str_eq, ltb, leb, ◌==◌, take, get_elem?, if◌then◌else◌,
}
use subnet_benchmark.Prelude.Sort.{sort_by}
use mathlib.Core.Option
use subnet_benchmark.Model.{
  Question, QuestionStatus, Assignment, Worker, BenchmarkSet, Fraction, to_numeric, is_submitted,
  is_kept, is_timed_out, db_error, Result, ok, err,
}
use subnet_benchmark.Store.{Db, M, statement, query, exec}
use subnet_benchmark.Store.Rows.{select, count_rows, update_rows, find_row, order_by, latest}
use subnet_benchmark.Store.Assignments.{of_question, of_worker, open_for, is_some, holds}

abbrev pub question_has_id : ℕ → Question → Bool
question_has_id id q = q.question_id == id

abbrev pub submitted_with_id : ℕ → Question → Bool
submitted_with_id id q = question_has_id id q && is_submitted q.status

abbrev pub new_question : ℕ → String → String → String → String → List ℕ → ℕ → Question
new_question id bs_id questioner question answer minhash now = record {
  question_id = id;
  bs_id = bs_id;
  questioner = questioner;
  question = question;
  answer = answer;
  status = QuestionStatus.submitted;
  share = 0;
  score = 0;
  pass_rate = 0;
  benchmark = false;
  minhash = some minhash;
  created_at = now;
  scored_at = none;
}

abbrev pub set_has_id : String → BenchmarkSet → Bool
set_has_id id b = str_eq b.set_id id

-- The INSERT, with its foreign keys.
unfoldable pub insert_question :
    String → String → String → String → List ℕ → ℕ → Db → Result Question × Db
unfolding find_row
insert_question bs_id questioner question answer minhash now d =
    let q = new_question d.next_question_id bs_id questioner question answer minhash now in
    if is_some (find_row (set_has_id bs_id) d.benchmark_sets)
      && is_some (find_row (λ (w : Worker). str_eq w.address questioner) d.workers)
    then (
      ok q,
      record d { questions = d.questions ++ q ∷ []; next_question_id = suc d.next_question_id },
    )
    else (err db_error, d)

unfoldable pub create_question : String → String → String → String → List ℕ → ℕ → M Question
unfolding insert_question
create_question bs_id questioner question answer minhash now =
    statement (insert_question bs_id questioner question answer minhash now)

unfoldable pub get_question : ℕ → M (Option Question)
unfolding find_row
get_question id = query (λ d. find_row (question_has_id id) d.questions)

abbrev pub of_set : String → Question → Bool
of_set bs_id q = str_eq q.bs_id bs_id

abbrev pub minhashes : List Question → List (List ℕ)
minhashes [] = []
minhashes (q ∷ qs) = elim q.minhash [ none ↦ minhashes qs | some h ↦ h ∷ minhashes qs ]

unfoldable pub list_question_minhashes : String → ℕ → M (List (List ℕ))
unfolding select
list_question_minhashes bs_id min_score =
    query (λ d. minhashes (select (λ q. of_set bs_id q && leb min_score q.score) d.questions))

unfoldable pub list_all_question_minhashes : String → M (List (List ℕ))
unfolding select
list_all_question_minhashes bs_id = query (λ d. minhashes (select (of_set bs_id) d.questions))

abbrev pub asked_by : String → Question → Bool
asked_by questioner q = str_eq q.questioner questioner

unfoldable pub get_last_question_time : String → M (Option ℕ)
unfolding select latest
get_last_question_time questioner = query (λ d.
    Option.map (λ (q : Question). q.created_at)
      (latest (λ q. q.created_at) (select (asked_by questioner) d.questions)))

abbrev pub set_question_score : ℕ → ℕ → ℕ → ℕ → Question → Question
set_question_score score share pass_rate scored_at q = record q {
  status = QuestionStatus.scored;
  score = score;
  share = share;
  pass_rate = pass_rate;
  scored_at = some scored_at;
}

-- The answer says whether the question was submitted still.
unfoldable pub score_row : ℕ → ℕ → Fraction → Fraction → ℕ → Db → Bool × Db
unfolding count_rows update_rows to_numeric
score_row id score share pass_rate scored_at d = (
  ltb 0 (count_rows (submitted_with_id id) d.questions),
  record d {
    questions =
        update_rows (submitted_with_id id)
          (set_question_score score (to_numeric share) (to_numeric pass_rate) scored_at)
          d.questions;
  },
)

unfoldable pub score_question_row : ℕ → ℕ → Fraction → Fraction → ℕ → M Bool
unfolding score_row
score_question_row id score share pass_rate scored_at = statement (λ d. (
  ok (score_row id score share pass_rate scored_at d).0,
  (score_row id score share pass_rate scored_at d).1,
))

abbrev pub theirs : ℕ → String → Assignment → Bool
theirs question_id worker a = of_question question_id a && of_worker worker a

-- The WHERE clause of the candidates.
unfoldable pub is_candidate : String → ℕ → Db → Question → Bool
unfolding count_rows
is_candidate worker required d q =
    is_submitted q.status
    && not (asked_by worker q)
    && (count_rows (λ a. theirs q.question_id worker a && is_kept a.status) d.assignments == 0)
    && ltb (count_rows (λ a. theirs q.question_id worker a && is_timed_out a.status) d.assignments)
        2
    && ltb (count_rows (open_for q.question_id) d.assignments) required

-- The oldest 100 of them.
unfoldable pub candidates : String → ℕ → Db → List Question
unfolding is_candidate select order_by
candidates worker required d =
    take 100 (order_by (λ q. q.created_at) (select (is_candidate worker required d) d.questions))

-- ORDER BY random() … SKIP LOCKED LIMIT 1: any candidate, or none when all are locked. `random` is
-- the candidate's number.
unfoldable pub pick_question_for_worker : ℕ → String → ℕ → M (Option Question)
unfolding candidates
pick_question_for_worker random worker required =
    query (λ d. get_elem? (candidates worker required d) random)

pub record QuestionFilter : Type 0 where
  pub questioner : String
  pub status : Option QuestionStatus
  pub from : Option ℕ
  pub to : Option ℕ

abbrev pub same_question_status : QuestionStatus → QuestionStatus → Bool
same_question_status QuestionStatus.submitted QuestionStatus.submitted = true
same_question_status QuestionStatus.scored QuestionStatus.scored = true
same_question_status _ _ = false

unfoldable pub passes_question_filter : QuestionFilter → Question → Bool
passes_question_filter f q =
    asked_by f.questioner q
    && holds f.status (same_question_status q.status)
    && holds f.from (λ t. leb t q.created_at)
    && holds f.to (λ t. ltb q.created_at t)

-- ORDER BY created_at DESC
unfoldable pub list_questions_by_filter : QuestionFilter → M (List Question)
unfolding passes_question_filter select
list_questions_by_filter f = query (λ d.
    sort_by (λ a b. leb b.created_at a.created_at) (select (passes_question_filter f) d.questions))

abbrev pub count_one_more : BenchmarkSet → BenchmarkSet
count_one_more b = record b { total_questions = b.total_questions + 1 }

unfoldable pub increment_bs_total_questions : String → M (Unit {0})
unfolding update_rows
increment_bs_total_questions bs_id = exec (λ d. record d {
  benchmark_sets = update_rows (set_has_id bs_id) count_one_more d.benchmark_sets;
})
