-- ===== src/Store/Assignments.antt =====
-- internal/store/assignment.go and the statements on assignments of epoch.go.
use subnet_benchmark.Prelude.{
  ℕ, suc, Bool, true, false, ◌&&◌, List, [], ◌∷◌, ◌++◌, Option, none, some, String, str_eq, ltb,
  leb, ◌==◌, if◌then◌else◌,
}
use subnet_benchmark.Model.{
  Assignment, AssignmentStatus, Question, Worker, Fraction, to_numeric, is_claimed, is_open,
  db_error, internal_error, Result, ok, err,
}
use subnet_benchmark.Store.{Db, M, statement, query, exec}
use subnet_benchmark.Prelude.Sort.{sort_by}
use subnet_benchmark.Store.Rows.{
  select, count_rows, update_rows, find_row, any_row, order_by, latest,
}

abbrev pub has_id : ℕ → Assignment → Bool
has_id id a = a.assignment_id == id

abbrev pub of_question : ℕ → Assignment → Bool
of_question question_id a = a.question_id == question_id

abbrev pub of_worker : String → Assignment → Bool
of_worker worker a = str_eq a.worker worker

abbrev pub claimed_by : String → Assignment → Bool
claimed_by worker a = of_worker worker a && is_claimed a.status

abbrev pub open_for : ℕ → Assignment → Bool
open_for question_id a = of_question question_id a && is_open a.status

abbrev pub claimed_with_id : ℕ → Assignment → Bool
claimed_with_id id a = has_id id a && is_claimed a.status

-- The row that the INSERT of CreateAssignment writes.
abbrev pub new_assignment : ℕ → ℕ → String → ℕ → ℕ → Assignment
new_assignment id question_id worker reply_ddl now = record {
  assignment_id = id;
  question_id = question_id;
  worker = worker;
  status = AssignmentStatus.claimed;
  reply_ddl = reply_ddl;
  reply_valid = none;
  reply_answer = none;
  replied_at = none;
  share = 0;
  score = 0;
  created_at = now;
}

abbrev pub is_some {ℓ} : {A : Type ℓ} → Option A → Bool
is_some none = false
is_some (some a) = true

-- The foreign keys of the row, and the unique index on a worker's claimed assignment.
unfoldable pub may_insert : Db → ℕ → String → Bool
unfolding find_row count_rows
may_insert d question_id worker =
    is_some (find_row (λ (q : Question). q.question_id == question_id) d.questions)
    && is_some (find_row (λ (w : Worker). str_eq w.address worker) d.workers)
    && (count_rows (claimed_by worker) d.assignments == 0)

unfoldable pub insert_assignment : ℕ → String → ℕ → ℕ → Db → Result Assignment × Db
unfolding may_insert
insert_assignment question_id worker reply_ddl now d =
    let a = new_assignment d.next_assignment_id question_id worker reply_ddl now in
    if may_insert d question_id worker
    then (
      ok a,
      record d {
        assignments = d.assignments ++ a ∷ [];
        next_assignment_id = suc d.next_assignment_id;
      },
    )
    else (err db_error, d)

unfoldable pub create_assignment : ℕ → String → ℕ → ℕ → M Assignment
unfolding insert_assignment
create_assignment question_id worker reply_ddl now =
    statement (insert_assignment question_id worker reply_ddl now)

unfoldable pub get_assignment : ℕ → M (Option Assignment)
unfolding find_row
get_assignment id = query (λ d. find_row (has_id id) d.assignments)

-- The query has no ORDER BY: `row` is the row that the database happens to return first.
unfoldable pub get_assignment_by_worker : ℕ → ℕ → String → M (Option Assignment)
unfolding select any_row
get_assignment_by_worker row question_id worker =
    query (λ d.
      any_row row (select (λ a. of_question question_id a && of_worker worker a) d.assignments))

unfoldable pub find_claimed_assignment : String → M (Option Assignment)
unfolding select latest
find_claimed_assignment miner =
    query (λ d. latest (λ a. a.created_at) (select (claimed_by miner) d.assignments))

unfoldable pub list_assignments_by_question : ℕ → M (List Assignment)
unfolding select order_by
list_assignments_by_question question_id =
    query (λ d. order_by (λ a. a.created_at) (select (of_question question_id) d.assignments))

abbrev pub reply : ℕ → Bool → String → Assignment → Assignment
reply now valid answer a = record a {
  status = AssignmentStatus.replied;
  reply_valid = some valid;
  reply_answer = some answer;
  replied_at = some now;
}

unfoldable pub reply_row : ℕ → ℕ → Bool → String → Db → Result (Unit {0}) × Db
unfolding count_rows update_rows
reply_row now id valid answer d =
    if count_rows (claimed_with_id id) d.assignments == 0 then (err internal_error, d) else (
      ok tt,
      record d {
        assignments = update_rows (claimed_with_id id) (reply now valid answer) d.assignments;
      },
    )

-- The UPDATE, then the error when it found no claimed row.
unfoldable pub set_assignment_reply : ℕ → ℕ → Bool → String → M (Unit {0})
unfolding reply_row
set_assignment_reply now id valid answer = statement (reply_row now id valid answer)

abbrev pub set_score : AssignmentStatus → ℕ → ℕ → Assignment → Assignment
set_score status score share a = record a { status = status; score = score; share = share }

unfoldable pub set_assignment_score : ℕ → AssignmentStatus → ℕ → Fraction → M (Unit {0})
unfolding update_rows to_numeric
set_assignment_score id status score share = exec (λ d. record d {
  assignments = update_rows (has_id id) (set_score status score (to_numeric share)) d.assignments;
})

-- The optional conditions of AssignmentFilter.
pub record AssignmentFilter : Type 0 where
  pub worker : String
  pub status : Option AssignmentStatus
  pub from : Option ℕ
  pub to : Option ℕ

abbrev pub same_status : AssignmentStatus → AssignmentStatus → Bool
same_status AssignmentStatus.claimed AssignmentStatus.claimed = true
same_status AssignmentStatus.replied AssignmentStatus.replied = true
same_status AssignmentStatus.scored AssignmentStatus.scored = true
same_status AssignmentStatus.timed_out AssignmentStatus.timed_out = true
same_status _ _ = false

abbrev pub holds {ℓ} : {A : Type ℓ} → Option A → (A → Bool) → Bool
holds none test = true
holds (some a) test = test a

unfoldable pub passes_filter : AssignmentFilter → Assignment → Bool
passes_filter f a =
    of_worker f.worker a
    && holds f.status (same_status a.status)
    && holds f.from (λ t. leb t a.created_at)
    && holds f.to (λ t. ltb a.created_at t)

-- ORDER BY created_at DESC
unfoldable pub list_assignments_by_filter : AssignmentFilter → M (List Assignment)
unfolding passes_filter select
list_assignments_by_filter f =
    query
      (λ d. sort_by (λ a b. leb b.created_at a.created_at) (select (passes_filter f) d.assignments))

unfoldable pub count_active_assignments : ℕ → M ℕ
unfolding count_rows
count_active_assignments question_id = query (λ d. count_rows (open_for question_id) d.assignments)

abbrev pub time_out : Assignment → Assignment
time_out = set_score AssignmentStatus.timed_out 0 0

-- The answer says whether a row was claimed still.
unfoldable pub time_out_row : ℕ → Db → Bool × Db
unfolding count_rows update_rows
time_out_row id d = (
  ltb 0 (count_rows (claimed_with_id id) d.assignments),
  record d { assignments = update_rows (claimed_with_id id) time_out d.assignments },
)

unfoldable pub timeout_assignment : ℕ → M Bool
unfolding time_out_row
timeout_assignment id = statement (λ d. (ok (time_out_row id d).0, (time_out_row id d).1))
