-- ===== src/Store/Epochs.antt =====
-- internal/store/epoch.go: epochs, and what a settlement reads and marks.
use subnet_benchmark.Prelude.{
  ℕ, ◌+◌, Bool, true, false, ◌&&◌, ◌||◌, not, List, [], ◌∷◌, ◌++◌, Option, none, some, String, ltb,
  leb, ◌==◌, if◌then◌else◌,
}
use subnet_benchmark.Prelude.Sort.{sort_by}
use subnet_benchmark.Model.{Epoch, Question, Assignment, AssignmentStatus, is_submitted, ok}
use subnet_benchmark.Store.{Db, M, ◌>>◌, pure, statement, query, exec}
use subnet_benchmark.Store.Rows.{select, count_rows, update_rows, find_row, order_by}
use subnet_benchmark.Store.Assignments.{is_some, of_question}
use subnet_benchmark.Store.Questions.{question_has_id, set_has_id}

abbrev pub of_date : ℕ → Epoch → Bool
of_date epoch_date e = e.epoch_date == epoch_date

abbrev pub new_epoch : ℕ → ℕ → Epoch
new_epoch epoch_date total_reward = record {
  epoch_date = epoch_date;
  total_reward = total_reward;
  total_scored = 0;
  settled_at = none;
  merkle_root = none;
  published_at = none;
}

abbrev pub reset_epoch : ℕ → Epoch → Epoch
reset_epoch total_reward e = record e {
  total_reward = total_reward;
  total_scored = 0;
  settled_at = none;
  merkle_root = none;
  published_at = none;
}

-- INSERT … ON CONFLICT DO UPDATE.
unfoldable pub upsert_epoch : ℕ → ℕ → Db → Db
unfolding find_row update_rows
upsert_epoch epoch_date total_reward d =
    if is_some (find_row (of_date epoch_date) d.epochs)
    then record d { epochs = update_rows (of_date epoch_date) (reset_epoch total_reward) d.epochs }
    else record d { epochs = d.epochs ++ new_epoch epoch_date total_reward ∷ [] }

unfoldable pub create_or_reset_epoch : ℕ → ℕ → M (Option Epoch)
unfolding upsert_epoch find_row
create_or_reset_epoch epoch_date total_reward = statement (λ d. (
  ok (find_row (of_date epoch_date) (upsert_epoch epoch_date total_reward d).epochs),
  upsert_epoch epoch_date total_reward d,
))

-- scored_at >= start AND scored_at < end; a missing time satisfies neither.
abbrev pub scored_between : ℕ → ℕ → Option ℕ → Bool
scored_between start end_ none = false
scored_between start end_ (some t) = leb start t && ltb t end_

unfoldable pub in_range : ℕ → ℕ → Question → Bool
in_range start end_ q = not (is_submitted q.status) && scored_between start end_ q.scored_at

unfoldable pub reset_benchmark_flags : ℕ → ℕ → M (Unit {0})
unfolding update_rows in_range
reset_benchmark_flags start end_ = exec (λ d. record d {
  questions =
      update_rows (λ q. in_range start end_ q && q.benchmark) (λ q. record q { benchmark = false })
        d.questions;
})

unfoldable pub finish_epoch : ℕ → ℕ → ℕ → M (Unit {0})
unfolding update_rows
finish_epoch now epoch_date total_scored = exec (λ d. record d {
  epochs =
      update_rows (of_date epoch_date)
        (λ e. record e { total_scored = total_scored; settled_at = some now }) d.epochs;
})

abbrev pub time_of : Option ℕ → ℕ
time_of none = 0
time_of (some t) = t

unfoldable pub list_scored_questions_in_range : ℕ → ℕ → M (List Question)
unfolding select in_range order_by
list_scored_questions_in_range start end_ =
    query (λ d. order_by (λ q. time_of q.scored_at) (select (in_range start end_) d.questions))

abbrev pub is_scored : AssignmentStatus → Bool
is_scored AssignmentStatus.scored = true
is_scored _ = false

-- status IN ('scored', 'timed-out')
abbrev pub is_final : AssignmentStatus → Bool
is_final AssignmentStatus.scored = true
is_final AssignmentStatus.timed_out = true
is_final _ = false

unfoldable pub has_id_in : List ℕ → Assignment → Bool
has_id_in [] a = false
has_id_in (id ∷ ids) a = of_question id a || has_id_in ids a

-- ORDER BY question_id, created_at
unfoldable pub before_in_list : Assignment → Assignment → Bool
before_in_list a b =
    if a.question_id == b.question_id
    then leb a.created_at b.created_at
    else leb a.question_id b.question_id

-- Without identifiers there is no statement.
unfoldable pub list_scored_assignments_for_questions : List ℕ → M (List Assignment)
unfolding select has_id_in before_in_list
list_scored_assignments_for_questions [] = pure []
list_scored_assignments_for_questions (id ∷ ids) = query (λ d.
    sort_by before_in_list
      (select (λ a. has_id_in (id ∷ ids) a && is_final a.status) d.assignments))

abbrev pub says_invalid : Option Bool → Bool
says_invalid (some false) = true
says_invalid _ = false

unfoldable pub count_invalid_reports : ℕ → M ℕ
unfolding count_rows
count_invalid_reports question_id = query (λ d.
    count_rows (λ a. of_question question_id a && is_scored a.status && says_invalid a.reply_valid)
      d.assignments)

-- Two statements.
unfoldable pub mark_benchmark : ℕ → String → M (Unit {0})
unfolding update_rows
mark_benchmark question_id bs_id =
    exec (λ d. record d {
      questions =
          update_rows (question_has_id question_id) (λ r. record r { benchmark = true })
            d.questions;
    })
    >> exec (λ d. record d {
      benchmark_sets =
          update_rows (set_has_id bs_id)
            (λ b. record b { qualified_questions = b.qualified_questions + 1 }) d.benchmark_sets;
    })

unfoldable pub reset_all_epoch_violations : M (Unit {0})
unfolding update_rows
reset_all_epoch_violations = exec (λ d. record d {
  workers = update_rows (λ w. true) (λ w. record w { epoch_violations = 0 }) d.workers;
})
