-- ===== src/Store/Sets.antt =====
-- internal/store/benchmark_set.go.
use subnet_benchmark.Prelude.{
  ℕ, Bool, true, false, ◌||◌, not, List, [], ◌∷◌, ◌++◌, Option, none, some, String, str_eq,
  if◌then◌else◌,
}
use mathlib.Core.Option
use subnet_benchmark.Model.{BenchmarkSet, SetStatus, db_error, internal_error, Result, ok, err}
use subnet_benchmark.Store.{Db, M, ◌>>=◌, pure, fail, statement, query}
use subnet_benchmark.Store.Rows.{find_row, update_rows, select, order_by}
use subnet_benchmark.Store.Assignments.{is_some, holds}
use subnet_benchmark.Store.Questions.{set_has_id}

-- The row that CreateBenchmarkSet writes: the counters begin at 0.
abbrev pub new_set : BenchmarkSet → ℕ → BenchmarkSet
new_set bs now = record bs { total_questions = 0; qualified_questions = 0; created_at = now }

-- The primary key, and the check on answer_check_method; the status is one of the two by its type.
unfoldable pub insert_set : BenchmarkSet → ℕ → Db → Result BenchmarkSet × Db
unfolding find_row
insert_set bs now d =
    if is_some (find_row (set_has_id bs.set_id) d.benchmark_sets)
      || not (str_eq bs.answer_check_method "exact")
    then (err db_error, d)
    else (
      ok (new_set bs now),
      record d { benchmark_sets = d.benchmark_sets ++ new_set bs now ∷ [] },
    )

unfoldable pub create_benchmark_set : BenchmarkSet → ℕ → M BenchmarkSet
unfolding insert_set
create_benchmark_set bs now = statement (insert_set bs now)

unfoldable pub get_benchmark_set : String → M (Option BenchmarkSet)
unfolding find_row
get_benchmark_set set_id = query (λ d. find_row (set_has_id set_id) d.benchmark_sets)

abbrev pub same_set_status : SetStatus → SetStatus → Bool
same_set_status SetStatus.active SetStatus.active = true
same_set_status SetStatus.inactive SetStatus.inactive = true
same_set_status _ _ = false

-- `none` is the empty status, which asks for all.
unfoldable pub list_benchmark_sets : Option SetStatus → M (List BenchmarkSet)
unfolding select order_by
list_benchmark_sets status = query (λ d.
    order_by (λ b. b.created_at)
      (select (λ b. holds status (same_set_status b.status)) d.benchmark_sets))

-- The columns of benchmark_sets.
pub data Column : Type 0 where
  set_id description question_requirements answer_requirements question_maxlen answer_maxlen
        answer_check_method status total_questions qualified_questions created_at :
      Column

-- A key of a map, with its value.
pub record Entry (A : Type 0) : Type 0 where
  pub key : String
  pub value : A

abbrev pub allowed_bs_fields : List (Entry Column)
allowed_bs_fields =
    record { key = "description"; value = Column.description }
    ∷ record { key = "question_requirements"; value = Column.question_requirements }
    ∷ record { key = "answer_requirements"; value = Column.answer_requirements }
    ∷ record { key = "question_maxlen"; value = Column.question_maxlen }
    ∷ record { key = "answer_maxlen"; value = Column.answer_maxlen }
    ∷ record { key = "answer_check_method"; value = Column.answer_check_method }
    ∷ record { key = "status"; value = Column.status }
    ∷ []

-- col, ok := m[key]
unfoldable pub lookup : {A : Type 0} → String → List (Entry A) → Option A
lookup key [] = none
lookup key (e ∷ entries) =
    let later = lookup key entries in if str_eq e.key key then some e.value else later

-- What the driver and PostgreSQL make of a value (Go's `any`) for a column of type TEXT, INT or
-- TIMESTAMPTZ: none is an error.
pub record Conversion (V : Type 0) : Type 0 where
  pub as_text : V → Option String
  pub as_int : V → Option ℕ
  pub as_time : V → Option ℕ

-- The checks on status and answer_check_method.
abbrev status_of_text : String → Option SetStatus
status_of_text s =
    if str_eq s "active"
    then some SetStatus.active
    else if str_eq s "inactive"
    then some SetStatus.inactive
    else none

abbrev check_method : String → Option String
check_method s = if str_eq s "exact" then some s else none

abbrev and_then : (BenchmarkSet → Option BenchmarkSet) → Option BenchmarkSet → Option BenchmarkSet
and_then f none = none
and_then f (some b) = f b

abbrev pub or_else : BenchmarkSet → Option BenchmarkSet → BenchmarkSet
or_else b none = b
or_else b (some changed) = changed

module _ {V : Type 0} where
  abbrev pub join_column :
      V → Option Column → Option (List (Column × V)) → Option (List (Column × V))
  join_column v (some column) (some columns) = some ((column, v) ∷ columns)
  join_column _ _ _ = none

  -- The clauses of the UPDATE; a key that is not allowed is an error.
  unfoldable pub set_clauses : List (Entry V) → Option (List (Column × V))
  unfolding lookup
  set_clauses [] = some []
  set_clauses (f ∷ fields) =
      join_column f.value (lookup f.key allowed_bs_fields) (set_clauses fields)

module _ {V : Type 0} (convert : Conversion V) where
  -- SET column = value
  abbrev pub set_column : Column → V → BenchmarkSet → Option BenchmarkSet
  set_column Column.set_id v b = Option.map (λ s. record b { set_id = s }) (convert.as_text v)
  set_column Column.description v b =
      Option.map (λ s. record b { description = s }) (convert.as_text v)
  set_column Column.question_requirements v b =
      Option.map (λ s. record b { question_requirements = s }) (convert.as_text v)
  set_column Column.answer_requirements v b =
      Option.map (λ s. record b { answer_requirements = s }) (convert.as_text v)
  set_column Column.question_maxlen v b =
      Option.map (λ n. record b { question_maxlen = n }) (convert.as_int v)
  set_column Column.answer_maxlen v b =
      Option.map (λ n. record b { answer_maxlen = n }) (convert.as_int v)
  set_column Column.answer_check_method v b =
      Option.map (λ s. record b { answer_check_method = s })
        (Option.bind (convert.as_text v) check_method)
  set_column Column.status v b =
      Option.map (λ s. record b { status = s }) (Option.bind (convert.as_text v) status_of_text)
  set_column Column.total_questions v b =
      Option.map (λ n. record b { total_questions = n }) (convert.as_int v)
  set_column Column.qualified_questions v b =
      Option.map (λ n. record b { qualified_questions = n }) (convert.as_int v)
  set_column Column.created_at v b =
      Option.map (λ n. record b { created_at = n }) (convert.as_time v)

  -- The keys are of a map, so no column is set twice and their order does not matter.
  unfoldable pub set_columns : List (Column × V) → BenchmarkSet → Option BenchmarkSet
  set_columns [] b = some b
  set_columns (c ∷ columns) b = and_then (set_columns columns) (set_column c.0 c.1 b)

  abbrev pub updated_set :
      String → List (Column × V) → Db → Option BenchmarkSet → Result BenchmarkSet × Db
  updated_set id columns d none = (err db_error, d)
  updated_set id columns d (some b) = (
    ok b,
    record d {
      benchmark_sets =
          update_rows (set_has_id id) (λ b. or_else b (set_columns columns b)) d.benchmark_sets;
    },
  )

  abbrev pub update_found :
      String → List (Column × V) → Db → Option BenchmarkSet → Result BenchmarkSet × Db
  update_found id columns d none = (err internal_error, d)
  update_found id columns d (some b) = updated_set id columns d (set_columns columns b)

  -- The UPDATE with its RETURNING: no row is the error "not found". The row has the primary key.
  unfoldable pub update_set : String → List (Column × V) → Db → Result BenchmarkSet × Db
  unfolding find_row update_rows set_columns
  update_set id columns d = update_found id columns d (find_row (set_has_id id) d.benchmark_sets)

  abbrev pub run_update : String → Option (List (Column × V)) → M (Option BenchmarkSet)
  run_update id none = fail internal_error
  run_update id (some columns) = do b ← statement (update_set id columns); pure (some b)

  unfoldable pub update_benchmark_set : String → List (Entry V) → M (Option BenchmarkSet)
  unfolding update_set set_clauses get_benchmark_set
  update_benchmark_set id [] = get_benchmark_set id
  update_benchmark_set id (f ∷ fields) = run_update id (set_clauses (f ∷ fields))
