-- ===== src/Store/Updates.antt =====
-- UpdateBenchmarkSet of internal/store/benchmark_set.go, by the tables before and after it.
use subnet_benchmark.Prelude.{
  ◌≡◌, ◌∙◌, refl, sym, ap, subst, not, List, [], ◌∷◌, map, Mem, All, Option, none, some, String,
}
use subnet_benchmark.Model.{BenchmarkSet, internal_error}
use subnet_benchmark.Store.{Db, World}
use subnet_benchmark.Store.Rows.{find_row, select}
use subnet_benchmark.Store.Questions.{set_has_id}
use subnet_benchmark.Store.Meets.{
  Outcome, Ends, Meets, Meets-pure, Meets-fail, Meets-statement, Meets-bind,
}
use subnet_benchmark.Store.Sets.{
  or_else, Column, Entry, Conversion, set_columns, updated_set, update_found, update_set,
  set_clauses, run_update, get_benchmark_set, update_benchmark_set,
}
use subnet_benchmark.Store.Fields.{
  fixed, known_keys, AllWritable, set_clauses-Writable, update_rows-fixed, select-others,
  find_row-changed,
}

-- The tables `d` after an update of a set, from `first`: the identifiers, counters and times of
-- creation are the same, and so are all other sets and all other tables.
pub record Spared (id : String) (first d : Db) : Type 0 where
  pub columns : map fixed d.benchmark_sets ≡ map fixed first.benchmark_sets
  pub others :
      select (λ b. not (set_has_id id b)) d.benchmark_sets
      ≡ select (λ b. not (set_has_id id b)) first.benchmark_sets
  pub elsewhere : record d { benchmark_sets = first.benchmark_sets } ≡ first

-- Nothing has changed.
same-Spared : (id : String) (d : Db) → Spared id d d
same-Spared id d = record { columns = refl; others = refl; elsewhere = refl }

module _ {V : Type 0} (convert : Conversion V) (id : String) (first : Db) where
  -- A row is returned that is in the tables.
  abbrev Returned : BenchmarkSet → Db → Type 0
  Returned b d = Spared id first d × (find_row (set_has_id id) d.benchmark_sets ≡ some b)

  update_set-Outcome :
      (columns : List (Column × V))
      → AllWritable convert columns
      → Outcome Returned (λ d. d ≡ first) (update_set convert id columns first)
  unfolding update_set
  update_set-Outcome columns all = found (find_row (set_has_id id) first.benchmark_sets) refl
    where
      changed :
          (b : BenchmarkSet) (o : Option BenchmarkSet)
          → find_row (set_has_id id) first.benchmark_sets ≡ some b
          → set_columns convert columns b ≡ o
          → Outcome Returned (λ d. d ≡ first) (updated_set convert id columns first o)
      changed b none there e = refl
      changed b (some b') there e = (
        record {
          columns = update_rows-fixed convert id columns all first.benchmark_sets;
          others = select-others convert id columns all first.benchmark_sets;
          elsewhere = refl;
        },
        find_row-changed convert id columns all first.benchmark_sets b there
            ∙ ap (λ (x : Option BenchmarkSet). some (or_else b x)) e,
      )

      found :
          (o : Option BenchmarkSet)
          → find_row (set_has_id id) first.benchmark_sets ≡ o
          → Outcome Returned (λ d. d ≡ first) (update_found convert id columns first o)
      found none e = refl
      found (some b) e = changed b (set_columns convert columns b) e refl

  abbrev Known : List (Entry V) → Type 0
  Known fields = All (λ f. Mem f.key known_keys) fields

  abbrev Updated : List (Entry V) → Option BenchmarkSet → Db → Type 0
  Updated fields o d =
      Known fields × Spared id first d × (o ≡ find_row (set_has_id id) d.benchmark_sets)

  run_update-Meets :
      (fields : List (Entry V)) (columns : Option (List (Column × V)))
      → set_clauses fields ≡ columns
      → Meets (λ d. d ≡ first) (run_update convert id columns) (Updated fields) (λ d. d ≡ first)
  run_update-Meets fields none e = Meets-fail internal_error (λ d same. same)
  run_update-Meets fields (some columns) e =
      let (writable, known) = set_clauses-Writable convert fields columns e in
      Meets-bind {Q = Returned} _ _
        (Meets-statement (update_set convert id columns)
          (λ d same.
            subst (λ (x : Db). Outcome Returned (λ d. d ≡ first) (update_set convert id columns x))
              (sym same) (update_set-Outcome columns writable))
          (λ d same. same))
        (λ b. Meets-pure (some b) (λ d (spared, there). (known, spared, sym there)))

  update-Meets :
      (fields : List (Entry V))
      → Meets
          (λ d. d ≡ first)
          (update_benchmark_set convert id fields)
          (Updated fields)
          (λ d. d ≡ first)
  unfolding update_benchmark_set get_benchmark_set
  update-Meets [] =
      Meets-statement _
        (λ d same.
          (tt, subst (λ (x : Db). Spared id first x) (sym same) (same-Spared id first), refl))
        (λ d same. same)
  update-Meets (f ∷ fields) = run_update-Meets (f ∷ fields) (set_clauses (f ∷ fields)) refl

-- An update of a benchmark set is an error, which changes nothing, or all its keys are of the seven
-- known ones, it returns the row of the set as it is after the update, and it writes no identifier,
-- no counter and no time of creation of any set, and leaves every other set and the other tables as
-- they were.
pub update_benchmark_set_lem :
    {V : Type 0} (convert : Conversion V) (id : String) (fields : List (Entry V)) (w : World)
    → Ends
        (λ o d.
          All (λ f. Mem f.key known_keys) fields
          × Spared id w.db d
          × (o ≡ find_row (set_has_id id) d.benchmark_sets))
        (λ d. d ≡ w.db)
        (update_benchmark_set convert id fields w)
update_benchmark_set_lem convert id fields w = (update-Meets convert id w.db fields).at w refl
