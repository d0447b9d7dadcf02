-- ===== src/Service/Polling/Checks.antt =====
-- The transaction of PollOnline (internal/service/poll.go), specified by the tables before and after.
use mathlib.Core.Option
use subnet_benchmark.Prelude.{
  ℕ, zero, suc, ◌≤◌, ◌<◌, ◌≡◌, refl, sym, subst, Bool, true, not, List, [], ◌∷◌, take, get_elem?,
  Option, none, some, String, ltb, ltb→lt, leb, arith,
}
use subnet_benchmark.Model.{Assignment, Question, Result, ok, err}
use subnet_benchmark.Store.{Db, World, pure, ignore, tx}
use subnet_benchmark.Store.Rows.{select, count_rows, order_by, latest}
use subnet_benchmark.Store.Counting.{count_rows-order_by}
use subnet_benchmark.Store.Assignments.{
  claimed_by, time_out_row, timeout_assignment, find_claimed_assignment, insert_assignment,
  create_assignment, count_active_assignments,
}
use subnet_benchmark.Store.Questions.{is_candidate, candidates, pick_question_for_worker}
use subnet_benchmark.Store.Reads.{then_, query-Finds}
use subnet_benchmark.Store.Meets.{
  Meets, Ends, Outcome, Meets-statement, Meets-pure, Meets-if, Meets-bind, Meets-ignore, Meets-tx,
}
use subnet_benchmark.Service.Polling.{
  assign_if_room, assign_picked, assign_new, reuse_or_assign, poll_body,
}
use subnet_benchmark.Service.Answers.Checks.{timed_out_row}

module _ {ℓ} {A : Type ℓ} (test : A → Bool) where
  count_rows-take : (n : ℕ) (xs : List A) → count_rows test (take n xs) ≤ count_rows test xs
  unfolding count_rows
  count_rows-take zero xs = omega arith
  count_rows-take (suc n) [] = omega arith
  count_rows-take (suc n) (x ∷ xs) = omega (arith, count_rows-take n xs)

  count_rows-select-not : (xs : List A) → count_rows (λ x. not (test x)) (select test xs) ≡ 0
  unfolding count_rows select
  count_rows-select-not [] = refl
  count_rows-select-not (x ∷ xs) = ground (arith, count_rows-select-not xs)

  get_elem-passes :
      (xs : List A) (i : ℕ) (a : A)
      → get_elem? xs i ≡ some a
      → count_rows (λ x. not (test x)) xs ≡ 0
      → test a ≡ true
  unfolding count_rows
  get_elem-passes [] i a e h = cc
  get_elem-passes (x ∷ xs) zero a e h =
      let passes : test x ≡ true = ground (arith, h) in
      subst (λ y. test y ≡ true) (Option.some-injective x a e) passes
  get_elem-passes (x ∷ xs) (suc i) a e h = get_elem-passes xs i a e (omega (arith, h))

-- A candidate satisfies the WHERE clause of the query.
candidate_lem :
    (worker : String) (required : ℕ) (d : Db) (i : ℕ) (q : Question)
    → get_elem? (candidates worker required d) i ≡ some q
    → is_candidate worker required d q ≡ true
unfolding candidates
candidate_lem worker required d i q e =
    let test = is_candidate worker required d in
    let rows = select test d.questions in
    let sorted = order_by (λ (r : Question). r.created_at) rows in
    let kept = count_rows-take (λ r. not (test r)) 100 sorted in
    let same = count_rows-order_by (λ r. not (test r)) (λ (r : Question). r.created_at) rows in
    let none_fail = count_rows-select-not test d.questions in
    get_elem-passes test (take 100 sorted) i q e (omega (arith, kept, same, none_fail))

-- The assignment that a worker holds.
unfoldable pub held_by : String → Db → Option Assignment
unfolding select latest
held_by worker d = latest (λ a. a.created_at) (select (claimed_by worker) d.assignments)

-- The tables once an assignment whose deadline has passed is timed out, if there is one. Where that
-- statement fails they stay as they are.
pub data Cleared (now : ℕ) (worker : String) (before mid : Db) : Type 0 where
  unchanged : mid ≡ before → Cleared now worker before mid
  expired :
      (a : Assignment)
      → held_by worker before ≡ some a
      → a.reply_ddl < now
      → mid ≡ timed_out_row a.assignment_id before
      → Cleared now worker before mid

-- What a committed poll may have done.
pub data Polled (now required : ℕ) (worker : String) (ddl : ℕ) (before : Db)
    : Option Assignment → Db → Type 0 where
  no_question :
      {d : Db} → Cleared now worker before d → Polled now required worker ddl before none d
  reused :
      {d : Db} {a : Assignment}
      → held_by worker before ≡ some a
      → now ≤ a.reply_ddl
      → d ≡ before
      → Polled now required worker ddl before (some a) d
  created :
      {d : Db} {a : Assignment} (mid : Db) (q : Question)
      → Cleared now worker before mid
      → is_candidate worker required mid q ≡ true
      → insert_assignment q.question_id worker ddl now mid ≡ (ok a, d)
      → Polled now required worker ddl before (some a) d

abbrev Anything : Db → Type 0
Anything d = Unit {0}

module _ (now random required : ℕ) (worker : String) (ddl : ℕ) (before : Db) where
  abbrev After : Option Assignment → Db → Type 0
  After = Polled now required worker ddl before

  inserted : (r : Result Assignment × Db) → Outcome (λ a d. r ≡ (ok a, d)) Anything r
  inserted (ok a, d) = refl
  inserted (err e, d) = tt

  module _ (mid : Db) (cleared : Cleared now worker before mid) where
    create-Meets :
        (q : Question)
        → Meets
            (λ d. d ≡ mid)
            (create_assignment q.question_id worker ddl now)
            (λ a d. insert_assignment q.question_id worker ddl now mid ≡ (ok a, d))
            Anything
    unfolding create_assignment
    create-Meets q =
        Meets-statement _
          (λ d same.
            subst
              (λ (e : Db).
                Outcome (λ a c. insert_assignment q.question_id worker ddl now mid ≡ (ok a, c))
                  Anything (insert_assignment q.question_id worker ddl now e))
              (sym same) (inserted (insert_assignment q.question_id worker ddl now mid)))
          (λ d same. tt)

    none-Meets : Meets (λ d. d ≡ mid) (pure none) After Anything
    none-Meets =
        Meets-pure none
          (λ d same. Polled.no_question (subst (Cleared now worker before) (sym same) cleared))

    picked-Meets :
        (q : Option Question)
        → q ≡ get_elem? (candidates worker required mid) random
        → Meets (λ d. d ≡ mid) (assign_picked now required worker ddl q) After Anything
    unfolding assign_if_room count_active_assignments
    picked-Meets none e = none-Meets
    picked-Meets (some q) e =
        then_ mid Anything _ _ (query-Finds mid Anything tt _) (λ count counted.
          Meets-if (leb required count) _ _ (λ _. none-Meets)
            (λ _. Meets-bind _ _ (create-Meets q) (λ a. Meets-pure (some a) (λ d made.
              Polled.created mid q cleared (candidate_lem worker required mid random q (sym e))
                made))))

    assign_new-Meets :
        Meets (λ d. d ≡ mid) (assign_new now random required worker ddl) After Anything
    unfolding assign_new pick_question_for_worker
    assign_new-Meets = then_ mid Anything _ _ (query-Finds mid Anything tt _) picked-Meets

  Cleared-Meets :
      (a : Assignment)
      → held_by worker before ≡ some a
      → a.reply_ddl < now
      → Meets
          (λ d. d ≡ before)
          (ignore (timeout_assignment a.assignment_id))
          (λ _. Cleared now worker before)
          Anything
  unfolding timeout_assignment time_out_row timed_out_row
  Cleared-Meets a held past = Meets-ignore _ (
      Meets-statement _ (λ d same. Cleared.expired a held past (rw same refl))
        (λ d same. Cleared.unchanged same))

  reuse-Meets :
      (a : Option Assignment)
      → a ≡ held_by worker before
      → Meets (λ d. d ≡ before) (reuse_or_assign now random required worker ddl a) After Anything
  unfolding reuse_or_assign
  reuse-Meets none e = assign_new-Meets before (Cleared.unchanged refl)
  reuse-Meets (some a) e =
      Meets-if (ltb a.reply_ddl now) _ _
        (λ past.
          Meets-bind _ _ (Cleared-Meets a (sym e) (ltb→lt _ _ past))
            (λ _. record { at = λ w cleared. (assign_new-Meets w.db cleared).at w refl }))
        (λ in_time.
          Meets-pure (some a) (λ d same. Polled.reused (sym e) (ground (arith, in_time)) same))

  poll_body-Meets :
      Meets (λ d. d ≡ before) (poll_body now random required worker ddl) After Anything
  unfolding poll_body find_claimed_assignment held_by
  poll_body-Meets = then_ before Anything _ _ (query-Finds before Anything tt _) reuse-Meets

-- The transaction of a poll returns the assignment that the worker holds, if its deadline has not
-- passed, and changes nothing; or it creates one, for a question that satisfies the conditions of
-- the query once an assignment past its deadline is timed out; or it creates none. After an error
-- the tables are as before.
pub poll_body_lem :
    (now random required : ℕ) (worker : String) (ddl : ℕ) (w : World)
    → Ends
        (Polled now required worker ddl w.db)
        (λ d. d ≡ w.db)
        (tx (poll_body now random required worker ddl) w)
poll_body_lem now random required worker ddl w =
    (Meets-tx _ (poll_body-Meets now random required worker ddl w.db) (λ d same. same)).at w refl
