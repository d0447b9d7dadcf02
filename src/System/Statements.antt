-- ===== src/System/Statements.antt =====
-- The statements of internal/store/assignment.go, and the rows that each one changes.
use subnet_benchmark.Prelude.{
  ℕ, ◌≤◌, ◌<◌, ◌≡◌, refl, subst, Bool, true, false, ◌&&◌, [], ◌∷◌, ◌++◌, arith, String, str_eq,
  str_eq_iff, ◌==◌, ==_iff, Bool-cases, inl, inr,
}
use subnet_benchmark.Model.{Assignment, AssignmentStatus, is_claimed, is_open, Fraction, to_numeric}
use subnet_benchmark.Store.{Db}
use subnet_benchmark.Store.Rows.{count_rows, update_rows}
use subnet_benchmark.Store.Counting.{count_rows-append, count_rows-update-le}
use subnet_benchmark.Store.Assignments.{
  open_for, claimed_by, claimed_with_id, has_id, reply, set_score, time_out, new_assignment,
  insert_assignment, may_insert, set_assignment_reply, set_assignment_score, timeout_assignment,
  create_assignment, reply_row, time_out_row, of_question, of_worker,
}
use subnet_benchmark.Store.Meets.{Keeps, Meets, Outcome, Meets-statement}
use subnet_benchmark.System.{Inv}

and-left : (a b : Bool) → (a && b) ≡ true → a ≡ true
and-left true b h = refl
and-left false b h = h

and-right : (a b : Bool) → (a && b) ≡ true → b ≡ true
and-right true b h = h
and-right false b h = ground arith

and-intro : (a b : Bool) → a ≡ true → b ≡ true → (a && b) ≡ true
and-intro a b h k = rw (h, k) refl

claimed-is_open : (s : AssignmentStatus) → is_claimed s ≡ true → is_open s ≡ true
claimed-is_open AssignmentStatus.claimed h = refl
claimed-is_open AssignmentStatus.replied h = ground arith
claimed-is_open AssignmentStatus.scored h = ground arith
claimed-is_open AssignmentStatus.timed_out h = ground arith

module _ (required : ℕ) (d : Db) (inv : Inv required d) where
  -- An update after which no row is claimed, and none open that was not, keeps the bounds.
  pub update-Inv :
      (where_ : Assignment → Bool) (change : Assignment → Assignment)
      → ((q : ℕ) (a : Assignment)
          → where_ a ≡ true
          → open_for q (change a) ≡ true
          → open_for q a ≡ true)
      → ((worker : String) (a : Assignment)
          → where_ a ≡ true
          → claimed_by worker (change a) ≡ true
          → claimed_by worker a ≡ true)
      → Inv required (record d { assignments = update_rows where_ change d.assignments })
  update-Inv where_ change h k = record {
    room = λ q.
        let fewer = count_rows-update-le (open_for q) where_ change d.assignments (h q) in
        omega (arith, inv.room q, fewer);
    single = λ worker.
        let fewer =
          count_rows-update-le (claimed_by worker) where_ change d.assignments (k worker) in
        omega (arith, inv.single worker, fewer);
  }

  pub time_out-Inv :
      (id : ℕ)
      → Inv required
          (record d { assignments = update_rows (claimed_with_id id) time_out d.assignments })
  time_out-Inv id =
      update-Inv (claimed_with_id id) time_out
        (λ q a h k. ground (arith, and-right (of_question q a) false k))
        (λ worker a h k. ground (arith, and-right (of_worker worker a) false k))

  pub score-Inv :
      (id score share : ℕ)
      → Inv required (record d {
        assignments =
            update_rows (has_id id) (set_score AssignmentStatus.scored score share) d.assignments;
      })
  score-Inv id score share =
      update-Inv (has_id id) (set_score AssignmentStatus.scored score share)
        (λ q a h k. ground (arith, and-right (of_question q a) false k))
        (λ worker a h k. ground (arith, and-right (of_worker worker a) false k))

  pub reply-Inv :
      (now id : ℕ) (valid : Bool) (answer : String)
      → Inv required (record d {
        assignments = update_rows (claimed_with_id id) (reply now valid answer) d.assignments;
      })
  reply-Inv now id valid answer =
      update-Inv (claimed_with_id id) (reply now valid answer)
        (λ q a h k.
          and-intro (of_question q a) (is_open a.status) (and-left (of_question q a) true k)
            (claimed-is_open a.status (and-right (has_id id a) (is_claimed a.status) h)))
        (λ worker a h k. ground (arith, and-right (of_worker worker a) false k))

  insert-room :
      (id question_id : ℕ) (worker : String) (ddl now q : ℕ)
      → count_rows (open_for question_id) d.assignments < required
      → count_rows (open_for q) (d.assignments ++ new_assignment id question_id worker ddl now ∷ [])
        ≤ required
  unfolding count_rows
  insert-room id question_id worker ddl now q h =
      let new = new_assignment id question_id worker ddl now in
      let added = count_rows-append (open_for q) d.assignments (new ∷ []) in
      elim (Bool-cases (question_id == q)) [
        | inl same ↦
            let e = (==_iff question_id q).0 same in
            let there = subst (λ (i : ℕ). count_rows (open_for i) d.assignments < required) e h in
            omega (arith, (rw same at added), there)
        | inr other ↦ omega (arith, (rw other at added), inv.room q)
      ]

  insert-single :
      (id question_id : ℕ) (worker : String) (ddl now : ℕ) (other : String)
      → count_rows (claimed_by worker) d.assignments ≡ 0
      → count_rows
          (claimed_by other)
          (d.assignments ++ new_assignment id question_id worker ddl now ∷ [])
        ≤ 1
  unfolding count_rows
  insert-single id question_id worker ddl now other h =
      let new = new_assignment id question_id worker ddl now in
      let added = count_rows-append (claimed_by other) d.assignments (new ∷ []) in
      elim (Bool-cases (str_eq worker other)) [
        | inl same ↦
            let e = (str_eq_iff worker other).0 same in
            let there = subst (λ (i : String). count_rows (claimed_by i) d.assignments ≡ 0) e h in
            omega (arith, (rw same at added), there)
        | inr differs ↦ omega (arith, (rw differs at added), inv.single other)
      ]

  pub insert-Inv :
      (question_id : ℕ) (worker : String) (ddl now : ℕ)
      → count_rows (open_for question_id) d.assignments < required
      → Outcome (λ _. Inv required) (Inv required) (insert_assignment question_id worker ddl now d)
  unfolding insert_assignment may_insert
  insert-Inv question_id worker ddl now h = elim (Bool-cases (may_insert d question_id worker)) [
    | inl free ↦
        let none_claimed = (==_iff _ _).0 (and-right _ _ free) in
        rw free (record {
          room = λ q. insert-room d.next_assignment_id question_id worker ddl now q h;
          single = λ other.
              insert-single d.next_assignment_id question_id worker ddl now other none_claimed;
        })
    | inr taken ↦ rw taken inv
  ]

module _ (required : ℕ) where
  pub create_assignment-Inv :
      (question_id : ℕ) (worker : String) (ddl now : ℕ)
      → Meets
          (λ d. Inv required d × (count_rows (open_for question_id) d.assignments < required))
          (create_assignment question_id worker ddl now)
          (λ _. Inv required)
          (Inv required)
  unfolding create_assignment
  create_assignment-Inv question_id worker ddl now =
      Meets-statement (insert_assignment question_id worker ddl now)
        (λ d p. insert-Inv required d p.0 question_id worker ddl now p.1) (λ d p. p.0)

  pub timeout_assignment-Inv : (id : ℕ) → Keeps (Inv required) (timeout_assignment id)
  unfolding timeout_assignment time_out_row
  timeout_assignment-Inv id =
      Meets-statement _ (λ d inv. time_out-Inv required d inv id) (λ d inv. inv)

  pub set_assignment_score-Inv :
      (id score : ℕ) (share : Fraction)
      → Keeps (Inv required) (set_assignment_score id AssignmentStatus.scored score share)
  unfolding set_assignment_score
  set_assignment_score-Inv id score share =
      Meets-statement _ (λ d inv. score-Inv required d inv id score (to_numeric share))
        (λ d inv. inv)

  pub set_assignment_reply-Inv :
      (now id : ℕ) (valid : Bool) (answer : String)
      → Keeps (Inv required) (set_assignment_reply now id valid answer)
  unfolding set_assignment_reply reply_row
  set_assignment_reply-Inv now id valid answer =
      Meets-statement (reply_row now id valid answer)
        (λ d inv. elim (Bool-cases (count_rows (claimed_with_id id) d.assignments == 0)) [
          | inl missing ↦ rw missing inv
          | inr found ↦ rw found (reply-Inv required d inv now id valid answer)
        ])
        (λ d inv. inv)
