-- ===== src/System/Timers.antt =====
-- internal/service/timer.go, with the callback of cmd/benchmarkd/main.go: what the operations keep
-- true of the assignments.
use subnet_benchmark.Prelude.{
  ℕ, Bool, true, false, List, [], ◌∷◌, Option, none, some, ltb, leb, length,
}
use subnet_benchmark.Model.{Assignment, Question, is_claimed}
use subnet_benchmark.Store.{Task, score_task}
use subnet_benchmark.Store.Assignments.{list_assignments_by_question, get_assignment}
use subnet_benchmark.Store.Meets.{Keeps, Meets-ignore}
use subnet_benchmark.Service.Scoring.Run.{replied_of}
use subnet_benchmark.Service.Timers.{
  TimerManager, required_of, delete_timer, store_timer, spawn, start_reply_timer, cancel_timer,
  score_if_enough, try_score, after_timeout, timeout_found, handle_timeout, answer_submitted,
  recover_timer, recover_timers, try_score_all, recover_on_startup,
}
use subnet_benchmark.System.{Inv}
use subnet_benchmark.System.Statements.{timeout_assignment-Inv}
use subnet_benchmark.System.Operations.{query-Inv, pure-Inv, bind-Inv, if-Inv}
use subnet_benchmark.System.Scoring.{score_question-Inv}

module _ (required : ℕ) where
  delete_timer-Inv : (id : ℕ) → Keeps (Inv required) (delete_timer id)
  unfolding delete_timer
  delete_timer-Inv id = record { at = λ w p. p }

  cancel_timer-Inv : (id : ℕ) → Keeps (Inv required) (cancel_timer id)
  unfolding cancel_timer
  cancel_timer-Inv id = record { at = λ w p. p }

  store_timer-Inv : (a : Assignment) → Keeps (Inv required) (store_timer a)
  unfolding store_timer
  store_timer-Inv a = record { at = λ w p. p }

  spawn-Inv : (task : Task) → Keeps (Inv required) (spawn task)
  unfolding spawn
  spawn-Inv task = record { at = λ w p. p }

  pub start_reply_timer-Inv :
      (now : ℕ) (a : Assignment) → Keeps (Inv required) (start_reply_timer now a)
  unfolding start_reply_timer
  start_reply_timer-Inv now a =
      if-Inv required (leb a.reply_ddl now) _ _ (spawn-Inv _)
        (bind-Inv required _ _ (delete_timer-Inv a.assignment_id) (λ _. store_timer-Inv a))

  pub answer_submitted-Inv : (a : Assignment) → Keeps (Inv required) (answer_submitted a)
  unfolding answer_submitted
  answer_submitted-Inv a =
      bind-Inv required _ _ (cancel_timer-Inv a.assignment_id)
        (λ _. spawn-Inv (score_task a.question_id))

  module _ (tm : TimerManager) (now : ℕ) where
    score_if_enough-Inv :
        (question_id : ℕ) (rows : List Assignment)
        → Keeps (Inv required) (score_if_enough tm now question_id rows)
    unfolding score_if_enough
    score_if_enough-Inv question_id rows =
        if-Inv required (leb (required_of tm) (length (replied_of rows))) _ _
          (score_question-Inv required now tm.scoring question_id) (pure-Inv required tt)

    pub try_score-Inv : (question_id : ℕ) → Keeps (Inv required) (try_score tm now question_id)
    unfolding try_score list_assignments_by_question
    try_score-Inv question_id =
        Meets-ignore _
          (bind-Inv required _ _ (query-Inv required _) (score_if_enough-Inv question_id))

    after_timeout-Inv :
        (question_id : ℕ) (updated : Bool)
        → Keeps (Inv required) (after_timeout tm now question_id updated)
    after_timeout-Inv question_id false = pure-Inv required tt
    after_timeout-Inv question_id true = try_score-Inv question_id

    timeout_found-Inv :
        (id question_id : ℕ) (a : Option Assignment)
        → Keeps (Inv required) (timeout_found tm now id question_id a)
    unfolding timeout_found
    timeout_found-Inv id question_id none = pure-Inv required tt
    timeout_found-Inv id question_id (some a) =
        if-Inv required (is_claimed a.status) _ _
          (bind-Inv required _ _ (timeout_assignment-Inv required id)
            (after_timeout-Inv question_id))
          (pure-Inv required tt)

    get_assignment-Inv : (id : ℕ) → Keeps (Inv required) (get_assignment id)
    unfolding get_assignment
    get_assignment-Inv id = query-Inv required _

    pub handle_timeout-Inv :
        (id question_id : ℕ) → Keeps (Inv required) (handle_timeout tm now id question_id)
    unfolding handle_timeout
    handle_timeout-Inv id question_id = bind-Inv required _ _ (delete_timer-Inv id) (λ _.
        Meets-ignore _
          (bind-Inv required _ _ (get_assignment-Inv id) (timeout_found-Inv id question_id)))

    recover_timer-Inv : (a : Assignment) → Keeps (Inv required) (recover_timer now a)
    unfolding recover_timer
    recover_timer-Inv a =
        if-Inv required (ltb a.reply_ddl now) _ _ (spawn-Inv _) (start_reply_timer-Inv now a)

    recover_timers-Inv : (rows : List Assignment) → Keeps (Inv required) (recover_timers now rows)
    unfolding recover_timers
    recover_timers-Inv [] = pure-Inv required tt
    recover_timers-Inv (a ∷ rows) =
        bind-Inv required _ _ (recover_timer-Inv a) (λ _. recover_timers-Inv rows)

    try_score_all-Inv :
        (questions : List Question) → Keeps (Inv required) (try_score_all tm now questions)
    unfolding try_score_all
    try_score_all-Inv [] = pure-Inv required tt
    try_score_all-Inv (q ∷ questions) =
        bind-Inv required _ _ (try_score-Inv q.question_id) (λ _. try_score_all-Inv questions)

    pub recover_on_startup-Inv : Keeps (Inv required) (recover_on_startup tm now)
    unfolding recover_on_startup
    recover_on_startup-Inv = bind-Inv required _ _ (query-Inv required _) (λ rows.
        bind-Inv required _ _ (recover_timers-Inv rows)
          (λ _. bind-Inv required _ _ (query-Inv required _) try_score_all-Inv))
