-- ===== src/System/Run.antt =====
-- The process of cmd/benchmarkd/main.go: requests, goroutines, settlements and restarts as steps, one
-- operation each, in any order. Any statement of any step may fail.
use subnet_benchmark.Prelude.{
  ℕ, zero, suc, ◌≤◌, subst, Bool, List, [], ◌∷◌, Option, none, some, String, leb, get_elem?,
  if◌then◌else◌,
}
use mathlib.Core.Option
use subnet_benchmark.Model.{Assignment}
use subnet_benchmark.Store.{M, pure, World, Task, Timer, timeout_task, score_task}
use subnet_benchmark.Store.Workers.{create_worker}
use subnet_benchmark.Store.Meets.{Keeps}
use subnet_benchmark.Service.Questions.{QuestionService, SubmitQuestionRequest, submit_question}
use subnet_benchmark.Service.Polling.{PollService, required_of, poll_online}
use subnet_benchmark.Service.Answers.{SubmitAnswerRequest, submit_answer}
use subnet_benchmark.Service.Timers.{
  TimerManager, start_reply_timer, answer_submitted, try_score, handle_timeout, recover_on_startup,
}
use subnet_benchmark.Service.Settlement.Run.{SettlementService, settle}
use subnet_benchmark.Store.Keeps.{Keeps-world}
use subnet_benchmark.System.{Inv}
use subnet_benchmark.System.Settlement.{settle-Inv}
use subnet_benchmark.System.Operations.{submit_question-Inv, create_worker-Inv, pure-Inv, if-Inv}
use subnet_benchmark.System.Polling.{poll_online-Inv, submit_answer-Inv}
use subnet_benchmark.System.Timers.{
  start_reply_timer-Inv, answer_submitted-Inv, try_score-Inv, handle_timeout-Inv,
  recover_on_startup-Inv,
}

-- The services, wired as main.go does: OnAssignmentCreated starts the timer.
pub record Services : Type 0 where
  pub questions : QuestionService
  pub polling : PollService
  pub timers : TimerManager
  pub settlement : SettlementService

abbrev pub wired : Services → ℕ → PollService
wired s now = record (s.polling) { on_assignment_created = some (start_reply_timer now) }

-- What happens next. A timer and a goroutine are named by their number in the world; a restart drops
-- those in memory. `statements_fail` says which of the statements to come fail.
pub data Event : Type 0 where
  question_submitted : ℕ → SubmitQuestionRequest → Event
  worker_polls : ℕ → ℕ → String → Event
  answer_given : ℕ → ℕ → SubmitAnswerRequest → Event
  worker_seen : ℕ → String → Event
  timer_fires : ℕ → ℕ → Event
  task_runs : ℕ → ℕ → Event
  restarts : ℕ → Event
  settles : ℕ → ℕ → Event
  statements_fail : List Bool → Event

abbrev pub remove_at {ℓ} : {A : Type ℓ} → ℕ → List A → List A
remove_at n [] = []
remove_at zero (x ∷ xs) = xs
remove_at (suc n) (x ∷ xs) = x ∷ remove_at n xs

abbrev pub fire : TimerManager → ℕ → Option Timer → M (Unit {0})
fire tm now none = pure tt
fire tm now (some t) =
    if leb t.fires_at now then handle_timeout tm now t.assignment_id t.question_id else pure tt

-- A timer that fires is no longer pending.
abbrev pub due : ℕ → Option Timer → ℕ → List Timer → List Timer
due now none n timers = timers
due now (some t) n timers = if leb t.fires_at now then remove_at n timers else timers

abbrev pub run_task : TimerManager → ℕ → Option Task → M (Unit {0})
run_task tm now none = pure tt
run_task tm now (some (timeout_task id question_id worker)) = handle_timeout tm now id question_id
run_task tm now (some (score_task question_id)) = try_score tm now question_id

unfoldable pub step : Services → Event → World → World
unfolding submit_question poll_online submit_answer create_worker handle_timeout try_score
    recover_on_startup start_reply_timer answer_submitted settle
step s (question_submitted now req) w = (submit_question s.questions now req w).1
step s (worker_polls now random worker) w = (poll_online (wired s now) now random worker w).1
step s (answer_given now row req) w = (submit_answer (some answer_submitted) now row req w).1
step s (worker_seen now worker) w = (create_worker worker now w).1
step s (timer_fires now n) w =
    (fire s.timers now (get_elem? w.timers n)
      (record w { timers = due now (get_elem? w.timers n) n w.timers })).1
step s (task_runs now n) w =
    (run_task s.timers now (get_elem? w.tasks n) (record w { tasks = remove_at n w.tasks })).1
step s (restarts now) w = (recover_on_startup s.timers now (record w { timers = []; tasks = [] })).1
step s (settles now epoch_date) w = (settle s.settlement now epoch_date w).1
step s (statements_fail faults) w = record w { faults = faults }

-- A run of the process from one world to another.
pub data Run (s : Services) (first : World) : World → Type 0 where
  start : Run s first first
  next : {w : World} → Run s first w → (e : Event) → Run s first (step s e w)

module _ (required : ℕ) where
  module _ (s : Services) (below : required_of s.polling ≤ required) where
    fire-Inv : (now : ℕ) (t : Option Timer) → Keeps (Inv required) (fire s.timers now t)
    fire-Inv now none = pure-Inv required tt
    fire-Inv now (some t) =
        if-Inv required (leb t.fires_at now) _ _
          (handle_timeout-Inv required s.timers now t.assignment_id t.question_id)
          (pure-Inv required tt)

    run_task-Inv :
        (now : ℕ) (task : Option Task) → Keeps (Inv required) (run_task s.timers now task)
    run_task-Inv now none = pure-Inv required tt
    run_task-Inv now (some (timeout_task id question_id worker)) =
        handle_timeout-Inv required s.timers now id question_id
    run_task-Inv now (some (score_task question_id)) =
        try_score-Inv required s.timers now question_id

    step-Inv : (e : Event) (w : World) → Inv required w.db → Inv required (step s e w).db
    unfolding step
    step-Inv (question_submitted now req) w inv =
        Keeps-world (Inv required) _ (submit_question-Inv required s.questions now req) w inv
    step-Inv (worker_polls now random worker) w inv =
        Keeps-world (Inv required) _
          (poll_online-Inv required now (wired s now) random worker below (λ f e a.
            subst (λ (g : Assignment → M (Unit {0})). Keeps (Inv required) (g a))
              (Option.some-injective _ _ e) (start_reply_timer-Inv required now a)))
          w inv
    step-Inv (answer_given now row req) w inv =
        Keeps-world (Inv required) _
          (submit_answer-Inv required now (some answer_submitted)
            (λ f e a.
              subst (λ (g : Assignment → M (Unit {0})). Keeps (Inv required) (g a))
                (Option.some-injective _ _ e) (answer_submitted-Inv required a))
            row req)
          w inv
    step-Inv (worker_seen now worker) w inv =
        Keeps-world (Inv required) _ (create_worker-Inv required worker now) w inv
    step-Inv (timer_fires now n) w inv =
        Keeps-world (Inv required) _ (fire-Inv now (get_elem? w.timers n)) _ inv
    step-Inv (task_runs now n) w inv =
        Keeps-world (Inv required) _ (run_task-Inv now (get_elem? w.tasks n))
          (record w { tasks = remove_at n w.tasks }) inv
    step-Inv (restarts now) w inv =
        Keeps-world (Inv required) _ (recover_on_startup-Inv required s.timers now)
          (record w { timers = []; tasks = [] }) inv
    step-Inv (settles now epoch_date) w inv =
        Keeps-world (Inv required) _ (settle-Inv required epoch_date s.settlement now) w inv
    step-Inv (statements_fail faults) w inv = inv

    -- If PollService asks for at most `required` answers, a run from a world where no question has
    -- more than `required` open assignments and no worker two claimed ones ends in such a world,
    -- whatever the order of requests, timers, goroutines, settlements, restarts and failed statements.
    pub Run-Inv : {first w : World} → Run s first w → Inv required first.db → Inv required w.db
    Run-Inv start inv = inv
    Run-Inv (next {w} run e) inv = step-Inv e w (Run-Inv run inv)
