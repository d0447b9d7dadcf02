-- ===== src/Service/Timers.antt =====
-- internal/service/timer.go: the reply deadlines of assignments, and scoring when enough replies
-- are in; with the callback that cmd/benchmarkd/main.go gives to the answer service.
use subnet_benchmark.Prelude.{
  ℕ, Bool, true, false, List, [], ◌∷◌, ◌++◌, Option, none, some, ltb, leb, ◌==◌, ◌&&◌, length, not,
  if◌then◌else◌,
}
use subnet_benchmark.Model.{Assignment, Question, is_claimed, is_replied, is_submitted, ok}
use subnet_benchmark.Store.{
  Db, M, Timer, Task, timeout_task, score_task, ◌>>=◌, ◌>>◌, pure, query, ignore,
}
use subnet_benchmark.Store.Rows.{update_rows, select, count_rows, find_row}
use subnet_benchmark.Store.Assignments.{
  get_assignment, timeout_assignment, list_assignments_by_question, of_question, is_some,
}
use subnet_benchmark.Store.Questions.{submitted_with_id}
use subnet_benchmark.Service.Config.{RuntimeConfig, required_answers}
use subnet_benchmark.Service.Scoring.Run.{ScoringService, score_question, replied_of}

pub record TimerManager : Type 0 where
  pub scoring : ScoringService
  pub rt_config : Option RuntimeConfig
  pub required_replies : ℕ

abbrev pub required_of : TimerManager → ℕ
required_of tm = required_answers tm.rt_config tm.required_replies

abbrev mapped : ℕ → Timer → Bool
mapped assignment_id t = (t.assignment_id == assignment_id) && t.in_map

-- timers.Delete: the timer itself goes on.
unfoldable pub delete_timer : ℕ → M (Unit {0})
unfolding update_rows
delete_timer assignment_id w = (
  ok tt,
  record w {
    timers = update_rows (mapped assignment_id) (λ t. record t { in_map = false }) w.timers;
  },
)

unfoldable pub spawn : Task → M (Unit {0})
spawn task w = (ok tt, record w { tasks = w.tasks ++ task ∷ [] })

abbrev timer_for : Assignment → Timer
timer_for a = record {
  assignment_id = a.assignment_id;
  question_id = a.question_id;
  worker = a.worker;
  fires_at = a.reply_ddl;
  in_map = true;
}

-- time.AfterFunc and timers.Store; the entry that was there is replaced.
unfoldable pub store_timer : Assignment → M (Unit {0})
store_timer a w = (ok tt, record w { timers = timer_for a ∷ w.timers })

-- StartReplyTimer: a deadline that is not ahead is handled at once.
unfoldable pub start_reply_timer : ℕ → Assignment → M (Unit {0})
unfolding delete_timer spawn store_timer
start_reply_timer now a =
    if leb a.reply_ddl now
    then spawn (timeout_task a.assignment_id a.question_id a.worker)
    else delete_timer a.assignment_id >> store_timer a

-- CancelTimer: LoadAndDelete and Stop.
unfoldable pub cancel_timer : ℕ → M (Unit {0})
unfolding select
cancel_timer assignment_id w =
    (ok tt, record w { timers = select (λ t. not (mapped assignment_id t)) w.timers })

unfoldable pub score_if_enough : TimerManager → ℕ → ℕ → List Assignment → M (Unit {0})
unfolding score_question select
score_if_enough tm now question_id assignments =
    if leb (required_of tm) (length (replied_of assignments))
    then score_question tm.scoring now question_id
    else pure tt

-- TryScore: failures are logged and dropped.
unfoldable pub try_score : TimerManager → ℕ → ℕ → M (Unit {0})
unfolding list_assignments_by_question score_if_enough ignore
try_score tm now question_id = ignore (do
  assignments ← list_assignments_by_question question_id
  score_if_enough tm now question_id assignments)

abbrev pub after_timeout : TimerManager → ℕ → ℕ → Bool → M (Unit {0})
after_timeout tm now question_id false = pure tt
after_timeout tm now question_id true = try_score tm now question_id

unfoldable pub timeout_found : TimerManager → ℕ → ℕ → ℕ → Option Assignment → M (Unit {0})
unfolding timeout_assignment try_score
timeout_found tm now assignment_id question_id none = pure tt
timeout_found tm now assignment_id question_id (some a) =
    if is_claimed a.status
    then (do updated ← timeout_assignment assignment_id; after_timeout tm now question_id updated)
    else pure tt

-- handleTimeout: the timer leaves the map, then failures are logged and dropped.
unfoldable pub handle_timeout : TimerManager → ℕ → ℕ → ℕ → M (Unit {0})
unfolding timeout_found get_assignment delete_timer ignore
handle_timeout tm now assignment_id question_id =
    delete_timer assignment_id
    >> ignore
        (do a ← get_assignment assignment_id; timeout_found tm now assignment_id question_id a)

-- OnAnswerSubmitted of main.go: cancel the timer, and try to score in a goroutine.
unfoldable pub answer_submitted : Assignment → M (Unit {0})
unfolding cancel_timer spawn
answer_submitted a = cancel_timer a.assignment_id >> spawn (score_task a.question_id)

unfoldable pub recover_timer : ℕ → Assignment → M (Unit {0})
unfolding start_reply_timer spawn
recover_timer now a =
    if ltb a.reply_ddl now
    then spawn (timeout_task a.assignment_id a.question_id a.worker)
    else start_reply_timer now a

unfoldable pub recover_timers : ℕ → List Assignment → M (Unit {0})
unfolding recover_timer
recover_timers now [] = pure tt
recover_timers now (a ∷ rows) = recover_timer now a >> recover_timers now rows

unfoldable pub try_score_all : TimerManager → ℕ → List Question → M (Unit {0})
unfolding try_score
try_score_all tm now [] = pure tt
try_score_all tm now (q ∷ questions) =
    try_score tm now q.question_id >> try_score_all tm now questions

abbrev pub waiting_row : Db → Assignment → Bool
waiting_row d a =
    is_claimed a.status && is_some (find_row (submitted_with_id a.question_id) d.questions)

abbrev pub scorable : ℕ → Db → Question → Bool
scorable required d q =
    is_submitted q.status
    && leb required (
        count_rows (λ (a : Assignment). of_question q.question_id a && is_replied a.status)
          d.assignments)

-- RecoverOnStartup: rebuild the timers, then score what can be.
unfoldable pub recover_on_startup : TimerManager → ℕ → M (Unit {0})
unfolding recover_timers try_score_all select find_row count_rows
recover_on_startup tm now = do
  rows ← query (λ d. select (waiting_row d) d.assignments)
  recover_timers now rows
  questions ← query (λ d. select (scorable (required_of tm) d) d.questions)
  try_score_all tm now questions
