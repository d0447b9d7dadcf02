-- ===== src/Service/Polling.antt =====
-- internal/service/poll.go: a worker asks for work.
pub mod Checks
use subnet_benchmark.Prelude.{ℕ, ◌+◌, Option, none, some, String, ltb, leb, if◌then◌else◌}
use subnet_benchmark.Model.{Assignment, Question, BenchmarkSet, internal_error}
use subnet_benchmark.Store.{M, ◌>>=◌, ◌>>◌, pure, fail, tx, ignore}
use subnet_benchmark.Store.Assignments.{
  find_claimed_assignment, timeout_assignment, count_active_assignments, create_assignment,
}
use subnet_benchmark.Store.Questions.{pick_question_for_worker, get_question}
use subnet_benchmark.Store.Sets.{get_benchmark_set}
use subnet_benchmark.Store.Workers.{update_worker_last_poll_at}
use subnet_benchmark.Service.Config.{RuntimeConfig, required_answers, reply_timeout, answer_prompt}

-- The question as a worker is sent it; times are not formatted.
pub record AssignmentView : Type 0 where
  pub assignment_id : ℕ
  pub question_id : ℕ
  pub question : String
  pub reply_ddl : ℕ
  pub created_at : ℕ
  pub question_requirements : String
  pub answer_requirements : String
  pub answer_maxlen : ℕ
  pub prompt : String

pub record PollService : Type 0 where
  pub config_reply_timeout : ℕ
  pub config_required_answers : ℕ
  pub default_prompt : String
  pub rt_config : Option RuntimeConfig
  pub on_assignment_created : Option (Assignment → M (Unit {0}))

abbrev pub required_of : PollService → ℕ
required_of svc = required_answers svc.rt_config svc.config_required_answers

-- The count is taken again under the row lock.
unfoldable pub assign_if_room : ℕ → ℕ → String → ℕ → Question → M (Option Assignment)
unfolding count_active_assignments create_assignment
assign_if_room now required worker reply_ddl q = do
  count ← count_active_assignments q.question_id
  if leb required count
      then pure none
      else (do a ← create_assignment q.question_id worker reply_ddl now; pure (some a))

abbrev pub assign_picked : ℕ → ℕ → String → ℕ → Option Question → M (Option Assignment)
assign_picked now required worker reply_ddl none = pure none
assign_picked now required worker reply_ddl (some q) =
    assign_if_room now required worker reply_ddl q

unfoldable pub assign_new : ℕ → ℕ → ℕ → String → ℕ → M (Option Assignment)
unfolding assign_if_room pick_question_for_worker
assign_new now random required worker reply_ddl = do
  q ← pick_question_for_worker random worker required
  assign_picked now required worker reply_ddl q

-- An assignment that the worker holds is returned, unless its deadline has passed.
unfoldable pub reuse_or_assign : ℕ → ℕ → ℕ → String → ℕ → Option Assignment → M (Option Assignment)
unfolding assign_new timeout_assignment
reuse_or_assign now random required worker reply_ddl none =
    assign_new now random required worker reply_ddl
reuse_or_assign now random required worker reply_ddl (some existing) =
    if ltb existing.reply_ddl now
    then ignore (timeout_assignment existing.assignment_id)
      >> assign_new now random required worker reply_ddl
    else pure (some existing)

unfoldable pub poll_body : ℕ → ℕ → ℕ → String → ℕ → M (Option Assignment)
unfolding reuse_or_assign find_claimed_assignment
poll_body now random required worker reply_ddl = do
  existing ← find_claimed_assignment worker
  reuse_or_assign now random required worker reply_ddl existing

abbrev pub view_of :
    PollService → Assignment → Question → Option BenchmarkSet → M (Option AssignmentView)
view_of svc a q none = fail internal_error
view_of svc a q (some bs) = pure (
    some (record {
      assignment_id = a.assignment_id;
      question_id = q.question_id;
      question = q.question;
      reply_ddl = a.reply_ddl;
      created_at = a.created_at;
      question_requirements = bs.question_requirements;
      answer_requirements = bs.answer_requirements;
      answer_maxlen = bs.answer_maxlen;
      prompt = answer_prompt svc.rt_config svc.default_prompt;
    }))

abbrev pub view_question : PollService → Assignment → Option Question → M (Option AssignmentView)
view_question svc a none = fail internal_error
view_question svc a (some q) = do bs ← get_benchmark_set q.bs_id; view_of svc a q bs

-- buildAssignmentResult
unfoldable pub build_assignment_result : PollService → Assignment → M (Option AssignmentView)
unfolding get_question get_benchmark_set
build_assignment_result svc a = do q ← get_question a.question_id; view_question svc a q

abbrev pub notify : Option (Assignment → M (Unit {0})) → Assignment → M (Unit {0})
notify none a = pure tt
notify (some callback) a = callback a

unfoldable pub answer_poll : PollService → Option Assignment → M (Option AssignmentView)
unfolding build_assignment_result
answer_poll svc none = pure none
answer_poll svc (some a) = notify svc.on_assignment_created a >> build_assignment_result svc a

-- PollOnline; `random` picks among the candidates.
unfoldable pub poll_online : PollService → ℕ → ℕ → String → M (Option AssignmentView)
unfolding poll_body update_worker_last_poll_at answer_poll
poll_online svc now random worker = do
  update_worker_last_poll_at worker now
  let reply_ddl = now + reply_timeout svc.rt_config svc.config_reply_timeout
  assignment ← tx (poll_body now random (required_of svc) worker reply_ddl)
  answer_poll svc assignment
