-- ===== src/Examples/Tables.antt =====
-- The services at a small database: a set, two workers and a question.
use Prim.Native.String
use subnet_benchmark.Prelude.{
  length, replicate, ◌%◌, ◌==◌, if◌then◌else◌, map, All, Mem, List, String, ◌*◌, ◌≡◌, refl, [], ◌∷◌,
  none, some, arith, true,
}
use subnet_benchmark.Model.{
  BenchmarkSet, SetStatus, Assignment, is_replied, internal_error, ok, err,
}
use subnet_benchmark.Store.{Db, World, statement, tx, ignore}
use subnet_benchmark.Store.Rows.{
  count_rows, select, update_rows, find_row, any_row, order_by, latest,
}
use subnet_benchmark.Store.Questions.{
  set_has_id, new_question, pick_question_for_worker, candidates, is_candidate, get_question,
}
use subnet_benchmark.Store.Assignments.{
  new_assignment, find_claimed_assignment, count_active_assignments, create_assignment,
  insert_assignment, may_insert, get_assignment_by_worker, set_assignment_reply, reply_row,
}
use subnet_benchmark.Store.Workers.{new_worker, update_worker_last_poll_at}
use subnet_benchmark.Store.Sets.{get_benchmark_set, Entry, Conversion, update_benchmark_set}
use subnet_benchmark.Store.Fields.{known_keys}
use subnet_benchmark.Store.Updates.{Spared, update_benchmark_set_lem}
use subnet_benchmark.Store.Meets.{Ends}
use subnet_benchmark.Service.Config.{
  default_question_config, minute, required_answers, reply_timeout,
}
use subnet_benchmark.Service.Questions.{QuestionService, SubmitQuestionRequest, submit_question}
use subnet_benchmark.Service.Questions.Checks.{submit_question_lem}
use subnet_benchmark.Service.Questions.Contract.{with_question}
use subnet_benchmark.Service.Questions.Contract.{Accepted as AcceptedQuestion}
use subnet_benchmark.Service.Polling.{
  PollService, poll_online, poll_body, reuse_or_assign, assign_new, assign_if_room, answer_poll,
  build_assignment_result,
}
use subnet_benchmark.Service.Polling.Checks.{Polled, poll_body_lem}
use subnet_benchmark.Service.Answers.{
  SubmitAnswerRequest, submit_answer, answer_assignment, answer_question, save_answer,
}
use subnet_benchmark.Service.Answers.Checks.{submit_answer_lem, answered, Accepted, Refused}
use subnet_benchmark.Service.Timers.{
  answer_submitted, cancel_timer, start_reply_timer, store_timer, delete_timer, spawn,
}
use subnet_benchmark.Service.Settlement.Run.{SettlementService}
use subnet_benchmark.System.{Inv}
use subnet_benchmark.System.Run.{Services, Event, Run, step, Run-Inv}

abbrev sums : BenchmarkSet
sums = record {
  set_id = "sums";
  description = "";
  question_requirements = "";
  answer_requirements = "";
  question_maxlen = 100;
  answer_maxlen = 10;
  answer_check_method = "exact";
  status = SetStatus.active;
  total_questions = 0;
  qualified_questions = 0;
  created_at = 1;
}

abbrev pub small_db : Db
small_db = record {
  workers = new_worker "asker" 1 ∷ new_worker "miner" 1 ∷ [];
  benchmark_sets = sums ∷ [];
  questions = new_question 1 "sums" "asker" "2 + 2" "4" [] 5 ∷ [];
  assignments = [];
  epochs = [];
  worker_epoch_rewards = [];
  merkle_proofs = [];
  system_config = [];
  next_question_id = 2;
  next_assignment_id = 1;
}

abbrev pub claimed_db : Db
claimed_db = record small_db {
  assignments = new_assignment 1 1 "miner" 100 10 ∷ [];
  next_assignment_id = 2;
}

abbrev pub world_of : Db → World
world_of d = record { db = d; faults = []; timers = []; tasks = [] }

abbrev pub questions_service : QuestionService
questions_service = record { config = default_question_config; rt_config = none }

abbrev poll_service : PollService
poll_service = record {
  config_reply_timeout = 3 * minute;
  config_required_answers = 5;
  default_prompt = "";
  rt_config = none;
  on_assignment_created = none;
}

-- Every worker is its own recipient, no request is made, and no chain is configured.
abbrev pub settlement_service : SettlementService
settlement_service = record {
  config = record {
    total_reward = 1000;
    min_tasks = 1;
    benchmark_min_score = record { num = 3; den = 5 };
  };
  rt_config = none;
  tree = record {
    keccak256 = λ text. replicate 32 (length text % 256);
    hex_to_address = λ text. replicate 20 (String.len text);
    request = λ worker attempt.
        if attempt == 2 then ok (record { status = 200; body = some "" }) else err internal_error;
    walk_rewards = λ payments. payments;
    walk_recipients = λ payments. payments;
  };
  onchain = none;
  walk_stats = λ stats. stats;
  store_score = λ x. 0;
}

abbrev services : Services
services = record {
  questions = questions_service;
  polling = poll_service;
  timers = record {
    scoring = record { rt_config = none; base_suspension_minutes = 10; walk = λ groups. groups };
    rt_config = none;
    required_replies = 5;
  };
  settlement = settlement_service;
}

abbrev sum_request : SubmitQuestionRequest
sum_request = record { bs_id = "sums"; question = "1 + 2"; answer = "3"; worker = "asker" }

submit_question_example :
    Ends
      (λ id d.
        (id ≡ 2)
        × (d ≡ with_question 90 sum_request small_db)
        × AcceptedQuestion questions_service 90 sum_request small_db)
      (λ d. d ≡ small_db)
      (submit_question questions_service 90 sum_request (world_of small_db))
submit_question_example = submit_question_lem questions_service 90 sum_request (world_of small_db)

abbrev four_request : SubmitAnswerRequest
four_request = record { question_id = 1; valid = true; answer = "4"; worker = "miner" }

submit_answer_example :
    Ends
      (λ _ d.
        (a : Assignment) × (d ≡ answered 50 four_request a.assignment_id claimed_db)
        × Accepted 50 0 four_request claimed_db a)
      (λ d. Refused 50 0 four_request claimed_db d)
      (submit_answer (some answer_submitted) 50 0 four_request (world_of claimed_db))
submit_answer_example = submit_answer_lem 50 0 four_request (world_of claimed_db)

poll_body_example :
    Ends
      (Polled 20 5 "miner" 100 small_db)
      (λ d. d ≡ small_db)
      (tx (poll_body 20 0 5 "miner" 100) (world_of small_db))
poll_body_example = poll_body_lem 20 0 5 "miner" 100 (world_of small_db)

-- A value that is its own text, and no number.
abbrev texts : Conversion String
texts = record { as_text = λ s. some s; as_int = λ s. none; as_time = λ s. none }

abbrev closing : List (Entry String)
closing = record { key = "status"; value = "inactive" } ∷ []

update_benchmark_set_example :
    Ends
      (λ o d.
        All (λ f. Mem f.key known_keys) closing
        × Spared "sums" small_db d
        × (o ≡ find_row (set_has_id "sums") d.benchmark_sets))
      (λ d. d ≡ small_db)
      (update_benchmark_set texts "sums" closing (world_of small_db))
update_benchmark_set_example = update_benchmark_set_lem texts "sums" closing (world_of small_db)

-- The set is closed.
closed :
    map
      (λ b. b.status)
      (update_benchmark_set texts "sums" closing (world_of small_db)).1.db.benchmark_sets
    ≡ SetStatus.inactive ∷ []
unfolding update_benchmark_set statement mathlib.Core.Option.bind
closed = refl

small_db-Inv : Inv 5 small_db
unfolding count_rows
small_db-Inv = record { room = λ q. omega arith; single = λ worker. omega arith }

abbrev polled : World
polled = step services (Event.worker_polls 20 0 "miner") (world_of small_db)

abbrev replied : World
replied = step services (Event.answer_given 30 0 four_request) polled

Run-Inv_example : Inv 5 replied.db
Run-Inv_example =
    Run-Inv 5 services (unfold required_answers in omega arith)
      (Run.next (Run.next Run.start (Event.worker_polls 20 0 "miner"))
        (Event.answer_given 30 0 four_request))
      small_db-Inv

-- The poll assigns the question, and the answer is taken: the timer is gone, and scoring is to run.
replied-rows : count_rows (λ a. is_replied a.status) replied.db.assignments ≡ 1
unfolding step poll_online poll_body reuse_or_assign assign_new assign_if_room
    find_claimed_assignment pick_question_for_worker candidates is_candidate
    count_active_assignments create_assignment insert_assignment may_insert
    update_worker_last_poll_at answer_poll build_assignment_result get_question get_benchmark_set
    start_reply_timer store_timer delete_timer spawn submit_answer answer_assignment answer_question
    save_answer get_assignment_by_worker set_assignment_reply reply_row answer_submitted
    cancel_timer statement tx ignore select count_rows update_rows find_row any_row order_by latest
    required_answers reply_timeout
replied-rows = refl
