-- ===== src/System/Polling.antt =====
-- internal/service/poll.go and answer.go: what the operations keep true of the assignments.
use subnet_benchmark.Prelude.{
  ℕ, ◌+◌, ◌≤◌, ◌<◌, ◌≡◌, refl, false, arith, Option, none, some, String, ltb, leb, not,
  if◌then◌else◌,
}
use Prim.Native.String.{len}
use subnet_benchmark.Model.{Assignment, Question, BenchmarkSet, is_claimed}
use subnet_benchmark.Store.{Db, M, ◌>>=◌, pure, ignore}
use subnet_benchmark.Store.Rows.{count_rows}
use subnet_benchmark.Store.Assignments.{
  open_for, count_active_assignments, create_assignment, find_claimed_assignment,
  timeout_assignment, get_assignment_by_worker,
}
use subnet_benchmark.Store.Questions.{pick_question_for_worker, get_question}
use subnet_benchmark.Store.Sets.{get_benchmark_set}
use subnet_benchmark.Store.Workers.{update_worker_last_poll_at}
use subnet_benchmark.Store.Meets.{
  Keeps, Meets, Meets-statement, Meets-pure, Meets-if, Meets-bind, Meets-before, Meets-ignore,
  Keeps-tx,
}
use subnet_benchmark.Service.Polling.{
  PollService, required_of, assign_picked, assign_if_room, assign_new, reuse_or_assign, poll_body,
  view_of, view_question, build_assignment_result, answer_poll, poll_online,
}
use subnet_benchmark.Service.Polling.{notify as notify_poll}
use subnet_benchmark.Service.Answers.{
  SubmitAnswerRequest, notify, save_answer, answer_question, answer_assignment, submit_answer,
}
use subnet_benchmark.Service.Config.{reply_timeout}
use subnet_benchmark.System.{Inv}
use subnet_benchmark.System.Statements.{
  create_assignment-Inv, timeout_assignment-Inv, set_assignment_reply-Inv,
}
use subnet_benchmark.System.Operations.{other-Inv, query-Inv, fail-Inv, pure-Inv, bind-Inv, if-Inv}

module _ (required now : ℕ) where
  ignore_timeout-Inv : (id : ℕ) → Keeps (Inv required) (ignore (timeout_assignment id))
  ignore_timeout-Inv id = Meets-ignore _ (timeout_assignment-Inv required id)

  module _ (limit random : ℕ) (worker : String) (ddl : ℕ) (below : limit ≤ required) where
    create-Inv :
        (q : Question) (count : ℕ)
        → Meets
            (λ d. Inv required d × (count ≡ count_rows (open_for q.question_id) d.assignments))
            (if leb limit count
              then pure none
              else (do a ← create_assignment q.question_id worker ddl now; pure (some a)))
            (λ _. Inv required)
            (Inv required)
    create-Inv q count =
        Meets-if (leb limit count) _ _ (λ _. Meets-pure none (λ d p. p.0))
          (λ room.
            Meets-before _ (λ d p. (p.0, below_required room d p.1))
              (Meets-bind _ _ (create_assignment-Inv required q.question_id worker ddl now)
                (λ a. pure-Inv required (some a))))
      where
        below_required :
            leb limit count ≡ false
            → (d : Db) → count ≡ count_rows (open_for q.question_id) d.assignments
            → count_rows (open_for q.question_id) d.assignments < required
        below_required room d e = ground (arith, room, e, below)

    assign_if_room-Inv :
        (q : Question) → Keeps (Inv required) (assign_if_room now limit worker ddl q)
    unfolding assign_if_room count_active_assignments
    assign_if_room-Inv q =
        Meets-bind _ _ (Meets-statement _ (λ d inv. (inv, refl)) (λ d inv. inv)) (create-Inv q)

    assign_picked-Inv :
        (q : Option Question) → Keeps (Inv required) (assign_picked now limit worker ddl q)
    unfolding assign_if_room
    assign_picked-Inv none = pure-Inv required none
    assign_picked-Inv (some q) = assign_if_room-Inv q

    assign_new-Inv : Keeps (Inv required) (assign_new now random limit worker ddl)
    unfolding assign_new pick_question_for_worker
    assign_new-Inv = bind-Inv required _ _ (query-Inv required _) assign_picked-Inv

    reuse_or_assign-Inv :
        (existing : Option Assignment)
        → Keeps (Inv required) (reuse_or_assign now random limit worker ddl existing)
    unfolding reuse_or_assign
    reuse_or_assign-Inv none = assign_new-Inv
    reuse_or_assign-Inv (some a) =
        if-Inv required (ltb a.reply_ddl now) _ _
          (bind-Inv required _ _ (ignore_timeout-Inv a.assignment_id) (λ _. assign_new-Inv))
          (pure-Inv required (some a))

    poll_body-Inv : Keeps (Inv required) (poll_body now random limit worker ddl)
    unfolding poll_body find_claimed_assignment
    poll_body-Inv = bind-Inv required _ _ (query-Inv required _) reuse_or_assign-Inv

  module _ (svc : PollService) (random : ℕ) (worker : String) where
    view-Inv :
        (a : Assignment) (q : Question) (bs : Option BenchmarkSet)
        → Keeps (Inv required) (view_of svc a q bs)
    view-Inv a q none = fail-Inv required _
    view-Inv a q (some bs) = pure-Inv required _

    view_question-Inv :
        (a : Assignment) (q : Option Question) → Keeps (Inv required) (view_question svc a q)
    unfolding get_benchmark_set
    view_question-Inv a none = fail-Inv required _
    view_question-Inv a (some q) = bind-Inv required _ _ (query-Inv required _) (view-Inv a q)

    notify_poll-Inv :
        (callback : Option (Assignment → M (Unit {0})))
        → ((f : Assignment → M (Unit {0}))
            → callback ≡ some f
            → (a : Assignment) → Keeps (Inv required) (f a))
        → (a : Assignment) → Keeps (Inv required) (notify_poll callback a)
    notify_poll-Inv none h a = pure-Inv required tt
    notify_poll-Inv (some f) h a = h f refl a

    module _ (below : required_of svc ≤ required)
        (callback-Inv : (f : Assignment → M (Unit {0}))
          → svc.on_assignment_created ≡ some f
          → (a : Assignment) → Keeps (Inv required) (f a)) where
      answer_poll-Inv : (a : Option Assignment) → Keeps (Inv required) (answer_poll svc a)
      unfolding answer_poll build_assignment_result get_question
      answer_poll-Inv none = pure-Inv required none
      answer_poll-Inv (some a) =
          bind-Inv required _ _ (notify_poll-Inv svc.on_assignment_created callback-Inv a)
            (λ _. bind-Inv required _ _ (query-Inv required _) (view_question-Inv a))

      pub poll_online-Inv : Keeps (Inv required) (poll_online svc now random worker)
      unfolding poll_online update_worker_last_poll_at
      poll_online-Inv = bind-Inv required _ _ (other-Inv required _ (λ d. refl)) (λ _.
          bind-Inv required _ _
            (Keeps-tx _ (
              poll_body-Inv (required_of svc) random worker
                (now + reply_timeout svc.rt_config svc.config_reply_timeout) below))
            answer_poll-Inv)

  module _ (callback : Option (Assignment → M (Unit {0})))
      (callback-Inv : (f : Assignment → M (Unit {0}))
        → callback ≡ some f
        → (a : Assignment) → Keeps (Inv required) (f a))
      (row : ℕ) (req : SubmitAnswerRequest) where
    notify-Inv :
        (c : Option (Assignment → M (Unit {0})))
        → callback ≡ c
        → (a : Assignment) → Keeps (Inv required) (notify c a)
    notify-Inv none e a = pure-Inv required tt
    notify-Inv (some f) e a = callback-Inv f e a

    save_answer-Inv :
        (a : Assignment) (bs : Option BenchmarkSet)
        → Keeps (Inv required) (save_answer callback now req a bs)
    unfolding save_answer
    save_answer-Inv a none = fail-Inv required _
    save_answer-Inv a (some bs) =
        if-Inv required (ltb bs.answer_maxlen (len req.answer)) _ _ (fail-Inv required _) (
          bind-Inv required _ _
            (set_assignment_reply-Inv required now a.assignment_id req.valid req.answer)
            (λ _. notify-Inv callback refl a))

    answer_question-Inv :
        (a : Assignment) (q : Option Question)
        → Keeps (Inv required) (answer_question callback now req a q)
    unfolding answer_question get_benchmark_set
    answer_question-Inv a none = fail-Inv required _
    answer_question-Inv a (some q) =
        bind-Inv required _ _ (query-Inv required _) (save_answer-Inv a)

    answer_assignment-Inv :
        (a : Option Assignment) → Keeps (Inv required) (answer_assignment callback now req a)
    unfolding answer_assignment get_question
    answer_assignment-Inv none = fail-Inv required _
    answer_assignment-Inv (some a) =
        if-Inv required (not (is_claimed a.status)) _ _ (fail-Inv required _) (
          if-Inv required (ltb a.reply_ddl now) _ _
            (bind-Inv required _ _ (ignore_timeout-Inv a.assignment_id) (λ _. fail-Inv required _))
            (bind-Inv required _ _ (query-Inv required _) (answer_question-Inv a)))

    pub submit_answer-Inv : Keeps (Inv required) (submit_answer callback now row req)
    unfolding submit_answer get_assignment_by_worker
    submit_answer-Inv = bind-Inv required _ _ (query-Inv required _) answer_assignment-Inv
