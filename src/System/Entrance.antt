-- ===== src/System/Entrance.antt =====
-- POST /api/v1/questions of cmd/benchmarkd/main.go: from a request to the tables.
use subnet_benchmark.Prelude.{
  ℕ, ◌≡◌, refl, sym, subst, ◌∙◌, inl, inr, ◌⊎◌, true, false, Option, none, some, String,
}
use mathlib.Core.Option
use subnet_benchmark.Model.{Worker, is_suspended, Result, ok, err}
use subnet_benchmark.Store.{Db, World, continue}
use subnet_benchmark.Store.Rows.{find_row}
use subnet_benchmark.Store.Workers.{has_address}
use subnet_benchmark.Store.Meets.{Ends}
use subnet_benchmark.Service.Questions.{QuestionService}
use subnet_benchmark.Service.Questions.Contract.{with_question}
use subnet_benchmark.Service.Questions.Contract.{Accepted as AcceptedQuestion}
use subnet_benchmark.Auth.Worker.{Request, Reply, refused, passed, worker_auth}
use subnet_benchmark.Auth.Signed.{Signed}
use subnet_benchmark.Auth.Admission.{MayEnter, Justified, worker_auth-Justified}
use subnet_benchmark.Handler.{Http}
use subnet_benchmark.Handler.Submissions.{QuestionBody, handle_submit_question}
use subnet_benchmark.Handler.Responses.{asked, Replied, Responds, QuestionResponse}
use subnet_benchmark.Handler.Outcomes.{handle_submit_question_lem}
use subnet_benchmark.System.Routes.{Router, full_auth, enter, decoded, post_question}
use subnet_benchmark.System.Middleware.{OnlyWorkers, worker_auth-Keeps}

-- A worker that signed the request may enter, and its question is accepted and stored.
pub record Entered (router : Router) (svc : QuestionService) (now : ℕ) (r : Request) (first : Db)
    (id : ℕ) (d : Db) : Type 0 where
  pub worker : String
  pub body : QuestionBody
  pub before : Db
  pub is_signed : Signed (full_auth router) now r worker
  pub may_enter : MayEnter (full_auth router) now worker first
  pub not_suspended :
      (m : Worker)
      → find_row (has_address worker) first.workers ≡ some m
      → is_suspended now m ≡ false
  pub read : decoded router.decode_question r.body ≡ some body
  pub unchanged : OnlyWorkers first before
  pub accepted : AcceptedQuestion svc now (asked worker body) before
  pub new_id : id ≡ before.next_question_id
  pub stored : d ≡ with_question now (asked worker body) before

module _ (router : Router) (svc : QuestionService) (now : ℕ) (r : Request) (first : Db) where
  abbrev Posted : Result (Http ℕ) × World → Type 0
  Posted = Ends (Replied 201 (Entered router svc now r first) (OnlyWorkers first)) (λ _. Unit {0})

  module _ (worker : String) (s : Signed (full_auth router) now r worker)
      (may : MayEnter (full_auth router) now worker first) (w : World)
      (same : OnlyWorkers first w.db) where
    active :
        MayEnter (full_auth router) now worker first
        → (m : Worker) → find_row (has_address worker) first.workers ≡ some m
        → is_suspended now m ≡ false
    active (inl (m', there, free)) m h =
        subst (λ (x : Worker). is_suspended now x ≡ false)
          (Option.some-injective _ _ (sym there ∙ h)) free
    active (inr (new, may_register_)) m h = absurd (no (sym new ∙ h))
      where
        no : none ≡ some m → ⊥
        no e = cc

    stored_or_not :
        (body : Option QuestionBody) (response : Http ℕ) (d : Db)
        → decoded router.decode_question r.body ≡ body
        → QuestionResponse svc now worker body w response d
        → Replied 201 (Entered router svc now r first) (OnlyWorkers first) response d
    stored_or_not body _ _ e (QuestionResponse.no_worker _) = same
    stored_or_not body _ _ e (QuestionResponse.not_read _ _) = same
    stored_or_not body _ _ e (QuestionResponse.incomplete _ _ _ _) = same
    stored_or_not body _ d e (QuestionResponse.stored b _ _ read accepted stored) = (
      refl,
      record {
        worker = worker;
        body = b;
        before = w.db;
        is_signed = s;
        may_enter = may;
        not_suspended = active may;
        read = e ∙ read;
        unchanged = same;
        accepted = accepted;
        new_id = refl;
        stored = stored;
      },
    )
    stored_or_not body _ d e (QuestionResponse.short_of_miners _ _ _ _ unchanged) =
        subst (OnlyWorkers first) (sym unchanged) same
    stored_or_not body _ d e (QuestionResponse.refused _ _ _ _ _ _ _ _ unchanged) =
        subst (OnlyWorkers first) (sym unchanged) same

    responded :
        (res : Result (Http ℕ) × World)
        → Responds (QuestionResponse svc now worker (decoded router.decode_question r.body) w) res
        → Posted res
    responded (ok response, w') h = stored_or_not _ response w'.db refl h
    responded (err x, w') none_ = tt

    handled :
        Posted (handle_submit_question svc now worker (decoded router.decode_question r.body) w)
    handled = responded _ (handle_submit_question_lem svc now worker _ w)

  not_signature_only :
      (worker : String)
      → (false ≡ true) ⊎ MayEnter (full_auth router) now worker first
      → MayEnter (full_auth router) now worker first
  not_signature_only worker (inl e) = absurd (no e)
    where
      no : false ≡ true → ⊥
      no e = cc
  not_signature_only worker (inr may) = may

  entered :
      (res : Result Reply × World)
      → Ends (λ reply _. Justified (full_auth router) now r first reply) (λ _. Unit {0}) res
      → Ends (λ _. OnlyWorkers first) (OnlyWorkers first) res
      → Posted (
          continue
            (enter (λ worker.
              handle_submit_question svc now worker (decoded router.decode_question r.body)))
            res)
  entered (err e, w) j p = tt
  entered (ok (refused status), w) j p = p
  entered (ok (passed worker), w) (s, may) p = handled worker s (not_signature_only worker may) w p

-- A POST of a question is answered with 201 only where the request is signed by a worker that may
-- enter and is not suspended, and SubmitQuestion accepts the question of that worker; then the tables
-- gain exactly this question, beside what the middleware does to the workers. Any other response
-- leaves all tables but that of the workers as they were.
pub post_question_lem :
    (router : Router) (svc : QuestionService) (now : ℕ) (r : Request) (w : World)
    → Ends
        (Replied 201 (Entered router svc now r w.db) (OnlyWorkers w.db))
        (λ _. Unit {0})
        (post_question router svc now r w)
unfolding post_question
post_question_lem router svc now r w =
    entered router svc now r w.db (worker_auth (full_auth router) now r w)
      (worker_auth-Justified (full_auth router) now r w)
      ((worker_auth-Keeps w.db (full_auth router) now r).at w refl)
