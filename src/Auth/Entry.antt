-- ===== src/Auth/Entry.antt =====
-- WorkerAuth of internal/handler/worker_auth.go on a signed request: the answer and the tables.
use subnet_benchmark.Prelude.{
  ℕ, ◌≡◌, ◌<◌, ◌≤◌, refl, ap, inl, inr, Bool, true, false, List, [], ◌∷◌, ◌++◌, map, Option, none,
  some, String, str_eq, Bool-cases, if◌then◌else◌, ltb, ltb→lt, arith,
}
use subnet_benchmark.Model.{Worker, is_suspended, Error, Result, ok, err}
use subnet_benchmark.Store.{Db, World, M, Timer, Task, ◌>>=◌, pure, statement, ignore}
use subnet_benchmark.Store.Rows.{find_row, update_rows}
use subnet_benchmark.Store.Workers.{
  has_address, new_worker, get_worker, create_worker, insert_worker, unsuspend_worker,
}
use subnet_benchmark.Auth.Worker.{
  Request, WorkerAuthConfig, Reply, passed, refused, caught, serve, register, may_register, admit,
  look_up, worker_auth,
}
use subnet_benchmark.Auth.Signed.{Signed, true_not_false}
use subnet_benchmark.Auth.Checks.{Signed-authenticate}

-- A world in which no statement fails.
abbrev pub calm : Db → List Timer → List Task → World
calm d timers tasks = record { db = d; faults = []; timers = timers; tasks = tasks }

-- The workers, with no suspension at the rows of the address.
abbrev pub without_suspension : String → List Worker → List Worker
without_suspension address workers =
    map (λ w. if str_eq w.address address then record w { suspended_until = none } else w) workers

-- What becomes of a worker with a signed request, from the tables `d`: the answer, and the tables
-- after it.
pub data Entering (cfg : WorkerAuthConfig) (now : ℕ) (address : String) (d : Db)
    : Result Reply → Db → Type 0 where
  never_suspended :
      (worker : Worker)
      → find_row (has_address address) d.workers ≡ some worker
      → worker.suspended_until ≡ none
      → Entering cfg now address d (ok (passed address)) d
  turned_away :
      (worker : Worker) (until : ℕ)
      → find_row (has_address address) d.workers ≡ some worker
      → worker.suspended_until ≡ some until
      → now < until
      → cfg.check_suspension ≡ true
      → Entering cfg now address d (ok (refused 403)) d
  let_pass :
      (worker : Worker) (until : ℕ)
      → find_row (has_address address) d.workers ≡ some worker
      → worker.suspended_until ≡ some until
      → now < until
      → cfg.check_suspension ≡ false
      → Entering cfg now address d (ok (passed address)) d
  lifted :
      (worker : Worker) (until : ℕ)
      → find_row (has_address address) d.workers ≡ some worker
      → worker.suspended_until ≡ some until
      → until ≤ now
      → Entering cfg now address d
          (ok (passed address))
          (record d { workers = without_suspension address d.workers })
  registered :
      find_row (has_address address) d.workers ≡ none
      → may_register cfg.register_check address ≡ ok true
      → Entering cfg now address d
          (ok (passed address))
          (record d { workers = d.workers ++ new_worker address now ∷ [] })
  not_registered :
      find_row (has_address address) d.workers ≡ none
      → may_register cfg.register_check address ≡ ok false
      → Entering cfg now address d (ok (refused 403)) d
  not_known :
      (e : Error)
      → find_row (has_address address) d.workers ≡ none
      → may_register cfg.register_check address ≡ err e
      → Entering cfg now address d (ok (refused 500)) d

update_rows-map :
    (address : String) (workers : List Worker)
    → update_rows (has_address address) (λ w. record w { suspended_until = none }) workers
      ≡ without_suspension address workers
unfolding update_rows
update_rows-map address [] = refl
update_rows-map address (w ∷ workers) =
    ap (◌∷◌ (if str_eq w.address address then record w { suspended_until = none } else w))
      (update_rows-map address workers)

module _ (cfg : WorkerAuthConfig) (now : ℕ) (d : Db) (timers : List Timer) (tasks : List Task)
    (address : String) where
  abbrev Enters : Result Reply × World → Type 0
  Enters res = Entering cfg now address d res.0 res.1.db

  abbrev start : World
  start = calm d timers tasks

  module _ (worker : Worker) (there : find_row (has_address address) d.workers ≡ some worker) where
    serve-Enters :
        (until : Option ℕ)
        → worker.suspended_until ≡ until
        → Enters (serve cfg now address worker start)
    unfolding is_suspended unsuspend_worker statement ignore
    serve-Enters none e = elim (Bool-cases cfg.check_suspension) [
      | inl asked ↦ rw (e, asked) (never_suspended worker there e)
      | inr not_asked ↦ rw (e, not_asked) (never_suspended worker there e)
    ]
    serve-Enters (some until) e = elim (Bool-cases (ltb now until)) [
      | inl runs ↦ elim (Bool-cases cfg.check_suspension) [
        | inl asked ↦
            rw (e, runs, asked) (turned_away worker until there e (ltb→lt now until runs) refl)
        | inr not_asked ↦
            rw (e, runs, not_asked) (let_pass worker until there e (ltb→lt now until runs) refl)
      ]
      | inr over ↦ elim (Bool-cases cfg.check_suspension) [
        | inl asked ↦
            rw (e, over, asked, update_rows-map address d.workers)
              (lifted worker until there e (ground (arith, over)))
        | inr not_asked ↦
            rw (e, over, not_asked, update_rows-map address d.workers)
              (lifted worker until there e (ground (arith, over)))
      ]
    ]

  register-Enters :
      find_row (has_address address) d.workers ≡ none
      → (answer : Result Bool) → may_register cfg.register_check address ≡ answer
      → Enters (register cfg now address answer start)
  unfolding create_worker insert_worker statement caught is_suspended ignore
  register-Enters new (err e) asked = not_known e new asked
  register-Enters new (ok false) asked = not_registered new asked
  register-Enters new (ok true) asked = elim (Bool-cases cfg.check_suspension) [
    | inl checked ↦ rw (new, checked) (registered new asked)
    | inr not_checked ↦ rw (new, not_checked) (registered new asked)
  ]

  full-Enters :
      (only : Bool) (m : M Reply)
      → only ≡ false
      → Enters (m start)
      → Enters ((if only then pure (passed address) else m) start)
  full-Enters true m full h = absurd (true_not_false full)
  full-Enters false m full h = h

  found-Enters :
      (found : Option Worker)
      → find_row (has_address address) d.workers ≡ found
      → Enters ((caught (get_worker address) >>= look_up cfg now address) start)
  unfolding get_worker statement caught
  found-Enters none new = rw new (register-Enters new _ refl)
  found-Enters (some worker) there = rw there (serve-Enters worker there _ refl)

  admit-Enters : cfg.signature_only ≡ false → Enters (admit cfg now address start)
  unfolding admit
  admit-Enters full = full-Enters cfg.signature_only _ full (found-Enters _ refl)

-- A signed request, where no statement fails and rows are looked at. A worker with a row passes, but
-- with 403 is turned away where its suspension runs and suspensions are checked; a suspension that
-- is over is taken off its rows, and nothing else changes. A worker without a row passes where it
-- may register, and its row is all that is added; otherwise it is turned away with 403, or with 500
-- where that is not known, and nothing changes.
pub worker_auth-Entering :
    (cfg : WorkerAuthConfig) (now : ℕ) (d : Db) (timers : List Timer) (tasks : List Task)
    (r : Request) (address : String)
    → Signed cfg now r address
    → cfg.signature_only ≡ false
    → Entering cfg now address d
        (worker_auth cfg now r (calm d timers tasks)).0
        (worker_auth cfg now r (calm d timers tasks)).1.db
unfolding worker_auth
worker_auth-Entering cfg now d timers tasks r address s full =
    rw (Signed-authenticate cfg now r address s) (admit-Enters cfg now d timers tasks address full)
