-- ===== src/System/Middleware.antt =====
-- WorkerAuth of internal/handler/worker_auth.go writes no table but that of the workers.
use subnet_benchmark.Prelude.{
  ℕ, ◌≡◌, Bool, true, false, ◌&&◌, not, Option, none, some, String, arith,
}
use subnet_benchmark.Model.{Worker, is_suspended, internal_error, Result, ok, err}
use subnet_benchmark.Store.{Db, World, M}
use subnet_benchmark.Store.Assignments.{is_some}
use subnet_benchmark.Store.Workers.{
  get_worker, create_worker, created_or_found, insert_worker, unsuspend_worker,
}
use subnet_benchmark.Store.Meets.{Keeps, Ends, Meets-bind, Meets-ignore}
use subnet_benchmark.Store.Keeps.{Keeps-statement, Keeps-query, Keeps-pure, Keeps-fail, Keeps-if}
use subnet_benchmark.Auth.Worker.{
  Request, WorkerAuthConfig, refused, passed, Checked, rejected, signed, caught, caught_result,
  serve, serve_created, may_register, register, look_up, admit, reply_to, authenticate, worker_auth,
}

-- No table but that of the workers differs from `first`.
abbrev pub OnlyWorkers : Db → Db → Type 0
OnlyWorkers first d = record d { workers = first.workers } ≡ first

module _ (first : Db) where
  abbrev P : Db → Type 0
  P = OnlyWorkers first

  caught-Keeps : {A : Type 0} (m : M A) → Keeps P m → Keeps P (caught m)
  unfolding caught
  caught-Keeps m h = record { at = λ w p. both (m w) (h.at w p) }
    where
      both :
          {A : Type 0} (r : Result A × World)
          → Ends (λ a. P) P r
          → Ends (λ o. P) P (caught_result r)
      both (ok a, w) q = q
      both (err e, w) q = q

  inserted : (address : String) (now : ℕ) (d : Db) → P d → P (insert_worker address now d).1
  unfolding insert_worker
  inserted address now d p = ground (arith, p)

  create_worker-Keeps : (address : String) (now : ℕ) → Keeps P (create_worker address now)
  unfolding create_worker get_worker
  create_worker-Keeps address now =
      Meets-bind _ _ (Keeps-statement P _ (λ d p. inserted address now d p)) found
    where
      found : (created : Option Worker) → Keeps P (created_or_found address created)
      found none = Keeps-query P _
      found (some w) = Keeps-pure P (some w)

  module _ (cfg : WorkerAuthConfig) (now : ℕ) (address : String) where
    serve-Keeps : (worker : Worker) → Keeps P (serve cfg now address worker)
    unfolding unsuspend_worker
    serve-Keeps worker =
        Keeps-if P (cfg.check_suspension && is_suspended now worker) _ _
          (Keeps-pure P (refused 403))
          (Meets-bind _ _
            (Keeps-if P (is_some worker.suspended_until && not (is_suspended now worker)) _ _
              (Meets-ignore _ (Keeps-statement P _ (λ d p. p))) (Keeps-pure P tt))
            (λ u. Keeps-pure P (passed address)))

    register-Keeps : (answer : Result Bool) → Keeps P (register cfg now address answer)
    register-Keeps (err e) = Keeps-pure P (refused 500)
    register-Keeps (ok false) = Keeps-pure P (refused 403)
    register-Keeps (ok true) =
        Meets-bind _ _ (caught-Keeps _ (create_worker-Keeps address now)) created
      where
        created : (o : Option (Option Worker)) → Keeps P (serve_created cfg now address o)
        created none = Keeps-pure P (refused 500)
        created (some none) = Keeps-fail P internal_error
        created (some (some worker)) = serve-Keeps worker

    look_up-Keeps : (found : Option (Option Worker)) → Keeps P (look_up cfg now address found)
    look_up-Keeps none = Keeps-pure P (refused 500)
    look_up-Keeps (some none) = register-Keeps (may_register cfg.register_check address)
    look_up-Keeps (some (some worker)) = serve-Keeps worker

    admit-Keeps : Keeps P (admit cfg now address)
    unfolding admit get_worker
    admit-Keeps =
        Keeps-if P cfg.signature_only _ _ (Keeps-pure P (passed address))
          (Meets-bind _ _ (caught-Keeps _ (Keeps-query P _)) look_up-Keeps)

  pub worker_auth-Keeps :
      (cfg : WorkerAuthConfig) (now : ℕ) (r : Request) → Keeps P (worker_auth cfg now r)
  unfolding worker_auth
  worker_auth-Keeps cfg now r = replied (authenticate cfg now r)
    where
      replied : (c : Checked) → Keeps P (reply_to cfg now c)
      replied (rejected status) = Keeps-pure P (refused status)
      replied (signed address) = admit-Keeps cfg now address
