-- ===== src/Auth/Admission.antt =====
-- WorkerAuth of internal/handler/worker_auth.go: who is let through to the handlers.
use subnet_benchmark.Prelude.{
  ℕ, ◌≡◌, refl, ◌⊎◌, inl, inr, Bool, true, false, ◌&&◌, Option, none, some, String,
}
use subnet_benchmark.Model.{Worker, is_suspended, internal_error, Result, ok, err}
use subnet_benchmark.Store.{Db, World, M}
use subnet_benchmark.Store.Rows.{find_row}
use subnet_benchmark.Store.Workers.{has_address, get_worker, create_worker}
use subnet_benchmark.Store.Meets.{
  Meets, Ends, Meets-pure, Meets-fail, Meets-if, Meets-bind, Meets-statement,
}
use subnet_benchmark.Auth.Worker.{
  Request, WorkerAuthConfig, Reply, refused, passed, Checked, rejected, signed, caught,
  caught_result, lift_suspension, serve, serve_created, may_register, register, look_up, admit,
  reply_to, authenticate, worker_auth,
}
use subnet_benchmark.Auth.Signed.{Signed}
use subnet_benchmark.Auth.Checks.{authenticate-Signed}

abbrev Any : Db → Type 0
Any d = Unit {0}

abbrev IfSome : {A : Type 0} → (A → Type 0) → Option A → Type 0
IfSome Q none = Unit {0}
IfSome Q (some a) = Q a

module _ {A : Type 0} {P : Db → Type 0} (Q : A → Type 0) where
  Meets-caught : (m : M A) → Meets P m (λ a d. Q a) Any → Meets P (caught m) (λ o d. IfSome Q o) Any
  unfolding caught
  Meets-caught m h = record { at = λ w p. both (m w) (h.at w p) }
    where
      both :
          (r : Result A × World)
          → Ends (λ a d. Q a) Any r
          → Ends (λ o d. IfSome Q o) Any (caught_result r)
      both (ok a, w) q = q
      both (err e, w) q = tt

  Meets-always : (m : M A) → ((a : A) → Q a) → Meets P m (λ a d. Q a) Any
  Meets-always m h = record { at = λ w p. always (m w) }
    where
      always : (r : Result A × World) → Ends (λ a d. Q a) Any r
      always (ok a, w) = h a
      always (err e, w) = tt

-- The worker has a row in the tables and is not suspended, where that is asked, or it has none and
-- may register.
abbrev pub MayEnter : WorkerAuthConfig → ℕ → String → Db → Type 0
MayEnter cfg now address d =
    ((worker : Worker) × (find_row (has_address address) d.workers ≡ some worker)
      × ((cfg.check_suspension && is_suspended now worker) ≡ false))
    ⊎ ((find_row (has_address address) d.workers ≡ none)
        × (may_register cfg.register_check address ≡ ok true))

-- What a reply says of the request and of the tables that it met.
abbrev pub Justified : WorkerAuthConfig → ℕ → Request → Db → Reply → Type 0
Justified cfg now r d (refused status) = Unit {0}
Justified cfg now r d (passed address) =
    Signed cfg now r address × ((cfg.signature_only ≡ true) ⊎ MayEnter cfg now address d)

module _ (cfg : WorkerAuthConfig) (now : ℕ) (r : Request) (first : Db) where
  abbrev Ok : Reply → Db → Type 0
  Ok reply d = Justified cfg now r first reply

  abbrev At : Db → Type 0
  At d = d ≡ first

  module _ (address : String) (s : Signed cfg now r address) where
    serve-Ok :
        {P : Db → Type 0} (worker : Worker)
        → (((cfg.check_suspension && is_suspended now worker) ≡ false)
            → MayEnter cfg now address first)
        → Meets P (serve cfg now address worker) Ok Any
    unfolding is_suspended
    serve-Ok {P} worker may =
        Meets-if (cfg.check_suspension && is_suspended now worker) _ _
          (λ e. Meets-pure (refused 403) (λ d p. tt))
          (λ e.
            Meets-bind {Q = λ u d. Unit {0}} _ _
              (Meets-always (λ u. Unit {0}) (lift_suspension now address worker) (λ u. tt))
              (λ u. Meets-pure (passed address) (λ d p. (s, inr (may e)))))

    register-Ok :
        (answer : Result Bool)
        → may_register cfg.register_check address ≡ answer
        → find_row (has_address address) first.workers ≡ none
        → {P : Db → Type 0} → Meets P (register cfg now address answer) Ok Any
    register-Ok (err e) asked new = Meets-pure (refused 500) (λ d p. tt)
    register-Ok (ok false) asked new = Meets-pure (refused 403) (λ d p. tt)
    register-Ok (ok true) asked new =
        Meets-bind {Q = λ o d. Unit {0}} _ _
          (Meets-always (λ o. Unit {0}) (caught (create_worker address now)) (λ o. tt)) created
      where
        created :
            (o : Option (Option Worker))
            → Meets (λ d. Unit {0}) (serve_created cfg now address o) Ok Any
        created none = Meets-pure (refused 500) (λ d p. tt)
        created (some none) = Meets-fail internal_error (λ d p. tt)
        created (some (some worker)) = serve-Ok worker (λ e. inr (new, asked))

    look_up-Ok :
        (found : Option (Option Worker))
        → Meets
            (λ d. IfSome (λ o. find_row (has_address address) first.workers ≡ o) found)
            (look_up cfg now address found)
            Ok
            Any
    look_up-Ok none = Meets-pure (refused 500) (λ d p. tt)
    look_up-Ok (some none) = record {
      at = λ w new.
          (register-Ok (may_register cfg.register_check address) refl new {P = λ d. Unit {0}}).at w
            tt;
    }
    look_up-Ok (some (some worker)) = record {
      at = λ w there. (serve-Ok {P = λ d. Unit {0}} worker (λ e. inl (worker, there, e))).at w tt;
    }

    admit-Ok : Meets At (admit cfg now address) Ok Any
    unfolding admit get_worker
    admit-Ok =
        Meets-if cfg.signature_only _ _ (λ only. Meets-pure (passed address) (λ d p. (s, inl only)))
          (λ e.
            Meets-bind _ _
              (Meets-caught (λ o. find_row (has_address address) first.workers ≡ o)
                (get_worker address) (Meets-statement _ (λ d same. rw same refl) (λ d same. tt)))
              look_up-Ok)

  reply_to-Ok : (c : Checked) → authenticate cfg now r ≡ c → Meets At (reply_to cfg now c) Ok Any
  reply_to-Ok (rejected status) e = Meets-pure (refused status) (λ d p. tt)
  reply_to-Ok (signed address) e = admit-Ok address (authenticate-Signed cfg now r address e)

  worker_auth-Ok : Meets At (worker_auth cfg now r) Ok Any
  unfolding worker_auth
  worker_auth-Ok = reply_to-Ok (authenticate cfg now r) refl

-- A request that passes to a handler is signed by the worker that the handler gets, and this worker
-- either had a row and was not suspended, where that is asked, or had none and may register; in
-- signature-only mode nothing is asked of the row.
pub worker_auth-Justified :
    (cfg : WorkerAuthConfig) (now : ℕ) (r : Request) (w : World)
    → Ends (λ reply _. Justified cfg now r w.db reply) (λ _. Unit {0}) (worker_auth cfg now r w)
worker_auth-Justified cfg now r w = (worker_auth-Ok cfg now r w.db).at w refl
