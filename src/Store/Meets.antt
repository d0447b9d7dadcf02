-- ===== src/Store/Meets.antt =====
-- Before-and-after statements about operations on the store, and a rule for each way to build one.
-- They hold whichever statements fail.
use subnet_benchmark.Prelude.{
  ◌≡◌, refl, sym, subst, Bool, true, false, List, [], ◌∷◌, if◌then◌else◌,
}
use subnet_benchmark.Model.{Error, Result, ok, err}
use subnet_benchmark.Store.{
  Db, World, M, pure, fail, continue, ◌>>=◌, statement, run_statement, ignore, tx, finish, commit,
  after_begin,
}

-- `Q` holds of a result and the tables with it, `E` of the tables after an error.
abbrev pub Outcome : {A : Type 0} → (A → Db → Type 0) → (Db → Type 0) → Result A × Db → Type 0
Outcome Q E (ok a, d) = Q a d
Outcome Q E (err e, d) = E d

abbrev pub Ends : {A : Type 0} → (A → Db → Type 0) → (Db → Type 0) → Result A × World → Type 0
Ends Q E (ok a, w) = Q a w.db
Ends Q E (err e, w) = E w.db

pub record Meets {A : Type 0} (P : Db → Type 0) (m : M A) (Q : A → Db → Type 0) (E : Db → Type 0)
    : Type 0 where
  pub at : (w : World) → P w.db → Ends Q E (m w)

-- Whatever happens, `P` holds again.
abbrev pub Keeps : {A : Type 0} → (Db → Type 0) → M A → Type 0
Keeps P m = Meets P m (λ _. P) P

module _ {A : Type 0} (P : Db → Type 0) (Q : A → Db → Type 0) (E : Db → Type 0) where
  run_statement-Ends :
      (f : Db → Result A × Db)
      → ((d : Db) → P d → Outcome Q E (f d))
      → ((d : Db) → P d → E d)
      → (faults : List Bool) (w : World) → P w.db
      → Ends Q E (run_statement faults f w)
  run_statement-Ends f h k [] w p = lift (f w.db) (h w.db p)
    where
      lift : (r : Result A × Db) → Outcome Q E r → Ends Q E (r.0, record w { db = r.1 })
      lift (ok a, d) o = o
      lift (err e, d) o = o
  run_statement-Ends f h k (true ∷ rest) w p = k w.db p
  run_statement-Ends f h k (false ∷ rest) w p = lift (f w.db) (h w.db p)
    where
      lift :
          (r : Result A × Db) → Outcome Q E r → Ends Q E (r.0, record w { db = r.1; faults = rest })
      lift (ok a, d) o = o
      lift (err e, d) o = o

module _ {A : Type 0} {P : Db → Type 0} {Q : A → Db → Type 0} {E : Db → Type 0} where
  pub Meets-pure : (a : A) → ((d : Db) → P d → Q a d) → Meets P (pure a) Q E
  Meets-pure a h = record { at = λ w p. h w.db p }

  pub Meets-fail : (e : Error) → ((d : Db) → P d → E d) → Meets P (fail e) Q E
  Meets-fail e h = record { at = λ w p. h w.db p }

  pub Meets-statement :
      (f : Db → Result A × Db)
      → ((d : Db) → P d → Outcome Q E (f d))
      → ((d : Db) → P d → E d)
      → Meets P (statement f) Q E
  unfolding statement
  Meets-statement f h k = record { at = λ w p. run_statement-Ends P Q E f h k w.faults w p }

  pub Meets-before :
      {R : Db → Type 0} (m : M A) → ((d : Db) → R d → P d) → Meets P m Q E → Meets R m Q E
  Meets-before m h k = record { at = λ w r. k.at w (h w.db r) }

  pub Meets-after :
      {R : A → Db → Type 0} {m : M A}
      → ((a : A) (d : Db) → Q a d → R a d)
      → Meets P m Q E
      → Meets P m R E
  Meets-after {R} {m} h k = record { at = λ w p. weaken (m w) (k.at w p) }
    where
      weaken : (r : Result A × World) → Ends Q E r → Ends R E r
      weaken (ok a, w) o = h a w.db o
      weaken (err e, w) o = o

  pub Meets-if :
      (b : Bool) (m n : M A)
      → (b ≡ true → Meets P m Q E)
      → (b ≡ false → Meets P n Q E)
      → Meets P (if b then m else n) Q E
  Meets-if true m n h k = h refl
  Meets-if false m n h k = k refl

module _ {A B : Type 0} (Q : A → Db → Type 0) (R : B → Db → Type 0) (E : Db → Type 0) where
  continue-Ends :
      (f : A → M B)
      → ((a : A) → Meets (Q a) (f a) R E)
      → (r : Result A × World) → Ends Q E r
      → Ends R E (continue f r)
  continue-Ends f k (ok a, w) o = (k a).at w o
  continue-Ends f k (err e, w) o = o

module _ {A B : Type 0} {P : Db → Type 0} {Q : A → Db → Type 0} {R : B → Db → Type 0}
    {E : Db → Type 0} where
  pub Meets-bind :
      (m : M A) (f : A → M B)
      → Meets P m Q E
      → ((a : A) → Meets (Q a) (f a) R E)
      → Meets P (m >>= f) R E
  Meets-bind m f h k = record { at = λ w p. continue-Ends Q R E f k (m w) (h.at w p) }

module _ {A : Type 0} {P : Db → Type 0} {R : Db → Type 0} {E : Db → Type 0} where
  -- An operation with a dropped error, where the two ends say the same.
  pub Meets-ignore : (m : M A) → Meets P m (λ _. R) R → Meets P (ignore m) (λ _. R) E
  unfolding ignore
  Meets-ignore m h = record { at = λ w p. same (m w) (h.at w p) }
    where
      same : (r : Result A × World) → Ends {A = A} (λ _. R) R r → R r.1.db
      same (ok a, w) o = o
      same (err e, w) o = o

abbrev Same : Db → Db → Type 0
Same before d = d ≡ before

-- An empty statement, such as BEGIN, changes no table.
empty_statement :
    (w : World)
    → Ends {A = Unit {0}} (λ _. Same w.db) (Same w.db) (run_statement w.faults (λ d. (ok tt, d)) w)
empty_statement w =
    run_statement-Ends (Same w.db) (λ _. Same w.db) (Same w.db) (λ d. (ok tt, d)) (λ d e. e)
      (λ d e. e) w.faults w refl

module _ {A : Type 0} (P : Db → Type 0) (Q : A → Db → Type 0) (E : Db → Type 0) where
  commit-Ends :
      (before : Db) (a : A) (w : World) (r : Result (Unit {0}) × World)
      → E before
      → Q a w.db
      → Ends {A = Unit {0}} (λ _. Same w.db) (Same w.db) r
      → Ends Q E (commit before a r)
  commit-Ends before a w (ok _, w') e q same = subst (Q a) (sym same) q
  commit-Ends before a w (err x, w') e q same = e

  finish-Ends :
      (before : Db) (r : Result A × World)
      → E before
      → Ends Q (λ _. Unit {0}) r
      → Ends Q E (finish before r)
  unfolding statement
  finish-Ends before (ok a, w) e q = commit-Ends before a w _ e q (empty_statement w)
  finish-Ends before (err x, w) e q = e

  after_begin-Ends :
      (m : M A) (before : Db) (r : Result (Unit {0}) × World)
      → P before
      → Meets P m Q (λ _. Unit {0})
      → ((d : Db) → P d → E d)
      → Ends {A = Unit {0}} (λ _. Same before) (Same before) r
      → Ends Q E (after_begin m r)
  after_begin-Ends m before (ok _, w) p h k same =
      let p' : P w.db = subst P (sym same) p in finish-Ends w.db (m w) (k w.db p') (h.at w p')
  after_begin-Ends m before (err x, w) p h k same = subst E (sym same) (k before p)

module _ {A : Type 0} {P : Db → Type 0} {Q : A → Db → Type 0} {E : Db → Type 0} where
  -- A transaction that fails leaves the tables as they were.
  pub Meets-tx :
      (m : M A) → Meets P m Q (λ _. Unit {0}) → ((d : Db) → P d → E d) → Meets P (tx m) Q E
  unfolding tx
  Meets-tx m h k = record { at = λ w p. after_begin-Ends P Q E m w.db _ p h k (empty_statement w) }

module _ {A : Type 0} (P : Db → Type 0) where
  drop_error : (r : Result A × World) → Ends (λ _. P) P r → Ends (λ _. P) (λ _. Unit {0}) r
  drop_error (ok a, w) o = o
  drop_error (err e, w) o = tt

module _ {A : Type 0} {P : Db → Type 0} where
  pub Keeps-tx : (m : M A) → Keeps P m → Keeps P (tx m)
  Keeps-tx m h = Meets-tx m (record { at = λ w p. drop_error P (m w) (h.at w p) }) (λ d p. p)
