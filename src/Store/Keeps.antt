-- ===== src/Store/Keeps.antt =====
-- What an operation keeps true, for each way to build one, whichever statements fail.
use subnet_benchmark.Prelude.{Bool, if◌then◌else◌}
use subnet_benchmark.Model.{Error, Result, ok, err}
use subnet_benchmark.Store.{Db, World, M, pure, fail, statement, query}
use subnet_benchmark.Store.Meets.{
  Keeps, Meets, Ends, Outcome, Meets-statement, Meets-pure, Meets-fail, Meets-if,
}

module _ {A : Type 0} (P : Db → Type 0) where
  outcome : (r : Result A × Db) → P r.1 → Outcome (λ _. P) P r
  outcome (ok a, d) p = p
  outcome (err e, d) p = p

  pub Keeps-statement :
      (f : Db → Result A × Db) → ((d : Db) → P d → P (f d).1) → Keeps P (statement f)
  Keeps-statement f h = Meets-statement f (λ d p. outcome (f d) (h d p)) (λ d p. p)

  pub Keeps-query : (f : Db → A) → Keeps P (query f)
  Keeps-query f = Keeps-statement (λ d. (ok (f d), d)) (λ d p. p)

  pub Keeps-pure : (a : A) → Keeps P (pure a)
  Keeps-pure a = Meets-pure a (λ d p. p)

  pub Keeps-fail : (e : Error) → Keeps P (fail {A = A} e)
  Keeps-fail e = Meets-fail e (λ d p. p)

  pub Keeps-if : (b : Bool) (m n : M A) → Keeps P m → Keeps P n → Keeps P (if b then m else n)
  Keeps-if b m n h k = Meets-if b m n (λ _. h) (λ _. k)

  pub Keeps-world : (m : M A) → Keeps P m → (w : World) → P w.db → P (m w).1.db
  Keeps-world m h w p = same (m w) (h.at w p)
    where
      same : (r : Result A × World) → Ends (λ _. P) P r → P r.1.db
      same (ok a, w') o = o
      same (err e, w') o = o

  -- What an operation does on success.
  pub Meets-success :
      {Q : A → Db → Type 0} {E : Db → Type 0} (m : M A)
      → Meets P m Q E
      → Meets P m Q (λ _. Unit {0})
  Meets-success {Q} {E} m h = record { at = λ w p. forget (m w) (h.at w p) }
    where
      forget : (r : Result A × World) → Ends Q E r → Ends Q (λ _. Unit {0}) r
      forget (ok a, w) o = o
      forget (err e, w) o = tt
