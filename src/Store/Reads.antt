-- ===== src/Store/Reads.antt =====
-- Operations that read the tables `before`, decide, and change them at most at their end.
use subnet_benchmark.Prelude.{◌≡◌, sym, ap, subst, Bool, false, if◌then◌else◌}
use subnet_benchmark.Model.{Error}
use subnet_benchmark.Store.{Db, M, ◌>>=◌, pure, fail, query}
use subnet_benchmark.Store.Meets.{
  Meets, Meets-statement, Meets-pure, Meets-fail, Meets-if, Meets-bind,
}

-- `E` holds of the tables after an error.
module _ (before : Db) (E : Db → Type 0) where
  -- Reads that end in a fact about their result.
  abbrev pub Finds : {A : Type 0} → M A → (A → Type 0) → Type 0
  Finds m F = Meets (λ d. d ≡ before) m (λ a d. (d ≡ before) × F a) E

  pub then_ :
      {A B : Type 0} {F : A → Type 0} {R : B → Db → Type 0} (m : M A) (f : A → M B)
      → Finds m F
      → ((a : A) → F a → Meets (λ d. d ≡ before) (f a) R E)
      → Meets (λ d. d ≡ before) (m >>= f) R E
  then_ m f h k = Meets-bind m f h (λ a. record { at = λ w p. (k a p.1).at w p.0 })

  module _ (stays : E before) where
    pub query-Finds : {A : Type 0} (f : Db → A) → Finds (query f) (λ a. a ≡ f before)
    query-Finds f = Meets-statement _ (λ d e. (e, ap f e)) (λ d e. subst E (sym e) stays)

    pub fail-Meets :
        {A : Type 0} {R : A → Db → Type 0} (e : Error)
        → Meets (λ d. d ≡ before) (fail {A = A} e) R E
    fail-Meets e = Meets-fail e (λ d same. subst E (sym same) stays)

    pub pure-Finds : {A : Type 0} {F : A → Type 0} (a : A) → F a → Finds (pure a) F
    pure-Finds a fact = Meets-pure a (λ d same. (same, fact))

    -- A test whose success ends the operation.
    pub require :
        {A : Type 0} {R : A → Db → Type 0} (b : Bool) (e : Error) (m : M A)
        → (b ≡ false → Meets (λ d. d ≡ before) m R E)
        → Meets (λ d. d ≡ before) (if b then fail e else m) R E
    require {A} {R} b e m h = Meets-if b (fail {A = A} e) m (λ _. fail-Meets {R = R} e) h
