-- ===== src/System/Operations.antt =====
-- internal/service/question.go, poll.go and answer.go: what the operations keep true.
use subnet_benchmark.Prelude.{
  ℕ, ◌≡◌, refl, Bool, List, [], ◌∷◌, arith, Option, none, some, String, ltb, if◌then◌else◌,
}
use Prim.Native.String.{len}
use subnet_benchmark.Model.{BenchmarkSet, Worker, Error, is_active, Result}
use subnet_benchmark.Minhash.{Signature, from_bytes, to_bytes, jaccard_reaches}
use subnet_benchmark.Store.{Db, M, ◌>>=◌, pure, fail, statement, query}
use subnet_benchmark.Store.Questions.{
  get_last_question_time, list_all_question_minhashes, create_question,
  increment_bs_total_questions, insert_question,
}
use subnet_benchmark.Store.Sets.{get_benchmark_set}
use subnet_benchmark.Store.Workers.{create_worker, created_or_found, insert_worker, get_worker}
use subnet_benchmark.Store.Keeps.{Keeps-statement, Keeps-query, Keeps-pure, Keeps-fail, Keeps-if}
use subnet_benchmark.Store.Meets.{Keeps, Meets-bind, Keeps-tx}
use subnet_benchmark.Service.Questions.{
  SubmitQuestionRequest, QuestionService, cfg, signature_of, too_soon, require_active, check_rate,
  check_lengths, check_similar, store_question, submit_question,
}
use subnet_benchmark.System.{Inv}

-- A statement on the other tables.
abbrev Untouched : {A : Type 0} → (Db → Result A × Db) → Type 0
Untouched f = (d : Db) → (f d).1.assignments ≡ d.assignments

module _ (required : ℕ) where
  pub same-Inv : (d e : Db) → e.assignments ≡ d.assignments → Inv required d → Inv required e
  same-Inv d e same inv = record {
    room = λ q. rw same (inv.room q);
    single = λ worker. rw same (inv.single worker);
  }

  module _ {A : Type 0} where
    pub other-Inv : (f : Db → Result A × Db) → Untouched f → Keeps (Inv required) (statement f)
    other-Inv f same = Keeps-statement (Inv required) f (λ d inv. same-Inv d (f d).1 (same d) inv)

    pub query-Inv : (f : Db → A) → Keeps (Inv required) (query f)
    query-Inv f = Keeps-query (Inv required) f

    pub fail-Inv : (e : Error) → Keeps (Inv required) (fail {A = A} e)
    fail-Inv e = Keeps-fail (Inv required) e

    pub pure-Inv : (a : A) → Keeps (Inv required) (pure a)
    pure-Inv a = Keeps-pure (Inv required) a

    pub if-Inv :
        (b : Bool) (m n : M A)
        → Keeps (Inv required) m
        → Keeps (Inv required) n
        → Keeps (Inv required) (if b then m else n)
    if-Inv b m n h k = Keeps-if (Inv required) b m n h k

  module _ {A B : Type 0} where
    pub bind-Inv :
        (m : M A) (f : A → M B)
        → Keeps (Inv required) m
        → ((a : A) → Keeps (Inv required) (f a))
        → Keeps (Inv required) (m >>= f)
    bind-Inv m f h k = Meets-bind m f h k

  module _ (svc : QuestionService) (now : ℕ) (req : SubmitQuestionRequest) where
    active-Inv : (bs : Option BenchmarkSet) → Keeps (Inv required) (require_active bs)
    unfolding require_active
    active-Inv none = fail-Inv _
    active-Inv (some bs) = if-Inv (is_active bs.status) (pure bs) _ (pure-Inv bs) (fail-Inv _)

    rate-Inv : (limit : ℕ) → Keeps (Inv required) (check_rate now limit req.worker)
    unfolding check_rate get_last_question_time
    rate-Inv limit =
        if-Inv (ltb 0 limit) _ _
          (bind-Inv _ _ (query-Inv _)
            (λ last. if-Inv (too_soon now limit last) _ _ (fail-Inv _) (pure-Inv tt)))
          (pure-Inv tt)

    lengths-Inv : (bs : BenchmarkSet) → Keeps (Inv required) (check_lengths req bs)
    unfolding check_lengths
    lengths-Inv bs =
        if-Inv (ltb bs.question_maxlen (len req.question)) _ _ (fail-Inv _)
          (if-Inv (ltb bs.answer_maxlen (len req.answer)) _ _ (fail-Inv _) (pure-Inv tt))

    similar-Inv :
        (limit : ℕ) (sig : Signature) (hashes : List (List ℕ))
        → Keeps (Inv required) (check_similar limit sig hashes)
    unfolding check_similar
    similar-Inv limit sig [] = pure-Inv tt
    similar-Inv limit sig (h ∷ hashes) =
        if-Inv (jaccard_reaches limit sig (from_bytes h)) _ _ (fail-Inv _)
          (similar-Inv limit sig hashes)

    store_question-Inv : Keeps (Inv required) (store_question now req)
    unfolding store_question create_question increment_bs_total_questions insert_question
    store_question-Inv = Keeps-tx _ (
        bind-Inv _ _ (other-Inv _ (λ d. inserted d))
          (λ q. bind-Inv _ _ (other-Inv _ (λ d. refl)) (λ _. pure-Inv q.question_id)))
      where
        inserted :
            (d : Db)
            → (insert_question req.bs_id req.worker req.question req.answer
                (to_bytes (signature_of req))
                now
                d).1.assignments
              ≡ d.assignments
        inserted d = ground arith

    pub submit_question-Inv : Keeps (Inv required) (submit_question svc now req)
    unfolding submit_question get_benchmark_set list_all_question_minhashes
    submit_question-Inv = bind-Inv _ _ (query-Inv _) (λ found.
        bind-Inv _ _ (active-Inv found) (λ bs. bind-Inv _ _ (rate-Inv (cfg svc).rate_limit) (λ _.
          bind-Inv _ _ (lengths-Inv bs) (λ _. bind-Inv _ _ (query-Inv _) (λ hashes.
            bind-Inv _ _ (similar-Inv (cfg svc).similarity_max_jaccard (signature_of req) hashes)
              (λ _. store_question-Inv))))))

  pub create_worker-Inv :
      (address : String) (now : ℕ) → Keeps (Inv required) (create_worker address now)
  unfolding create_worker insert_worker get_worker
  create_worker-Inv address now = bind-Inv _ _ (other-Inv _ (λ d. ground arith)) found
    where
      found : (created : Option Worker) → Keeps (Inv required) (created_or_found address created)
      found none = query-Inv _
      found (some w) = pure-Inv (some w)
