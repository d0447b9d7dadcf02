-- ===== src/Service/Questions/Checks.antt =====
-- SubmitQuestion of internal/service/question.go, specified by the tables before and after it.
use subnet_benchmark.Prelude.{
  ℕ, suc, ◌+◌, ◌≤◌, ◌≡◌, refl, sym, subst, ◌∙◌, true, false, List, [], ◌∷◌, ◌++◌, Option, none,
  some, ltb, arith, ◌⊎◌, inl, inr, Bool-cases, if◌then◌else◌, ◌&&◌,
}
use Prim.Native.String.{len}
use subnet_benchmark.Model.{BenchmarkSet, Question, is_active}
use subnet_benchmark.Minhash.{Signature, to_bytes}
use subnet_benchmark.Store.{Db, World, pure}
use subnet_benchmark.Store.Rows.{find_row, count_rows}
use subnet_benchmark.Store.Sets.{get_benchmark_set}
use subnet_benchmark.Store.Questions.{
  set_has_id, new_question, insert_question, create_question, increment_bs_total_questions,
  get_last_question_time, list_all_question_minhashes,
}
use subnet_benchmark.Store.Assignments.{is_some}
use subnet_benchmark.Store.Workers.{has_address}
use subnet_benchmark.Store.Reads.{Finds, then_, query-Finds, fail-Meets, pure-Finds, require}
use subnet_benchmark.Store.Meets.{
  Meets, Ends, Outcome, Meets-statement, Meets-pure, Meets-if, Meets-bind, Meets-tx,
}
use subnet_benchmark.Service.Questions.{
  SubmitQuestionRequest, QuestionService, cfg, signature_of, too_soon, require_active, check_rate,
  check_lengths, check_similar, store_question, submit_question,
}
use subnet_benchmark.Service.Questions.Contract.{
  last_time, stored_hashes, is_like, with_question, Accepted,
}

module _ (before : Db) where
  abbrev Same : Db → Type 0
  Same d = d ≡ before

  module _ (svc : QuestionService) (now : ℕ) (req : SubmitQuestionRequest) where
    active-Finds :
        (found : Option BenchmarkSet)
        → Finds before Same
            (require_active found)
            (λ bs. (found ≡ some bs) × (is_active bs.status ≡ true))
    unfolding require_active
    active-Finds none = fail-Meets before Same refl _
    active-Finds (some bs) =
        Meets-if (is_active bs.status) (pure bs) _
          (λ yes. pure-Finds before Same refl bs (refl, yes)) (λ _. fail-Meets before Same refl _)

    rate-Finds :
        (limit : ℕ)
        → Finds before Same
            (check_rate now limit req.worker)
            (λ _. (limit ≡ 0) ⊎ (too_soon now limit (last_time before req.worker) ≡ false))
    unfolding check_rate get_last_question_time last_time
    rate-Finds limit =
        Meets-if (ltb 0 limit) _ _
          (λ _. then_ before Same _ _ (query-Finds before Same refl _) (λ last e.
            require before Same refl (too_soon now limit last) _ (pure tt) (λ later.
              pure-Finds before Same refl tt
                (inr (subst (λ (t : Option ℕ). too_soon now limit t ≡ false) e later)))))
          (λ off. pure-Finds before Same refl tt (inl (ground (arith, off))))

    lengths-Finds :
        (bs : BenchmarkSet)
        → Finds before Same
            (check_lengths req bs)
            (λ _. (len req.question ≤ bs.question_maxlen) × (len req.answer ≤ bs.answer_maxlen))
    unfolding check_lengths
    lengths-Finds bs =
        require before Same refl (ltb bs.question_maxlen (len req.question)) _ _ (λ short.
          require before Same refl (ltb bs.answer_maxlen (len req.answer)) _ _ (λ brief.
            pure-Finds before Same refl tt (ground (arith, short), ground (arith, brief))))

    similar-Finds :
        (limit : ℕ) (sig : Signature) (hashes : List (List ℕ))
        → Finds before Same
            (check_similar limit sig hashes)
            (λ _. count_rows (is_like limit sig) hashes ≡ 0)
    unfolding check_similar count_rows
    similar-Finds limit sig [] = pure-Finds before Same refl tt refl
    similar-Finds limit sig (h ∷ hashes) =
        require before Same refl (is_like limit sig h) _ _
          (λ differs. rw (same_count differs) (similar-Finds limit sig hashes))
      where
        same_count :
            is_like limit sig h ≡ false
            → (if is_like limit sig h then 1 else 0) + count_rows (is_like limit sig) hashes
              ≡ count_rows (is_like limit sig) hashes
        same_count differs = rw differs (omega arith)

    -- The tables after the first statement of the transaction.
    abbrev inserted : Db
    inserted = record before {
      questions =
          before.questions
          ++ new_question before.next_question_id req.bs_id req.worker req.question req.answer
              (to_bytes (signature_of req)) now
            ∷ [];
      next_question_id = suc before.next_question_id;
    }

    insert-Outcome :
        Outcome
          (λ (q : Question) d. (q.question_id ≡ before.next_question_id) × (d ≡ inserted))
          (λ _. Unit {0})
          (insert_question req.bs_id req.worker req.question req.answer
            (to_bytes (signature_of req))
            now
            before)
    unfolding insert_question
    insert-Outcome =
        elim (Bool-cases (
          is_some (find_row (set_has_id req.bs_id) before.benchmark_sets)
          && is_some (find_row (has_address req.worker) before.workers))) [
            | inl known ↦ rw known (refl, refl)
            | inr unknown ↦ rw unknown tt
          ]

    insert-Meets :
        Meets Same
          (create_question req.bs_id req.worker req.question req.answer
            (to_bytes (signature_of req))
            now)
          (λ q d. (q.question_id ≡ before.next_question_id) × (d ≡ inserted))
          (λ _. Unit {0})
    unfolding create_question
    insert-Meets =
        Meets-statement _
          (λ d same.
            subst
              (λ (e : Db).
                Outcome
                  (λ (q : Question) c. (q.question_id ≡ before.next_question_id) × (c ≡ inserted))
                  (λ _. Unit {0})
                  (insert_question req.bs_id req.worker req.question req.answer
                    (to_bytes (signature_of req)) now e))
              (sym same) insert-Outcome)
          (λ d same. tt)

    counter-Meets :
        (q : Question)
        → Meets
            (λ d. (q.question_id ≡ before.next_question_id) × (d ≡ inserted))
            (increment_bs_total_questions req.bs_id)
            (λ _ d. (q.question_id ≡ before.next_question_id) × (d ≡ with_question now req before))
            (λ _. Unit {0})
    unfolding increment_bs_total_questions with_question
    counter-Meets q = Meets-statement _ (λ d p. (p.0, rw p.1 refl)) (λ d p. tt)

    store-Meets :
        {F : Type 0}
        → F
        → Meets Same
            (store_question now req)
            (λ id d. (id ≡ before.next_question_id) × (d ≡ with_question now req before) × F)
            Same
    unfolding store_question
    store-Meets fact =
        Meets-tx _
          (Meets-bind _ _ insert-Meets (λ q.
            Meets-bind _ _ (counter-Meets q)
              (λ _. Meets-pure q.question_id (λ d p. (p.0, p.1, fact)))))
          (λ d same. same)

    -- The whole of SubmitQuestion, from the tables `before`.
    submit_question-Meets :
        Meets Same
          (submit_question svc now req)
          (λ id d.
            (id ≡ before.next_question_id)
            × (d ≡ with_question now req before)
            × Accepted svc now req before)
          Same
    unfolding submit_question get_benchmark_set list_all_question_minhashes stored_hashes
    submit_question-Meets = then_ before Same _ _ (query-Finds before Same refl _) (λ found read.
        then_ before Same _ _ (active-Finds found) (λ set usable.
          then_ before Same _ _ (rate-Finds (cfg svc).rate_limit) (λ _ in_time.
            then_ before Same _ _ (lengths-Finds set) (λ _ short.
              then_ before Same _ _ (query-Finds before Same refl _) (λ hashes listed.
                then_ before Same _ _
                  (similar-Finds (cfg svc).similarity_max_jaccard (signature_of req) hashes)
                  (λ _ unlike.
                    let accepted : Accepted svc now req before = record {
                      set = set;
                      found = sym read ∙ usable.0;
                      active = usable.1;
                      in_time = in_time;
                      short_question = short.0;
                      short_answer = short.1;
                      unlike =
                          subst
                            (λ (hs : List (List ℕ)).
                              count_rows
                                (is_like (cfg svc).similarity_max_jaccard (signature_of req)) hs
                              ≡ 0)
                            listed unlike;
                    } in
                    store-Meets accepted))))))

-- A question is accepted only if its set exists and is active, the worker's last question is
-- long enough ago (where a rate limit is set), both texts fit, and no question of the set has a
-- signature that reaches the similarity limit. Then the tables gain exactly this question, under
-- the next identifier, and one more in the set's counter. After an error, of any statement too,
-- the tables are as before.
pub submit_question_lem :
    (svc : QuestionService) (now : ℕ) (req : SubmitQuestionRequest) (w : World)
    → Ends
        (λ id d.
          (id ≡ w.db.next_question_id)
          × (d ≡ with_question now req w.db)
          × Accepted svc now req w.db)
        (λ d. d ≡ w.db)
        (submit_question svc now req w)
submit_question_lem svc now req w = (submit_question-Meets w.db svc now req).at w refl
