-- ===== src/Service/Questions/Contract.antt =====
-- SubmitQuestion of internal/service/question.go: the tables after it, and what it must have checked.
use subnet_benchmark.Prelude.{
  ℕ, suc, ◌≤◌, ◌≡◌, Bool, true, false, List, [], ◌∷◌, ◌++◌, Option, some, String, ◌⊎◌,
}
use Prim.Native.String.{len}
use mathlib.Core.Option
use subnet_benchmark.Model.{BenchmarkSet, Question, is_active}
use subnet_benchmark.Minhash.{Signature, from_bytes, to_bytes, jaccard_reaches}
use subnet_benchmark.Store.{Db}
use subnet_benchmark.Store.Rows.{find_row, count_rows, select, update_rows, latest}
use subnet_benchmark.Store.Questions.{
  set_has_id, asked_by, of_set, minhashes, new_question, count_one_more,
}
use subnet_benchmark.Service.Questions.{
  SubmitQuestionRequest, QuestionService, cfg, signature_of, too_soon,
}

-- The time of the worker's last question.
unfoldable pub last_time : Db → String → Option ℕ
unfolding select latest
last_time d worker =
    Option.map (λ (q : Question). q.created_at)
      (latest (λ (q : Question). q.created_at) (select (asked_by worker) d.questions))

-- The signatures stored in a set.
unfoldable pub stored_hashes : Db → String → List (List ℕ)
unfolding select
stored_hashes d bs_id = minhashes (select (of_set bs_id) d.questions)

-- A stored signature that is too similar.
abbrev pub is_like : ℕ → Signature → List ℕ → Bool
is_like limit sig h = jaccard_reaches limit sig (from_bytes h)

-- The tables with the question of a request added and its set's counter raised.
unfoldable pub with_question : ℕ → SubmitQuestionRequest → Db → Db
unfolding update_rows to_bytes
with_question now req d = record d {
  questions =
      d.questions
      ++ new_question d.next_question_id req.bs_id req.worker req.question req.answer
          (to_bytes (signature_of req)) now
        ∷ [];
  next_question_id = suc d.next_question_id;
  benchmark_sets = update_rows (set_has_id req.bs_id) count_one_more d.benchmark_sets;
}

-- What an accepted request has passed, in the tables `before`.
pub record Accepted (svc : QuestionService) (now : ℕ) (req : SubmitQuestionRequest) (before : Db)
    : Type 0 where
  pub set : BenchmarkSet
  pub found : find_row (set_has_id req.bs_id) before.benchmark_sets ≡ some set
  pub active : is_active set.status ≡ true
  pub in_time :
      ((cfg svc).rate_limit ≡ 0)
      ⊎ (too_soon now (cfg svc).rate_limit (last_time before req.worker) ≡ false)
  pub short_question : len req.question ≤ set.question_maxlen
  pub short_answer : len req.answer ≤ set.answer_maxlen
  pub unlike :
      count_rows
        (is_like (cfg svc).similarity_max_jaccard (signature_of req))
        (stored_hashes before req.bs_id)
      ≡ 0
