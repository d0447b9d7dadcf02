-- ===== src/Service/Questions.antt =====
-- internal/service/question.go: the submission of a question.
pub mod Contract
pub mod Checks
use Prim.Native.Char.{code}
use Prim.Native.String.{len}
use Prim.Native.String
use subnet_benchmark.Prelude.{
  ℕ, ◌-◌, Bool, true, false, List, [], ◌∷◌, Option, none, some, String, ltb, if◌then◌else◌,
}
use subnet_benchmark.Model.{BenchmarkSet, Question, is_active, user_error, Result, ok, err}
use subnet_benchmark.Minhash.{Signature, generate, from_bytes, to_bytes, jaccard_reaches}
use subnet_benchmark.Store.{Db, World, M, ◌>>=◌, ◌>>◌, pure, fail, tx}
use subnet_benchmark.Store.Sets.{get_benchmark_set}
use subnet_benchmark.Store.Questions.{
  get_last_question_time, list_all_question_minhashes, create_question,
  increment_bs_total_questions,
}
use subnet_benchmark.Service.Config.{QuestionConfig, RuntimeConfig, question_config}

-- []rune(text)
abbrev pub codes : String → List ℕ
codes String.[] = []
codes (String.◌∷◌ c s) = code c ∷ codes s

pub record SubmitQuestionRequest : Type 0 where
  pub bs_id : String
  pub question : String
  pub answer : String
  pub worker : String

pub record QuestionService : Type 0 where
  pub config : QuestionConfig
  pub rt_config : Option RuntimeConfig

abbrev pub cfg : QuestionService → QuestionConfig
cfg svc = question_config svc.rt_config svc.config

unfoldable pub require_active : Option BenchmarkSet → M BenchmarkSet
require_active none = fail (user_error "invalid_bs")
require_active (some bs) = if is_active bs.status then pure bs else fail (user_error "invalid_bs")

-- time.Since(*lastTime) < cfg.RateLimit
abbrev pub too_soon : ℕ → ℕ → Option ℕ → Bool
too_soon now limit none = false
too_soon now limit (some last) = ltb (now - last) limit

unfoldable pub check_rate : ℕ → ℕ → String → M (Unit {0})
check_rate now limit worker =
    if ltb 0 limit
    then (do
      last ← get_last_question_time worker
      if too_soon now limit last then fail (user_error "rate_limited") else pure tt)
    else pure tt

unfoldable pub check_lengths : SubmitQuestionRequest → BenchmarkSet → M (Unit {0})
check_lengths req bs =
    if ltb bs.question_maxlen (len req.question)
    then fail (user_error "field_too_long")
    else if ltb bs.answer_maxlen (len req.answer)
    then fail (user_error "field_too_long")
    else pure tt

-- The loop over the stored signatures of the set.
unfoldable pub check_similar : ℕ → Signature → List (List ℕ) → M (Unit {0})
check_similar limit sig [] = pure tt
check_similar limit sig (h ∷ hashes) =
    let later = check_similar limit sig hashes in
    if jaccard_reaches limit sig (from_bytes h) then fail (user_error "duplicate") else later

abbrev pub signature_of : SubmitQuestionRequest → Signature
signature_of req = generate (codes req.question)

-- The transaction: the question and the set's counter.
unfoldable pub store_question : ℕ → SubmitQuestionRequest → M ℕ
unfolding create_question increment_bs_total_questions to_bytes generate
store_question now req = tx (do
  q ← create_question req.bs_id req.worker req.question req.answer (to_bytes (signature_of req)) now
  increment_bs_total_questions req.bs_id
  pure q.question_id)

-- SubmitQuestion, with the identifier of the new question.
unfoldable pub submit_question : QuestionService → ℕ → SubmitQuestionRequest → M ℕ
unfolding get_benchmark_set require_active check_rate check_lengths check_similar store_question
submit_question svc now req = do
  found ← get_benchmark_set req.bs_id
  bs ← require_active found
  check_rate now (cfg svc).rate_limit req.worker
  check_lengths req bs
  hashes ← list_all_question_minhashes req.bs_id
  check_similar (cfg svc).similarity_max_jaccard (signature_of req) hashes
  store_question now req
