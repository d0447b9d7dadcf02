-- ===== src/System/Routes.antt =====
-- registerRoutes of cmd/benchmarkd/main.go: the middleware before the handlers of the workers. The
-- JSON decoder is a parameter.
use subnet_benchmark.Prelude.{ℕ, Bool, true, false, List, Option, none, some, String, if◌then◌else◌}
use subnet_benchmark.Model.{Assignment, Result, ok}
use subnet_benchmark.Store.{M, ◌>>=◌, pure}
use subnet_benchmark.Service.Config.{RuntimeConfig}
use subnet_benchmark.Service.Rootnet.{Response, AddressCheck, is_registered}
use subnet_benchmark.Service.Questions.{QuestionService}
use subnet_benchmark.Service.Polling.{PollService, AssignmentView}
use subnet_benchmark.Auth.{Crypto}
use subnet_benchmark.Auth.Worker.{Request, WorkerAuthConfig, Reply, refused, passed, worker_auth}
use subnet_benchmark.Handler.{Http, error_status}
use subnet_benchmark.Handler.Submissions.{
  QuestionBody, AnswerBody, handle_submit_question, handle_submit_answer, handle_poll,
}

pub record Router : Type 0 where
  pub crypto : Crypto
  pub rt_config : RuntimeConfig
  pub address_check : String → Result (Response AddressCheck)
  pub decode_question : List ℕ → Option QuestionBody
  pub decode_answer : List ℕ → Option AnswerBody

-- On the testnet everyone may register.
abbrev pub register_check : Router → String → Result Bool
register_check router address =
    if router.rt_config.testnet_mode then ok true else is_registered (router.address_check address)

abbrev pub auth : Bool → Router → WorkerAuthConfig
auth check_suspension router = record {
  crypto = router.crypto;
  timestamp_max_diff = 0;
  check_suspension = check_suspension;
  signature_only = false;
  register_check = some (register_check router);
  rt_config = some router.rt_config;
}

abbrev pub full_auth : Router → WorkerAuthConfig
full_auth = auth true

abbrev pub light_auth : Router → WorkerAuthConfig
light_auth = auth false

abbrev pub enter : {A : Type 0} → (String → M (Http A)) → Reply → M (Http A)
enter handler (refused status) = pure (error_status status)
enter handler (passed worker) = handler worker

abbrev pub decoded : {A : Type 0} → (List ℕ → Option A) → Option (List ℕ) → Option A
decoded decode none = none
decoded decode (some text) = decode text

-- POST /api/v1/questions
unfoldable pub post_question : Router → QuestionService → ℕ → Request → M (Http ℕ)
unfolding worker_auth handle_submit_question
post_question router svc now r = do
  reply ← worker_auth (full_auth router) now r
  enter (λ worker. handle_submit_question svc now worker (decoded router.decode_question r.body))
      reply

-- GET /api/v1/poll
unfoldable pub get_poll : Router → PollService → ℕ → ℕ → Request → M (Http (Option AssignmentView))
unfolding worker_auth handle_poll
get_poll router svc now random r = do
  reply ← worker_auth (full_auth router) now r
  enter (λ worker. handle_poll svc now random worker) reply

-- POST /api/v1/answers
unfoldable pub post_answer :
    Router → Option (Assignment → M (Unit {0})) → ℕ → ℕ → Request → M (Http (Unit {0}))
unfolding worker_auth handle_submit_answer
post_answer router on_submitted now row r = do
  reply ← worker_auth (light_auth router) now r
  enter
      (λ worker.
        handle_submit_answer on_submitted now row worker (decoded router.decode_answer r.body))
      reply
