-- ===== src/Examples/Routes.antt =====
-- cmd/benchmarkd/main.go: a question that is posted.
use subnet_benchmark.Prelude.{◌*◌, ◌≡◌, refl, false, some, none}
use subnet_benchmark.Model.{ok, err, internal_error}
use subnet_benchmark.Minhash.{jaccard_reaches, from_bytes}
use subnet_benchmark.Store.Questions.{get_last_question_time, list_all_question_minhashes}
use subnet_benchmark.Store.{statement, tx}
use subnet_benchmark.Store.Meets.{Ends}
use subnet_benchmark.Service.Config.{RuntimeConfig, question_config, second, minute}
use subnet_benchmark.Handler.{written}
use subnet_benchmark.Handler.Responses.{Replied}
use subnet_benchmark.System.Routes.{Router, post_question}
use subnet_benchmark.System.Middleware.{OnlyWorkers}
use subnet_benchmark.System.Entrance.{Entered, post_question_lem}
use subnet_benchmark.Examples.Tables.{small_db, world_of, questions_service}
use subnet_benchmark.Examples.Requests.{toy_crypto, poll_request}

abbrev settings : RuntimeConfig
settings = record {
  required_answers = 5;
  reply_timeout = 3 * minute;
  rate_limit = minute;
  similarity_max = 9000;
  similarity_min_score = 2;
  answer_prompt = "";
  suspension_threshold = 0;
  base_suspension_minutes = 10;
  total_reward = 1000000;
  min_tasks = 10;
  benchmark_min_score = record { num = 3; den = 5 };
  timestamp_max_diff = 30 * second;
  testnet_mode = false;
  root_net_api_url = "";
  chain_rpc_url = "";
  contract_address = "";
  owner_private_key = "";
  chain_id = 56;
}

-- Every body decodes to the same question; the RootNet does not answer.
abbrev router : Router
router = record {
  crypto = toy_crypto;
  rt_config = settings;
  address_check = λ address. err internal_error;
  decode_question = λ text. some (record { bs_id = "sums"; question = "1 + 2"; answer = "3" });
  decode_answer = λ text. none;
}

post_question_example :
    Ends
      (Replied 201
        (Entered router questions_service (120 * second) poll_request small_db)
        (OnlyWorkers small_db))
      (λ _. Unit {0})
      (post_question router questions_service (120 * second) poll_request (world_of small_db))
post_question_example =
    post_question_lem router questions_service (120 * second) poll_request (world_of small_db)

-- The signer has a row, and the question is stored under the next identifier.
posted :
    (post_question router questions_service (120 * second) poll_request (world_of small_db)).0
    ≡ ok (written 201 2)
unfolding post_question statement tx question_config get_last_question_time
    list_all_question_minhashes jaccard_reaches from_bytes
posted = refl
