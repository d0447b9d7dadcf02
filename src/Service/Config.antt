-- ===== src/Service/Config.antt =====
-- The configuration that the services read: config.go (the fields and their snapshots), and the
-- fallbacks of question.go, poll.go and scoring.go for a service without a runtime configuration.
use subnet_benchmark.Model.{Fraction}
use subnet_benchmark.Prelude.{Bool, ℕ, ◌*◌, Option, none, some, String}

abbrev pub second : ℕ
second = 1000000000

abbrev pub minute : ℕ
minute = 60 * second

pub record QuestionConfig : Type 0 where
  pub required_answers : ℕ
  pub rate_limit : ℕ
  pub reply_timeout : ℕ
  pub similarity_min_score : ℕ
  -- In ten-thousandths.
  pub similarity_max_jaccard : ℕ

abbrev pub default_question_config : QuestionConfig
default_question_config = record {
  required_answers = 5;
  rate_limit = 1 * minute;
  reply_timeout = 3 * minute;
  similarity_min_score = 2;
  similarity_max_jaccard = 8500;
}

pub record RuntimeConfig : Type 0 where
  pub required_answers : ℕ
  pub reply_timeout : ℕ
  pub rate_limit : ℕ
  pub similarity_max : ℕ
  pub similarity_min_score : ℕ
  pub answer_prompt : String
  pub suspension_threshold : ℕ
  pub base_suspension_minutes : ℕ
  pub total_reward : ℕ
  pub min_tasks : ℕ
  pub benchmark_min_score : Fraction
  pub timestamp_max_diff : ℕ
  pub testnet_mode : Bool
  pub root_net_api_url : String
  pub chain_rpc_url : String
  pub contract_address : String
  pub owner_private_key : String
  pub chain_id : ℕ

-- RuntimeConfig.QuestionConfig
unfoldable pub question_snapshot : RuntimeConfig → QuestionConfig
question_snapshot c = record {
  required_answers = c.required_answers;
  rate_limit = c.rate_limit;
  reply_timeout = c.reply_timeout;
  similarity_min_score = c.similarity_min_score;
  similarity_max_jaccard = c.similarity_max;
}

-- QuestionService.cfg
unfoldable pub question_config : Option RuntimeConfig → QuestionConfig → QuestionConfig
unfolding question_snapshot
question_config none config = config
question_config (some rt) config = question_snapshot rt

-- PollService.requiredAnswers and TimerManager's choice of the number
unfoldable pub required_answers : Option RuntimeConfig → ℕ → ℕ
unfolding question_snapshot
required_answers none required = required
required_answers (some rt) required = (question_snapshot rt).required_answers

-- PollService.replyTimeout
unfoldable pub reply_timeout : Option RuntimeConfig → ℕ → ℕ
reply_timeout none timeout = timeout
reply_timeout (some rt) timeout = rt.reply_timeout

-- PollService.answerPrompt
unfoldable pub answer_prompt : Option RuntimeConfig → String → String
answer_prompt none prompt = prompt
answer_prompt (some rt) prompt = rt.answer_prompt

-- ScoringService.suspensionThreshold
unfoldable pub suspension_threshold : Option RuntimeConfig → ℕ
suspension_threshold none = 0
suspension_threshold (some rt) = rt.suspension_threshold

-- ScoringService.baseSuspMinutes
unfoldable pub base_susp_minutes : Option RuntimeConfig → ℕ → ℕ
base_susp_minutes none minutes = minutes
base_susp_minutes (some rt) minutes = rt.base_suspension_minutes
