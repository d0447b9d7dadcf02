-- ===== src/Model.antt =====
-- internal/model/model.go and internal/service/errors.go. Times are nanoseconds. A share and a pass
-- rate are in ten-thousandths, as the NUMERIC(5,4) columns of migrations/001_init.sql keep them;
-- identifiers, scores and lengths are natural numbers.
use subnet_benchmark.Prelude.{
  ℕ, ◌+◌, ◌*◌, ◌/◌, Bool, true, false, List, Option, none, some, String, ltb,
}

pub data QuestionStatus : Type 0 where
  submitted scored : QuestionStatus

pub data AssignmentStatus : Type 0 where
  claimed replied scored timed_out : AssignmentStatus

pub data SetStatus : Type 0 where
  active inactive : SetStatus

pub record Worker : Type 0 where
  pub address : String
  pub suspended_until : Option ℕ
  pub epoch_violations : ℕ
  pub last_poll_at : Option ℕ
  pub created_at : ℕ

-- IsSuspended, at the time `now`.
unfoldable pub is_suspended : ℕ → Worker → Bool
is_suspended now w = elim w.suspended_until [ none ↦ false | some until ↦ ltb now until ]

pub record BenchmarkSet : Type 0 where
  pub set_id : String
  pub description : String
  pub question_requirements : String
  pub answer_requirements : String
  pub question_maxlen : ℕ
  pub answer_maxlen : ℕ
  pub answer_check_method : String
  pub status : SetStatus
  pub total_questions : ℕ
  pub qualified_questions : ℕ
  pub created_at : ℕ

pub record Question : Type 0 where
  pub question_id : ℕ
  pub bs_id : String
  pub questioner : String
  pub question : String
  pub answer : String
  pub status : QuestionStatus
  pub share : ℕ
  pub score : ℕ
  pub pass_rate : ℕ
  pub benchmark : Bool
  pub minhash : Option (List ℕ)
  pub created_at : ℕ
  pub scored_at : Option ℕ

pub record Assignment : Type 0 where
  pub assignment_id : ℕ
  pub question_id : ℕ
  pub worker : String
  pub status : AssignmentStatus
  pub reply_ddl : ℕ
  pub reply_valid : Option Bool
  pub reply_answer : Option String
  pub replied_at : Option ℕ
  pub share : ℕ
  pub score : ℕ
  pub created_at : ℕ

abbrev pub is_submitted : QuestionStatus → Bool
is_submitted QuestionStatus.submitted = true
is_submitted QuestionStatus.scored = false

abbrev pub is_claimed : AssignmentStatus → Bool
is_claimed AssignmentStatus.claimed = true
is_claimed _ = false

abbrev pub is_replied : AssignmentStatus → Bool
is_replied AssignmentStatus.replied = true
is_replied _ = false

abbrev pub is_timed_out : AssignmentStatus → Bool
is_timed_out AssignmentStatus.timed_out = true
is_timed_out _ = false

-- status IN ('claimed', 'replied')
abbrev pub is_open : AssignmentStatus → Bool
is_open AssignmentStatus.claimed = true
is_open AssignmentStatus.replied = true
is_open _ = false

-- status IN ('claimed', 'replied', 'scored')
abbrev pub is_kept : AssignmentStatus → Bool
is_kept AssignmentStatus.timed_out = false
is_kept _ = true

abbrev pub is_active : SetStatus → Bool
is_active SetStatus.active = true
is_active SetStatus.inactive = false

-- A share before it is stored, as a fraction.
pub record Fraction : Type 0 where
  pub num : ℕ
  pub den : ℕ

-- The nearest ten-thousandth, halves up, as a NUMERIC(5,4) column rounds.
unfoldable pub to_numeric : Fraction → ℕ
to_numeric f = (20000 * f.num + f.den) / (2 * f.den)

-- The failures of an operation: of the database, by the user (the code of a UserError), or other.
pub data Error : Type 0 where
  db_error : Error
  user_error : String → Error
  internal_error : Error

pub data Result {ℓ} (A : Type ℓ) : Type ℓ where
  ok : A → Result A
  err : Error → Result A

pub record Epoch : Type 0 where
  pub epoch_date : ℕ
  pub total_reward : ℕ
  pub total_scored : ℕ
  pub settled_at : Option ℕ
  pub merkle_root : Option (List ℕ)
  pub published_at : Option ℕ

-- The composite score is in ten-thousandths, as its column keeps it.
pub record WorkerEpochReward : Type 0 where
  pub epoch_date : ℕ
  pub worker_address : String
  pub recipient : Option String
  pub scored_asks : ℕ
  pub scored_answers : ℕ
  pub timed_out_answers : ℕ
  pub ask_score_sum : ℕ
  pub answer_score_sum : ℕ
  pub raw_reward : ℕ
  pub composite_score : ℕ
  pub final_reward : ℕ

-- A row of internal/store/merkle.go; texts of hashes are lists of character codes.
pub record MerkleProofRow : Type 0 where
  pub epoch_date : ℕ
  pub recipient : String
  pub amount : ℕ
  pub leaf_hash : List ℕ
  pub proof : List (List ℕ)
  pub claimed : Bool

-- A row of internal/store/config.go.
pub record ConfigEntry : Type 0 where
  pub key : String
  pub value : String
  pub description : String
  pub updated_at : ℕ
