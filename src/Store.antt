-- ===== src/Store.antt =====
-- internal/store/store.go: the tables of migrations/001_init.sql as lists of rows, and a service's
-- calls on them. Each statement runs whole or fails and changes nothing; whether it fails is read
-- off the list `faults`, one entry for each statement, and beyond the list none fails. That
-- PostgreSQL fails what follows a failed statement in a transaction is left to that list. Beside the
-- tables stand the timers and the goroutines of the process.
pub mod Rows
pub mod Counting
pub mod Assignments
pub mod Questions
pub mod Workers
pub mod Sets
pub mod Fields
pub mod Updates
pub mod Epochs
pub mod Rewards
pub mod Proofs
pub mod Settings
pub mod Meets
pub mod Keeps
pub mod Batches
pub mod Reads
use subnet_benchmark.Prelude.{ℕ, Bool, true, false, List, [], ◌∷◌, String}
use subnet_benchmark.Model.{
  Worker, BenchmarkSet, Question, Assignment, Epoch, WorkerEpochReward, MerkleProofRow, ConfigEntry,
  Error, db_error, Result, ok, err,
}

pub record Db : Type 0 where
  pub workers : List Worker
  pub benchmark_sets : List BenchmarkSet
  pub questions : List Question
  pub assignments : List Assignment
  pub epochs : List Epoch
  pub worker_epoch_rewards : List WorkerEpochReward
  pub merkle_proofs : List MerkleProofRow
  pub system_config : List ConfigEntry
  pub next_question_id : ℕ
  pub next_assignment_id : ℕ

-- A pending time.AfterFunc with its assignment, and whether the timer manager's map holds it: one
-- whose entry was replaced or deleted still fires.
pub record Timer : Type 0 where
  pub assignment_id : ℕ
  pub question_id : ℕ
  pub worker : String
  pub fires_at : ℕ
  pub in_map : Bool

-- A goroutine that was started and has not run.
pub data Task : Type 0 where
  timeout_task : ℕ → ℕ → String → Task
  score_task : ℕ → Task

pub record World : Type 0 where
  pub db : Db
  pub faults : List Bool
  pub timers : List Timer
  pub tasks : List Task

abbrev pub M : Type 0 → Type 0
M A = World → Result A × World

abbrev pub pure : {A : Type 0} → A → M A
pure a w = (ok a, w)

abbrev pub fail : {A : Type 0} → Error → M A
fail e w = (err e, w)

abbrev pub continue : {A B : Type 0} → (A → M B) → Result A × World → Result B × World
continue f (ok a, w) = f a w
continue f (err e, w) = (err e, w)

infixl 5 ◌>>=◌ ◌>>◌
abbrev pub ◌>>=◌ : {A B : Type 0} → M A → (A → M B) → M B
◌>>=◌ m f w = continue f (m w)

abbrev pub ◌>>◌ : {B : Type 0} → M (Unit {0}) → M B → M B
m >> k = m >>= λ _. k

abbrev pub run_statement :
    {A : Type 0} → List Bool → (Db → Result A × Db) → World → Result A × World
run_statement [] f w = ((f w.db).0, record w { db = (f w.db).1 })
run_statement (true ∷ rest) f w = (err db_error, record w { faults = rest })
run_statement (false ∷ rest) f w = ((f w.db).0, record w { db = (f w.db).1; faults = rest })

-- One SQL statement.
unfoldable pub statement : {A : Type 0} → (Db → Result A × Db) → M A
statement f w = run_statement w.faults f w

abbrev pub query : {A : Type 0} → (Db → A) → M A
query f = statement (λ d. (ok (f d), d))

abbrev pub exec : (Db → Db) → M (Unit {0})
exec f = statement (λ d. (ok tt, f d))

-- An error that the caller drops.
unfoldable pub ignore : {A : Type 0} → M A → M (Unit {0})
ignore m w = (ok tt, (m w).1)

abbrev pub commit : {A : Type 0} → Db → A → Result (Unit {0}) × World → Result A × World
commit before a (ok _, w) = (ok a, w)
commit before a (err e, w) = (err e, record w { db = before })

abbrev pub finish : {A : Type 0} → Db → Result A × World → Result A × World
finish before (ok a, w) = commit before a (exec (λ d. d) w)
finish before (err e, w) = (err e, record w { db = before })

abbrev pub after_begin : {A : Type 0} → M A → Result (Unit {0}) × World → Result A × World
after_begin m (ok _, w) = finish w.db (m w)
after_begin m (err e, w) = (err e, w)

-- Tx: what fails, its commit included, is rolled back. The next identifiers of the tables are rolled
-- back too; the sequences of PostgreSQL go on, and leave a gap.
unfoldable pub tx : {A : Type 0} → M A → M A
unfolding statement
tx m w = after_begin m (exec (λ d. d) w)
