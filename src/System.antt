-- ===== src/System.antt =====
-- The service as a whole: what every operation of internal/service keeps true of the assignments
-- table, and the runs of the process that cmd/benchmarkd/main.go puts together.
pub mod Statements
pub mod Operations
pub mod Polling
pub mod Scoring
pub mod Timers
pub mod Settlement
pub mod Schedule
pub mod Routes
pub mod Middleware
pub mod Entrance
pub mod Run
use subnet_benchmark.Prelude.{ℕ, ◌≤◌, List, String}
use subnet_benchmark.Model.{Assignment}
use subnet_benchmark.Store.{Db}
use subnet_benchmark.Store.Rows.{count_rows}
use subnet_benchmark.Store.Assignments.{open_for, claimed_by}

-- At most `required` assignments of a question are claimed or replied, and a worker has at most one
-- claimed assignment.
pub record Inv (required : ℕ) (d : Db) : Type 0 where
  pub room : (q : ℕ) → count_rows (open_for q) d.assignments ≤ required
  pub single : (worker : String) → count_rows (claimed_by worker) d.assignments ≤ 1
