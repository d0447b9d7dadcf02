-- ===== src/Handler.antt =====
-- internal/handler: what the handlers answer. JSON texts, and the date in a path, come decoded: none
-- where they do not decode. Of an error response the status is kept.
pub mod Claims
pub mod Claimable
pub mod Submissions
pub mod Responses
pub mod Outcomes
use subnet_benchmark.Prelude.{ℕ, Option, none, some}
use subnet_benchmark.Model.{Error, user_error, Result, ok, err}
use subnet_benchmark.Store.{World, M}

-- writeJSON and writeError
pub data Http (A : Type 0) : Type 0 where
  written : ℕ → A → Http A
  error_status : ℕ → Http A
