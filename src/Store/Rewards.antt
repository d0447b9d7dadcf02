-- ===== src/Store/Rewards.antt =====
-- internal/store/epoch.go: the rewards of the workers in an epoch.
use subnet_benchmark.Prelude.{
  ℕ, zero, suc, Bool, false, ◌&&◌, not, List, [], ◌∷◌, ◌++◌, take, drop, length, Option, none, some,
  String, str_eq, leb, ◌==◌, if◌then◌else◌,
}
use subnet_benchmark.Prelude.Sort.{sort_by}
use subnet_benchmark.Model.{WorkerEpochReward, db_error, Result, ok, err}
use subnet_benchmark.Store.{Db, M, ◌>>◌, pure, statement, query, exec}
use subnet_benchmark.Store.Rows.{select, update_rows, find_row}
use subnet_benchmark.Store.Assignments.{is_some}
use subnet_benchmark.Store.Workers.{has_address}
use subnet_benchmark.Store.Epochs.{of_date}

abbrev pub in_epoch : ℕ → WorkerEpochReward → Bool
in_epoch epoch_date r = r.epoch_date == epoch_date

abbrev pub has_worker : ℕ → String → WorkerEpochReward → Bool
has_worker epoch_date address r = in_epoch epoch_date r && str_eq r.worker_address address

unfoldable pub delete_epoch_rewards : ℕ → M (Unit {0})
unfolding select
delete_epoch_rewards epoch_date = exec (λ d. record d {
  worker_epoch_rewards = select (λ r. not (in_epoch epoch_date r)) d.worker_epoch_rewards;
})

-- The foreign keys and the primary key of a row.
unfoldable pub may_insert_reward : WorkerEpochReward → Db → Bool
unfolding find_row
may_insert_reward r d =
    is_some (find_row (of_date r.epoch_date) d.epochs)
    && is_some (find_row (has_address r.worker_address) d.workers)
    && not (is_some (find_row (has_worker r.epoch_date r.worker_address) d.worker_epoch_rewards))

abbrev pub add_reward : WorkerEpochReward → Db → Db
add_reward r d = record d { worker_epoch_rewards = d.worker_epoch_rewards ++ r ∷ [] }

unfoldable pub insert_each : List WorkerEpochReward → Db → Option Db
unfolding may_insert_reward
insert_each [] d = some d
insert_each (r ∷ rewards) d =
    let rest = insert_each rewards (add_reward r d) in if may_insert_reward r d then rest else none

abbrev pub inserted_or_not : Db → Option Db → Result (Unit {0}) × Db
inserted_or_not d none = (err db_error, d)
inserted_or_not d (some e) = (ok tt, e)

-- One INSERT: all rows or none.
unfoldable pub insert_rewards : List WorkerEpochReward → Db → Result (Unit {0}) × Db
unfolding insert_each
insert_rewards rewards d = inserted_or_not d (insert_each rewards d)

unfoldable pub save_worker_epoch_reward : WorkerEpochReward → M (Unit {0})
unfolding insert_rewards
save_worker_epoch_reward r = statement (insert_rewards (r ∷ []))

-- Batches of 100; the first argument is a bound on their number.
unfoldable pub save_batches : ℕ → List WorkerEpochReward → M (Unit {0})
unfolding insert_rewards
save_batches rounds [] = pure tt
save_batches zero (r ∷ rewards) = pure tt
save_batches (suc rounds) (r ∷ rewards) =
    statement (insert_rewards (take 100 (r ∷ rewards)))
    >> save_batches rounds (drop 100 (r ∷ rewards))

unfoldable pub batch_save_worker_epoch_rewards : List WorkerEpochReward → M (Unit {0})
unfolding save_batches
batch_save_worker_epoch_rewards rewards = save_batches (length rewards) rewards

-- ORDER BY epoch_date DESC
unfoldable pub list_worker_epoch_rewards : String → M (List WorkerEpochReward)
unfolding select
list_worker_epoch_rewards address = query (λ d.
    sort_by (λ r s. leb s.epoch_date r.epoch_date)
      (select (λ r. str_eq r.worker_address address) d.worker_epoch_rewards))

abbrev pub has_recipient : String → Option String → Bool
has_recipient recipient none = false
has_recipient recipient (some r) = str_eq r recipient

-- ORDER BY epoch_date DESC, worker_address; `text_le` is the collation of the database.
unfoldable pub list_recipient_epoch_rewards :
    (String → String → Bool) → String → M (List WorkerEpochReward)
unfolding select
list_recipient_epoch_rewards text_le recipient = query (λ d.
    sort_by
      (λ r s.
        if r.epoch_date == s.epoch_date
        then text_le r.worker_address s.worker_address
        else leb s.epoch_date r.epoch_date)
      (select (λ r. has_recipient recipient r.recipient) d.worker_epoch_rewards))

unfoldable pub get_worker_epoch_reward : String → ℕ → M (Option WorkerEpochReward)
unfolding find_row
get_worker_epoch_reward address epoch_date =
    query (λ d. find_row (has_worker epoch_date address) d.worker_epoch_rewards)

unfoldable pub set_worker_epoch_recipient : ℕ → String → String → M (Unit {0})
unfolding update_rows
set_worker_epoch_recipient epoch_date address recipient = exec (λ d. record d {
  worker_epoch_rewards =
      update_rows (has_worker epoch_date address) (λ r. record r { recipient = some recipient })
        d.worker_epoch_rewards;
})
