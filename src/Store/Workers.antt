-- ===== src/Store/Workers.antt =====
-- internal/store/worker.go.
use subnet_benchmark.Prelude.{
  ℕ, Bool, [], ◌∷◌, ◌++◌, Option, none, some, String, str_eq, if◌then◌else◌,
}
use subnet_benchmark.Model.{Worker, ok}
use subnet_benchmark.Store.{Db, M, ◌>>=◌, pure, statement, query, exec}
use subnet_benchmark.Store.Rows.{find_row, update_rows}
use subnet_benchmark.Store.Assignments.{is_some}

abbrev pub has_address : String → Worker → Bool
has_address address w = str_eq w.address address

abbrev pub new_worker : String → ℕ → Worker
new_worker address now = record {
  address = address;
  suspended_until = none;
  epoch_violations = 0;
  last_poll_at = none;
  created_at = now;
}

-- INSERT … ON CONFLICT DO NOTHING RETURNING: no row comes back on a conflict.
unfoldable pub insert_worker : String → ℕ → Db → Option Worker × Db
unfolding find_row
insert_worker address now d =
    if is_some (find_row (has_address address) d.workers) then (none, d) else (
      some (new_worker address now),
      record d { workers = d.workers ++ new_worker address now ∷ [] },
    )

unfoldable pub get_worker : String → M (Option Worker)
unfolding find_row
get_worker address = query (λ d. find_row (has_address address) d.workers)

abbrev pub created_or_found : String → Option Worker → M (Option Worker)
created_or_found address none = get_worker address
created_or_found address (some w) = pure (some w)

unfoldable pub create_worker : String → ℕ → M (Option Worker)
unfolding insert_worker get_worker
create_worker address now = do
  created ← statement (λ d. (ok (insert_worker address now d).0, (insert_worker address now d).1))
  created_or_found address created

abbrev change_worker : String → (Worker → Worker) → Db → Db
change_worker address change d = record d {
  workers = update_rows (has_address address) change d.workers;
}

unfoldable pub update_worker_last_poll_at : String → ℕ → M (Unit {0})
unfolding update_rows
update_worker_last_poll_at address t =
    exec (change_worker address (λ w. record w { last_poll_at = some t }))

unfoldable pub suspend_worker : String → ℕ → ℕ → M (Unit {0})
unfolding update_rows
suspend_worker address until violations = exec (
    change_worker address
      (λ w. record w { suspended_until = some until; epoch_violations = violations }))

unfoldable pub unsuspend_worker : String → M (Unit {0})
unfolding update_rows
unsuspend_worker address = exec (change_worker address (λ w. record w { suspended_until = none }))
