-- ===== src/Store/Proofs.antt =====
-- internal/store/merkle.go.
use subnet_benchmark.Prelude.{
  ℕ, Bool, false, ◌&&◌, not, List, [], ◌∷◌, ◌++◌, Option, none, some, String, str_eq, leb, ◌==◌,
  if◌then◌else◌,
}
use subnet_benchmark.Prelude.Sort.{sort_by}
use subnet_benchmark.Model.{Epoch, MerkleProofRow, db_error, Result, ok, err}
use subnet_benchmark.Store.{Db, M, statement, query, exec}
use subnet_benchmark.Store.Rows.{select, update_rows, find_row}
use subnet_benchmark.Store.Assignments.{is_some}
use subnet_benchmark.Store.Epochs.{of_date}

abbrev pub proof_in_epoch : ℕ → MerkleProofRow → Bool
proof_in_epoch epoch_date p = p.epoch_date == epoch_date

abbrev pub proof_for : ℕ → String → MerkleProofRow → Bool
proof_for epoch_date recipient p = proof_in_epoch epoch_date p && str_eq p.recipient recipient

-- DeleteEpochMerkleProofs of epoch.go
unfoldable pub delete_epoch_merkle_proofs : ℕ → M (Unit {0})
unfolding select
delete_epoch_merkle_proofs epoch_date = exec (λ d. record d {
  merkle_proofs = select (λ p. not (proof_in_epoch epoch_date p)) d.merkle_proofs;
})

unfoldable pub set_epoch_merkle_root : ℕ → List ℕ → M (Unit {0})
unfolding update_rows
set_epoch_merkle_root epoch_date root = exec (λ d. record d {
  epochs = update_rows (of_date epoch_date) (λ e. record e { merkle_root = some root }) d.epochs;
})

unfoldable pub set_epoch_published : ℕ → ℕ → M (Unit {0})
unfolding update_rows
set_epoch_published now epoch_date = exec (λ d. record d {
  epochs = update_rows (of_date epoch_date) (λ e. record e { published_at = some now }) d.epochs;
})

-- The foreign key and the primary key; a new row is not claimed.
unfoldable pub insert_proof : MerkleProofRow → Db → Result (Unit {0}) × Db
unfolding find_row
insert_proof p d =
    if is_some (find_row (of_date p.epoch_date) d.epochs)
      && not (is_some (find_row (proof_for p.epoch_date p.recipient) d.merkle_proofs))
    then (ok tt, record d { merkle_proofs = d.merkle_proofs ++ record p { claimed = false } ∷ [] })
    else (err db_error, d)

unfoldable pub save_merkle_proof : MerkleProofRow → M (Unit {0})
unfolding insert_proof
save_merkle_proof p = statement (insert_proof p)

unfoldable pub get_merkle_proof : ℕ → String → M (Option MerkleProofRow)
unfolding find_row
get_merkle_proof epoch_date recipient =
    query (λ d. find_row (proof_for epoch_date recipient) d.merkle_proofs)

-- ORDER BY epoch_date DESC
unfoldable pub list_merkle_proofs_by_recipient : String → M (List MerkleProofRow)
unfolding select
list_merkle_proofs_by_recipient recipient = query (λ d.
    sort_by (λ p r. leb r.epoch_date p.epoch_date)
      (select (λ p. str_eq p.recipient recipient) d.merkle_proofs))

abbrev pub root_or_empty : Option (List ℕ) → List ℕ
root_or_empty none = []
root_or_empty (some root) = root

abbrev pub root_of : Option Epoch → List ℕ
root_of none = []
root_of (some e) = root_or_empty e.merkle_root

-- The empty text stands for no epoch and for no root.
unfoldable pub get_epoch_merkle_root : ℕ → M (List ℕ)
unfolding find_row
get_epoch_merkle_root epoch_date = query (λ d. root_of (find_row (of_date epoch_date) d.epochs))
