-- ===== src/System/Settlement.antt =====
-- Settlement: it leaves the assignments alone, and what other epochs have.
use subnet_benchmark.Prelude.{ℕ, ◌≡◌, refl, arith}
use subnet_benchmark.Model.{MerkleProofRow}
use subnet_benchmark.Store.{Db}
use subnet_benchmark.Store.Epochs.{upsert_epoch}
use subnet_benchmark.Store.Proofs.{insert_proof}
use subnet_benchmark.Store.Meets.{Keeps}
use subnet_benchmark.Service.Settlement.Run.{SettlementService, settle}
use subnet_benchmark.Service.Settlement.Whole.{Writes, settle-Keeps}
use subnet_benchmark.System.{Inv}
use subnet_benchmark.System.Operations.{same-Inv}

module _ (required : ℕ) (epoch_date : ℕ) where
  upserted : (total : ℕ) (d : Db) → (upsert_epoch epoch_date total d).assignments ≡ d.assignments
  unfolding upsert_epoch
  upserted total d = ground arith

  with_proof : (p : MerkleProofRow) (d : Db) → (insert_proof p d).1.assignments ≡ d.assignments
  unfolding insert_proof
  with_proof p d = ground arith

  Writes-Inv : Writes (Inv required) epoch_date
  Writes-Inv = record {
    free = record {
      questions = λ qs d inv. same-Inv required d _ refl inv;
      sets = λ bs d inv. same-Inv required d _ refl inv;
      workers = λ ws d inv. same-Inv required d _ refl inv;
    };
    epoch_reset = λ total d inv. same-Inv required d _ (upserted total d) inv;
    epoch_changed = λ change same d inv. same-Inv required d _ refl inv;
    proofs_deleted = λ d inv. same-Inv required d _ refl inv;
    rewards_deleted = λ d inv. same-Inv required d _ refl inv;
    reward_added = λ r d dated inv. same-Inv required d _ refl inv;
    recipient_set = λ address recipient d inv. same-Inv required d _ refl inv;
    proof_added = λ p d dated inv. same-Inv required d _ (with_proof p d) inv;
  }

  pub settle-Inv :
      (svc : SettlementService) (now : ℕ) → Keeps (Inv required) (settle svc now epoch_date)
  settle-Inv svc now = settle-Keeps (Inv required) epoch_date Writes-Inv svc now
