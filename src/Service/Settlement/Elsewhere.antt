-- ===== src/Service/Settlement/Elsewhere.antt =====
-- Settle of internal/service/settlement.go: what it leaves as it was.
use subnet_benchmark.Prelude.{
  ℕ, ◌≡◌, refl, ap, ◌∙◌, Bool, true, false, not, ◌&&◌, List, [], ◌∷◌, ◌++◌, String, ◌==◌, ==_iff,
  arith, inl, inr, Bool-cases, some,
}
use subnet_benchmark.Model.{Epoch, WorkerEpochReward, MerkleProofRow}
use subnet_benchmark.Store.{Db, World}
use subnet_benchmark.Store.Rows.{select, update_rows, find_row}
use subnet_benchmark.Store.Assignments.{is_some}
use subnet_benchmark.Store.Epochs.{of_date, new_epoch, reset_epoch, upsert_epoch}
use subnet_benchmark.Store.Rewards.{in_epoch, has_worker}
use subnet_benchmark.Store.Proofs.{proof_in_epoch, proof_for, insert_proof}
use subnet_benchmark.Service.Settlement.Run.{SettlementService, settle}
use subnet_benchmark.Store.Keeps.{Keeps-world}
use subnet_benchmark.Service.Settlement.Whole.{Writes, set_epochs, settle-Keeps}

module _ {A : Type 0} (test : A → Bool) where
  abbrev pub others : List A → List A
  others = select (λ x. not (test x))

  others-select : (xs : List A) → others (others xs) ≡ others xs
  unfolding select
  others-select [] = refl
  others-select (x ∷ xs) = elim (Bool-cases (test x)) [
    | inl it ↦ rw it (others-select xs)
    | inr other ↦ rw (other, other) (ap (◌∷◌ x) (others-select xs))
  ]

  others-append : (xs : List A) (x : A) → test x ≡ true → others (xs ++ x ∷ []) ≡ others xs
  unfolding select
  others-append [] x it = rw it refl
  others-append (y ∷ ys) x it = elim (Bool-cases (test y)) [
    | inl there ↦ rw there (others-append ys x it)
    | inr other ↦ rw other (ap (◌∷◌ y) (others-append ys x it))
  ]

  same_head : (x : A) (xs ys : List A) → others xs ≡ others ys → others (x ∷ xs) ≡ others (x ∷ ys)
  unfolding select
  same_head x xs ys e = elim (Bool-cases (test x)) [
    | inl it ↦ rw it e
    | inr other ↦ rw other (ap (◌∷◌ x) e)
  ]

  others-update_rows :
      (where_ : A → Bool) (change : A → A)
      → ((x : A) → where_ x ≡ true → test x ≡ true)
      → ((x : A) → test (change x) ≡ test x)
      → (xs : List A) → others (update_rows where_ change xs) ≡ others xs
  unfolding select update_rows
  others-update_rows where_ change inside same [] = refl
  others-update_rows where_ change inside same (x ∷ xs) = elim (Bool-cases (where_ x)) [
    | inl it ↦ rw (it, same x, inside x it) (others-update_rows where_ change inside same xs)
    | inr other ↦ rw other (same_head x _ _ (others-update_rows where_ change inside same xs))
  ]

-- The rows of the other epochs are those of `first`, and the assignments too.
pub record Elsewhere (epoch_date : ℕ) (first d : Db) : Type 0 where
  pub rewards :
      others (in_epoch epoch_date) d.worker_epoch_rewards
      ≡ others (in_epoch epoch_date) first.worker_epoch_rewards
  pub proofs :
      others (proof_in_epoch epoch_date) d.merkle_proofs
      ≡ others (proof_in_epoch epoch_date) first.merkle_proofs
  pub epochs : others (of_date epoch_date) d.epochs ≡ others (of_date epoch_date) first.epochs
  pub assignments : d.assignments ≡ first.assignments

module _ (epoch_date : ℕ) (first : Db) where
  in_worker :
      (address : String) (r : WorkerEpochReward)
      → has_worker epoch_date address r ≡ true
      → in_epoch epoch_date r ≡ true
  in_worker address r h = ground (arith, h)

  dated : (n : ℕ) → n ≡ epoch_date → (n == epoch_date) ≡ true
  dated n e = (==_iff n epoch_date).1 e

  upserted :
      (total : ℕ) (d : Db)
      → Elsewhere epoch_date first d
      → Elsewhere epoch_date first (upsert_epoch epoch_date total d)
  unfolding upsert_epoch
  upserted total d h = elim (Bool-cases (is_some (find_row (of_date epoch_date) d.epochs))) [
    | inl there ↦ rw there (record {
      rewards = h.rewards;
      proofs = h.proofs;
      epochs =
          others-update_rows (of_date epoch_date) (of_date epoch_date) (reset_epoch total)
            (λ e k. k) (λ e. refl) d.epochs
          ∙ h.epochs;
      assignments = h.assignments;
    })
    | inr new ↦ rw new (record {
      rewards = h.rewards;
      proofs = h.proofs;
      epochs =
          others-append (of_date epoch_date) d.epochs (new_epoch epoch_date total)
            (dated epoch_date refl)
          ∙ h.epochs;
      assignments = h.assignments;
    })
  ]

  changed :
      (change : Epoch → Epoch)
      → ((e : Epoch) → (change e).epoch_date ≡ e.epoch_date)
      → (d : Db) → Elsewhere epoch_date first d
      → Elsewhere epoch_date first (set_epochs epoch_date change d)
  changed change same d h = record {
    rewards = h.rewards;
    proofs = h.proofs;
    epochs =
        others-update_rows (of_date epoch_date) (of_date epoch_date) change (λ e k. k)
          (λ e. ap (λ (n : ℕ). n == epoch_date) (same e)) d.epochs
        ∙ h.epochs;
    assignments = h.assignments;
  }

  proof_added :
      (p : MerkleProofRow) (d : Db)
      → p.epoch_date ≡ epoch_date
      → Elsewhere epoch_date first d
      → Elsewhere epoch_date first (insert_proof p d).1
  unfolding insert_proof
  proof_added p d e h =
      elim (Bool-cases (
        is_some (find_row (of_date p.epoch_date) d.epochs)
        && not (is_some (find_row (proof_for p.epoch_date p.recipient) d.merkle_proofs)))) [
          | inl may ↦ rw may (record {
            rewards = h.rewards;
            proofs =
                others-append (proof_in_epoch epoch_date) d.merkle_proofs
                  (record p { claimed = false }) (dated p.epoch_date e)
                ∙ h.proofs;
            epochs = h.epochs;
            assignments = h.assignments;
          })
          | inr not_ ↦ rw not_ h
        ]

  Writes-Elsewhere : Writes (Elsewhere epoch_date first) epoch_date
  Writes-Elsewhere = record {
    free = record {
      questions = λ qs d h. record {
        rewards = h.rewards;
        proofs = h.proofs;
        epochs = h.epochs;
        assignments = h.assignments;
      };
      sets = λ bs d h. record {
        rewards = h.rewards;
        proofs = h.proofs;
        epochs = h.epochs;
        assignments = h.assignments;
      };
      workers = λ ws d h. record {
        rewards = h.rewards;
        proofs = h.proofs;
        epochs = h.epochs;
        assignments = h.assignments;
      };
    };
    epoch_reset = upserted;
    epoch_changed = changed;
    proofs_deleted = λ d h. record {
      rewards = h.rewards;
      proofs = others-select (proof_in_epoch epoch_date) d.merkle_proofs ∙ h.proofs;
      epochs = h.epochs;
      assignments = h.assignments;
    };
    rewards_deleted = λ d h. record {
      rewards = others-select (in_epoch epoch_date) d.worker_epoch_rewards ∙ h.rewards;
      proofs = h.proofs;
      epochs = h.epochs;
      assignments = h.assignments;
    };
    reward_added = λ r d e h. record {
      rewards =
          others-append (in_epoch epoch_date) d.worker_epoch_rewards r (dated r.epoch_date e)
          ∙ h.rewards;
      proofs = h.proofs;
      epochs = h.epochs;
      assignments = h.assignments;
    };
    recipient_set = λ address recipient d h. record {
      rewards =
          others-update_rows (in_epoch epoch_date) (has_worker epoch_date address)
            (λ r. record r { recipient = some recipient }) (in_worker address) (λ r. refl)
            d.worker_epoch_rewards
          ∙ h.rewards;
      proofs = h.proofs;
      epochs = h.epochs;
      assignments = h.assignments;
    };
    proof_added = proof_added;
  }

-- A settlement of an epoch leaves the other epochs, with their rewards and proofs, and all
-- assignments as they were, whichever of its statements fail.
pub settle-Elsewhere :
    (svc : SettlementService) (now epoch_date : ℕ) (w : World)
    → Elsewhere epoch_date w.db (settle svc now epoch_date w).1.db
settle-Elsewhere svc now epoch_date w =
    Keeps-world (Elsewhere epoch_date w.db) (settle svc now epoch_date)
      (settle-Keeps (Elsewhere epoch_date w.db) epoch_date (Writes-Elsewhere epoch_date w.db) svc
        now)
      w (record { rewards = refl; proofs = refl; epochs = refl; assignments = refl })
