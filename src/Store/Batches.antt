-- ===== src/Store/Batches.antt =====
-- BatchSaveWorkerEpochRewards of internal/store/epoch.go: the rewards that are written.
use mathlib.Core.List.{append_assoc}
use subnet_benchmark.Prelude.{
  ℕ, zero, suc, ◌≤◌, ◌≡◌, refl, sym, ap, ◌∙◌, List, [], ◌∷◌, ◌++◌, take, drop, length, Option, none,
  some, arith, inl, inr, Bool-cases,
}
use subnet_benchmark.Model.{WorkerEpochReward}
use subnet_benchmark.Store.{Db, World}
use subnet_benchmark.Store.Meets.{Meets, Ends, Outcome, Meets-pure, Meets-bind, Meets-statement}
use subnet_benchmark.Store.Rewards.{
  add_reward, may_insert_reward, insert_each, inserted_or_not, insert_rewards, save_batches,
  batch_save_worker_epoch_rewards,
}

append-take-drop {ℓ} : {A : Type ℓ} (n : ℕ) (xs : List A) → take n xs ++ drop n xs ≡ xs
append-take-drop zero xs = refl
append-take-drop (suc n) [] = refl
append-take-drop (suc n) (x ∷ xs) = ap (◌∷◌ x) (append-take-drop n xs)

length-drop-le {ℓ} : {A : Type ℓ} (n : ℕ) (xs : List A) → length (drop n xs) ≤ length xs
length-drop-le zero xs = omega arith
length-drop-le (suc n) [] = omega arith
length-drop-le (suc n) (x ∷ xs) = omega (arith, length-drop-le n xs)

abbrev Added : List WorkerEpochReward → Db → Option Db → Type 0
Added rewards d none = Unit {0}
Added rewards d (some e) = e.worker_epoch_rewards ≡ d.worker_epoch_rewards ++ rewards

append_nil {ℓ} : {A : Type ℓ} (xs : List A) → xs ++ [] ≡ xs
append_nil [] = refl
append_nil (x ∷ xs) = ap (◌∷◌ x) (append_nil xs)

one_more :
    (r : WorkerEpochReward) (rewards : List WorkerEpochReward) (d : Db) (e : Option Db)
    → Added rewards (add_reward r d) e
    → Added (r ∷ rewards) d e
one_more r rewards d none h = tt
one_more r rewards d (some e) h = h ∙ append_assoc d.worker_epoch_rewards (r ∷ []) rewards

insert_each-Added :
    (rewards : List WorkerEpochReward) (d : Db) → Added rewards d (insert_each rewards d)
unfolding insert_each
insert_each-Added [] d = sym (append_nil d.worker_epoch_rewards)
insert_each-Added (r ∷ rewards) d = elim (Bool-cases (may_insert_reward r d)) [
  | inl may ↦ rw may (one_more r rewards d _ (insert_each-Added rewards (add_reward r d)))
  | inr not_ ↦ rw not_ tt
]

abbrev Holds : List WorkerEpochReward → Db → Type 0
Holds rows d = d.worker_epoch_rewards ≡ rows

inserted :
    (rewards rows : List WorkerEpochReward) (d : Db) (e : Option Db)
    → Added rewards d e
    → Holds rows d
    → Outcome (λ _. Holds (rows ++ rewards)) (λ d. Unit {0}) (inserted_or_not d e)
inserted rewards rows d none h held = tt
inserted rewards rows d (some e) h held =
    h ∙ ap (λ (xs : List WorkerEpochReward). xs ++ rewards) held

save_batches-Holds :
    (rounds : ℕ) (rewards rows : List WorkerEpochReward)
    → length rewards ≤ rounds
    → Meets
        (Holds rows)
        (save_batches rounds rewards)
        (λ _. Holds (rows ++ rewards))
        (λ d. Unit {0})
unfolding save_batches insert_rewards
save_batches-Holds rounds [] rows enough = Meets-pure tt (λ d held. held ∙ sym (append_nil rows))
save_batches-Holds zero (r ∷ rewards) rows enough = absurd (omega (arith, enough))
save_batches-Holds (suc rounds) (r ∷ rewards) rows enough =
    let batch = take 100 (r ∷ rewards) in
    let rest = drop 100 (r ∷ rewards) in
    let whole : (rows ++ batch) ++ rest ≡ rows ++ (r ∷ rewards) =
      append_assoc rows batch rest
      ∙ ap (λ (xs : List WorkerEpochReward). rows ++ xs) (append-take-drop 100 (r ∷ rewards)) in
    let shorter : length rest ≤ rounds = omega (arith, length-drop-le 99 rewards, enough) in
    Meets-bind _ _
      (Meets-statement _
        (λ d held. inserted batch rows d (insert_each batch d) (insert_each-Added batch d) held)
        (λ d held. tt))
      (λ u. rw whole at (save_batches-Holds rounds rest (rows ++ batch) shorter))

-- Where BatchSaveWorkerEpochRewards succeeds, the table has gained exactly the rewards that it was
-- given, in their order, however many batches they make.
pub batch_save-Holds :
    (rewards : List WorkerEpochReward) (w : World)
    → Ends
        (λ _ d. d.worker_epoch_rewards ≡ w.db.worker_epoch_rewards ++ rewards)
        (λ _. Unit {0})
        (batch_save_worker_epoch_rewards rewards w)
unfolding batch_save_worker_epoch_rewards
batch_save-Holds rewards w =
    (save_batches-Holds (length rewards) rewards w.db.worker_epoch_rewards (omega arith)).at w refl
