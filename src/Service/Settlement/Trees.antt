-- ===== src/Service/Settlement/Trees.antt =====
-- What a settlement leaves in the tables of the proofs: each proof of the epoch verifies.
use mathlib.Core.List.{mem-cons_self, mem-cons_of_mem}
use mathlib.Core.Option
use subnet_benchmark.Prelude.{
  All, ℕ, ◌≡◌, refl, ◌∙◌, ◌⊎◌, inl, inr, Bool, true, false, List, [], ◌∷◌, ◌++◌, Mem, Option, none,
  some, Bool-cases,
}
use subnet_benchmark.Model.{Epoch, MerkleProofRow}
use subnet_benchmark.Merkle.Hash.{Hash, hash_leaf}
use subnet_benchmark.Merkle.Tree.{verify}
use subnet_benchmark.Merkle.Hex.{hash_to_hex, proof_to_hex}
use subnet_benchmark.Store.{Db}
use subnet_benchmark.Store.Rows.{update_rows, find_row}
use subnet_benchmark.Store.Epochs.{of_date}
use subnet_benchmark.Store.Proofs.{proof_in_epoch}
use subnet_benchmark.Service.Settlement.Tree.{TreeService}

-- The leaf that the smart contract hashes for a row.
abbrev pub row_hash : TreeService → MerkleProofRow → Hash
row_hash svc row =
    hash_leaf svc.keccak256
      (record { address = svc.hex_to_address row.recipient; amount = row.amount })

-- The texts of a row are those of its leaf and of a path that verifies against `top`.
pub record Proves (svc : TreeService) (top : Hash) (row : MerkleProofRow) : Type 0 where
  pub path : List Hash
  pub leaf_text : row.leaf_hash ≡ hash_to_hex (row_hash svc row)
  pub path_text : row.proof ≡ proof_to_hex path
  pub verifies : verify svc.keccak256 path top (row_hash svc row) ≡ true

abbrev pub HasRoot : Hash → Option Epoch → Type 0
HasRoot top none = Unit {0}
HasRoot top (some e) = e.merkle_root ≡ some (hash_to_hex top)

-- The epoch's stored root is `top`, and its proofs verify against it.
pub record Proven (svc : TreeService) (epoch_date : ℕ) (top : Hash) (d : Db) : Type 0 where
  pub stored_root : HasRoot top (find_row (of_date epoch_date) d.epochs)
  pub rows : All (λ row. proof_in_epoch epoch_date row ≡ true → Proves svc top row) d.merkle_proofs

abbrev pub NoProofs : ℕ → Db → Type 0
NoProofs epoch_date d = All (λ row. proof_in_epoch epoch_date row ≡ false) d.merkle_proofs

pub find_row-update_rows :
    {A : Type 0} (test : A → Bool) (change : A → A)
    → ((x : A) → test (change x) ≡ test x)
    → (xs : List A)
    → find_row test (update_rows test change xs) ≡ Option.map change (find_row test xs)
unfolding find_row update_rows
find_row-update_rows test change same [] = refl
find_row-update_rows test change same (x ∷ xs) = elim (Bool-cases (test x)) [
  | inl it ↦ rw (it, same x, it) refl
  | inr other ↦ rw (other, other) (find_row-update_rows test change same xs)
]

pub HasRoot-map :
    (top : Hash) (change : Epoch → Epoch)
    → ((e : Epoch) → (change e).merkle_root ≡ e.merkle_root)
    → (o : Option Epoch) → HasRoot top o
    → HasRoot top (Option.map change o)
HasRoot-map top change same none h = tt
HasRoot-map top change same (some e) h = same e ∙ h

abbrev pub with_root : Hash → Epoch → Epoch
with_root top e = record e { merkle_root = some (hash_to_hex top) }

pub HasRoot-set : (top : Hash) (o : Option Epoch) → HasRoot top (Option.map (with_root top) o)
HasRoot-set top none = tt
HasRoot-set top (some e) = refl

pub All-append :
    {A : Type 0} (P : A → Type 0) (xs : List A) (x : A) → All P xs → P x → All P (xs ++ x ∷ [])
All-append P [] x h p = (p, tt)
All-append P (y ∷ ys) x h p = (h.0, All-append P ys x h.1 p)

pub All-Mem :
    {A : Type 0} (all xs : List A) → ((x : A) → Mem x xs → Mem x all) → All (λ x. Mem x all) xs
All-Mem all [] h = tt
All-Mem all (x ∷ xs) h = (h x mem-cons_self, All-Mem all xs (λ y m. h y (mem-cons_of_mem x m)))

-- No proof is stored for the epoch, or all verify against its root.
abbrev pub Verified : TreeService → ℕ → Db → Type 0
Verified svc epoch_date d = NoProofs epoch_date d ⊎ ((top : Hash) × Proven svc epoch_date top d)
