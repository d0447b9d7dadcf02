-- ===== src/Service/Settlement/Tree.antt =====
-- buildMerkleTree of internal/service/settlement.go: who is paid, and the tree over the payments.
use subnet_benchmark.Prelude.{
  ℕ, zero, suc, ◌+◌, Bool, false, List, [], ◌∷◌, map, Option, none, some, String, str_eq, ltb,
  if◌then◌else◌,
}
use subnet_benchmark.Model.{MerkleProofRow, internal_error, Result, ok, err}
use subnet_benchmark.Merkle.Hash.{Hash, Leaf, hash_leaf}
use subnet_benchmark.Merkle.Tree.{Tree, new_tree, root, proof}
use subnet_benchmark.Merkle.Hex.{hash_to_hex, proof_to_hex}
use subnet_benchmark.Store.{M, ◌>>◌, pure, fail}
use subnet_benchmark.Store.Rows.{select}
use subnet_benchmark.Store.Rewards.{set_worker_epoch_recipient}
use subnet_benchmark.Store.Proofs.{set_epoch_merkle_root, save_merkle_proof}
use subnet_benchmark.Service.Rootnet.{Response, get_reward_recipient, to_lower}

-- An amount for an address.
pub record Payment : Type 0 where
  pub payee : String
  pub amount : ℕ

-- A worker's reward and the address that it goes to.
pub record RecipientResult : Type 0 where
  pub worker_addr : String
  pub recipient : String
  pub reward : ℕ

-- reward > 0
unfoldable pub eligible : List Payment → List Payment
unfolding select
eligible = select (λ p. ltb 0 p.amount)

-- The attempts that are left, and the number of the next one; the last failure is the result.
unfoldable pub lookup_recipient :
    (String → ℕ → Result (Response String)) → String → ℕ → ℕ → Result String
unfolding get_reward_recipient
lookup_recipient request worker zero attempt = err internal_error
lookup_recipient request worker (suc left) attempt =
    elim (get_reward_recipient (request worker attempt) worker) [
      | ok r ↦ ok r
      | err e ↦ lookup_recipient request worker left (attempt + 1)
    ]

abbrev pub max_retries : ℕ
max_retries = 3

abbrev pub join_result :
    Payment → Result String → Result (List RecipientResult) → Result (List RecipientResult)
join_result p (ok r) (ok rest) =
    ok (record { worker_addr = p.payee; recipient = r; reward = p.amount } ∷ rest)
join_result p (ok r) (err e) = err e
join_result p (err e) rest = err e

-- The lookups run at the same time; each writes its own entry, and one failure fails them all.
unfoldable pub look_up_all :
    (String → ℕ → Result (Response String)) → List Payment → Result (List RecipientResult)
unfolding lookup_recipient
look_up_all request [] = ok []
look_up_all request (p ∷ payments) =
    join_result p (lookup_recipient request p.payee max_retries 1) (look_up_all request payments)

abbrev pub own_recipient : Payment → RecipientResult
own_recipient p = record { worker_addr = p.payee; recipient = to_lower p.payee; reward = p.amount }

-- On the testnet every worker is its own recipient.
unfoldable pub resolve :
    Bool → (String → ℕ → Result (Response String)) → List Payment → Result (List RecipientResult)
unfolding look_up_all to_lower
resolve testnet request payments =
    if testnet then ok (map own_recipient payments) else look_up_all request payments

-- recipientRewards[recipient] += reward
unfoldable pub add_payment : String → ℕ → List Payment → List Payment
add_payment payee amount [] = record { payee = payee; amount = amount } ∷ []
add_payment payee amount (p ∷ payments) =
    let rest = add_payment payee amount payments in
    if str_eq p.payee payee then record p { amount = p.amount + amount } ∷ payments else p ∷ rest

unfoldable pub recipient_rewards : List RecipientResult → List Payment → List Payment
unfolding add_payment
recipient_rewards [] rewards = rewards
recipient_rewards (e ∷ results) rewards =
    recipient_rewards results (add_payment e.recipient e.reward rewards)

-- The other half of that loop.
unfoldable pub set_recipients : ℕ → List RecipientResult → M (Unit {0})
unfolding set_worker_epoch_recipient
set_recipients epoch_date [] = pure tt
set_recipients epoch_date (e ∷ results) =
    set_worker_epoch_recipient epoch_date e.worker_addr e.recipient
    >> set_recipients epoch_date results

-- What the tree is built with: go-ethereum's Keccak-256 and HexToAddress, the requests to the RootNet,
-- and the orders in which Go ranges over two maps.
pub record TreeService : Type 0 where
  pub keccak256 : List ℕ → Hash
  pub hex_to_address : String → List ℕ
  pub request : String → ℕ → Result (Response String)
  pub walk_rewards : List Payment → List Payment
  pub walk_recipients : List Payment → List Payment

abbrev pub leaf_of : TreeService → Payment → Leaf
leaf_of svc p = record { address = svc.hex_to_address p.payee; amount = p.amount }

abbrev pub proof_row : TreeService → ℕ → Payment → List Hash → MerkleProofRow
proof_row svc epoch_date p path = record {
  epoch_date = epoch_date;
  recipient = p.payee;
  amount = p.amount;
  leaf_hash = hash_to_hex (hash_leaf svc.keccak256 (leaf_of svc p));
  proof = proof_to_hex path;
  claimed = false;
}

abbrev pub save_found : TreeService → ℕ → Payment → Option (List Hash) → M (Unit {0})
save_found svc epoch_date p none = fail internal_error
save_found svc epoch_date p (some path) = save_merkle_proof (proof_row svc epoch_date p path)

-- The loop over the leaves.
unfoldable pub save_proofs : TreeService → ℕ → Tree → List Payment → M (Unit {0})
unfolding proof hash_leaf hash_to_hex proof_to_hex save_merkle_proof
save_proofs svc epoch_date tree [] = pure tt
save_proofs svc epoch_date tree (p ∷ payments) =
    save_found svc epoch_date p (proof svc.keccak256 tree (leaf_of svc p))
    >> save_proofs svc epoch_date tree payments

abbrev pub save_tree : TreeService → ℕ → List Payment → Option Tree → M (Unit {0})
save_tree svc epoch_date payments none = fail internal_error
save_tree svc epoch_date payments (some tree) =
    set_epoch_merkle_root epoch_date (hash_to_hex (root tree))
    >> save_proofs svc epoch_date tree payments

-- Without payments there is no tree.
unfoldable pub publish_tree : TreeService → ℕ → List Payment → M (Unit {0})
unfolding new_tree root hash_to_hex save_proofs set_epoch_merkle_root
publish_tree svc epoch_date [] = pure tt
publish_tree svc epoch_date (p ∷ payments) =
    save_tree svc epoch_date (p ∷ payments)
      (new_tree svc.keccak256 (map (leaf_of svc) (p ∷ payments)))

abbrev pub pay_out : TreeService → ℕ → Result (List RecipientResult) → M (Unit {0})
pay_out svc epoch_date (err e) = fail e
pay_out svc epoch_date (ok results) =
    set_recipients epoch_date results
    >> publish_tree svc epoch_date (svc.walk_recipients (recipient_rewards results []))

-- buildMerkleTree
unfoldable pub build_merkle_tree : TreeService → Bool → ℕ → List Payment → M (Unit {0})
unfolding eligible resolve recipient_rewards set_recipients publish_tree
build_merkle_tree svc testnet epoch_date rewards =
    pay_out svc epoch_date (resolve testnet svc.request (eligible (svc.walk_rewards rewards)))
