-- ===== src/Handler/Claims.antt =====
-- internal/handler/claims.go.
use subnet_benchmark.Prelude.{
  ℕ, Bool, List, [], ◌∷◌, Option, none, some, String, str_eq, if◌then◌else◌,
}
use subnet_benchmark.Model.{MerkleProofRow}
use subnet_benchmark.Store.{M, ◌>>=◌, pure}
use subnet_benchmark.Store.Proofs.{
  get_merkle_proof, list_merkle_proofs_by_recipient, get_epoch_merkle_root,
}
use subnet_benchmark.Service.Rootnet.{to_lower}
use subnet_benchmark.Auth.Worker.{caught}
use subnet_benchmark.Handler.{Http, written, error_status}

pub record ClaimView : Type 0 where
  pub epoch_date : ℕ
  pub recipient : String
  pub amount : ℕ
  pub leaf_hash : List ℕ
  pub proof : List (List ℕ)
  pub merkle_root : List ℕ
  pub claimed : Bool

abbrev pub view_of : MerkleProofRow → List ℕ → ClaimView
view_of p root = record {
  epoch_date = p.epoch_date;
  recipient = p.recipient;
  amount = p.amount;
  leaf_hash = p.leaf_hash;
  proof = p.proof;
  merkle_root = root;
  claimed = p.claimed;
}

-- A proof without a root, or whose root cannot be read, is left out.
abbrev pub with_root : MerkleProofRow → Option (List ℕ) → List ClaimView → List ClaimView
with_root p none views = views
with_root p (some []) views = views
with_root p (some (c ∷ root)) views = view_of p (c ∷ root) ∷ views

unfoldable pub views_of : List MerkleProofRow → M (List ClaimView)
unfolding get_epoch_merkle_root caught
views_of [] = pure []
views_of (p ∷ proofs) = do
  root ← caught (get_epoch_merkle_root p.epoch_date)
  views ← views_of proofs
  pure (with_root p root views)

abbrev pub list_views : Option (List MerkleProofRow) → M (Http (List ClaimView))
list_views none = pure (error_status 500)
list_views (some proofs) = do views ← views_of proofs; pure (written 200 views)

-- HandleClaims
unfoldable pub handle_claims : String → M (Http (List ClaimView))
unfolding to_lower list_merkle_proofs_by_recipient views_of caught
handle_claims address = if str_eq (to_lower address) "" then pure (error_status 400) else (do
  proofs ← caught (list_merkle_proofs_by_recipient (to_lower address))
  list_views proofs)

-- A root that cannot be read is served as the empty text.
abbrev pub root_or_none : Option (List ℕ) → List ℕ
root_or_none none = []
root_or_none (some root) = root

abbrev pub serve_claim : ℕ → Option (Option MerkleProofRow) → M (Http ClaimView)
serve_claim epoch_date none = pure (error_status 500)
serve_claim epoch_date (some none) = pure (error_status 404)
serve_claim epoch_date (some (some p)) = do
  root ← caught (get_epoch_merkle_root epoch_date)
  pure (written 200 (view_of p (root_or_none root)))

abbrev pub claim_of : String → Option ℕ → M (Http ClaimView)
claim_of address none = pure (error_status 400)
claim_of address (some epoch_date) = do
  found ← caught (get_merkle_proof epoch_date address)
  serve_claim epoch_date found

-- HandleClaim
unfoldable pub handle_claim : String → Option ℕ → M (Http ClaimView)
unfolding to_lower get_merkle_proof get_epoch_merkle_root caught
handle_claim address epoch_date =
    if str_eq (to_lower address) ""
    then pure (error_status 400)
    else claim_of (to_lower address) epoch_date
