-- ===== src/Handler/Claimable.antt =====
-- internal/handler/claims.go on the tables that a settlement leaves: the root, the path and the leaf
-- of the claims that are served.
use subnet_benchmark.Prelude.{
  All, ℕ, ◌≡◌, refl, sym, ap, subst, ◌⊎◌, inl, inr, Bool, true, false, List, [], ◌∷◌, Option, none,
  some, String, str_eq, arith, Bool-cases,
}
use mathlib.Core.Option
use subnet_benchmark.Model.{Epoch, MerkleProofRow, Result, ok, err}
use subnet_benchmark.Merkle.Hash.{Hash, hash_leaf}
use subnet_benchmark.Merkle.Tree.{verify}
use subnet_benchmark.Merkle.Hex.{hash_to_hex, proof_to_hex}
use subnet_benchmark.Store.{Db, World, M, query, pure}
use subnet_benchmark.Store.Rows.{find_row}
use subnet_benchmark.Store.Epochs.{of_date}
use subnet_benchmark.Store.Proofs.{
  proof_in_epoch, proof_for, root_of, get_merkle_proof, get_epoch_merkle_root,
}
use subnet_benchmark.Store.Meets.{Meets, Ends, Meets-pure, Meets-bind, Meets-if, Meets-statement}
use subnet_benchmark.Store.Keeps.{Meets-success}
use subnet_benchmark.Service.Rootnet.{to_lower}
use subnet_benchmark.Service.Settlement.Tree.{TreeService}
use subnet_benchmark.Service.Settlement.Trees.{Verified, Proves, HasRoot}
use subnet_benchmark.Auth.Worker.{caught, caught_result}
use subnet_benchmark.Handler.{Http, written, error_status}
use subnet_benchmark.Handler.Claims.{
  ClaimView, view_of, root_or_none, serve_claim, claim_of, handle_claim,
}

-- The texts of the view are those of a root, and of a path that verifies against it for the leaf of
-- the view's recipient and amount.
pub record Claimable (svc : TreeService) (v : ClaimView) : Type 0 where
  pub top : Hash
  pub path : List Hash
  pub root_text : v.merkle_root ≡ hash_to_hex top
  pub path_text : v.proof ≡ proof_to_hex path
  pub verifies :
      verify svc.keccak256 path top (
        hash_leaf svc.keccak256
          (record { address = svc.hex_to_address v.recipient; amount = v.amount }))
      ≡ true

-- What is served is without a root, or claimable.
abbrev pub Served : TreeService → Http ClaimView → Type 0
Served svc (error_status status) = Unit {0}
Served svc (written status v) = (v.merkle_root ≡ []) ⊎ Claimable svc v

find_row-All :
    {A : Type 0} (P : A → Type 0) (test : A → Bool) (xs : List A) (x : A)
    → All P xs
    → find_row test xs ≡ some x
    → P x × (test x ≡ true)
unfolding find_row
find_row-All P test [] x h e = cc
find_row-All {A} P test (y ∷ ys) x h e = elim (Bool-cases (test y)) [
  | inl it ↦
      subst (λ (z : A). P z × (test z ≡ true)) (Option.some-injective _ _ (rw it at e)) (h.0, it)
  | inr other ↦ find_row-All P test ys x h.1 (rw other at e)
]

abbrev OrElse : {A : Type 0} → (A → Db → Type 0) → (Db → Type 0) → Option A → Db → Type 0
OrElse Q E none d = E d
OrElse Q E (some a) d = Q a d

module _ {A : Type 0} {P : Db → Type 0} (Q : A → Db → Type 0) (E : Db → Type 0) where
  caught-OrElse : (m : M A) → Meets P m Q E → Meets P (caught m) (OrElse Q E) E
  unfolding caught
  caught-OrElse m h = record { at = λ w p. both (m w) (h.at w p) }
    where
      both : (r : Result A × World) → Ends Q E r → Ends (OrElse Q E) E (caught_result r)
      both (ok a, w) q = q
      both (err e, w) q = q

module _ (svc : TreeService) (epoch_date : ℕ) (first : Db)
    (verified : Verified svc epoch_date first) where
  abbrev At : Db → Type 0
  At d = d ≡ first

  abbrev Read : {A : Type 0} → (Db → A) → A → Db → Type 0
  Read f a d = (a ≡ f first) × (d ≡ first)

  query-Read : {A : Type 0} (f : Db → A) → Meets At (query f) (Read f) At
  query-Read f = Meets-statement _ (λ d e. (ap f e, e)) (λ d e. e)

  with_epoch :
      (top : Hash) (p : MerkleProofRow) (e : Option Epoch)
      → HasRoot top e
      → Proves svc top p
      → Served svc (written 200 (view_of p (root_of e)))
  with_epoch top p none h proves = inl refl
  with_epoch top p (some e) h proves = inr (record {
    top = top;
    path = proves.path;
    root_text = rw h refl;
    path_text = proves.path_text;
    verifies = proves.verifies;
  })

  in_epoch_too :
      (address : String) (p : MerkleProofRow)
      → proof_for epoch_date address p ≡ true
      → proof_in_epoch epoch_date p ≡ true
  in_epoch_too address p h = ground (arith, h)

  view-Served :
      (address : String) (p : MerkleProofRow)
      → find_row (proof_for epoch_date address) first.merkle_proofs ≡ some p
      → Served svc (written 200 (view_of p (root_of (find_row (of_date epoch_date) first.epochs))))
  view-Served address p e = by_cases verified
    where
      by_cases :
          Verified svc epoch_date first
          → Served svc
              (written 200 (view_of p (root_of (find_row (of_date epoch_date) first.epochs))))
      by_cases (inl none_yet) =
          let (missing, there) =
            find_row-All (λ row. proof_in_epoch epoch_date row ≡ false) _ first.merkle_proofs p
              none_yet e in
          absurd (both (proof_in_epoch epoch_date p) missing (in_epoch_too address p there))
        where
          both : (b : Bool) → b ≡ false → b ≡ true → ⊥
          both b f t = cc
      by_cases (inr (top, h)) =
          let (proves, there) = find_row-All _ _ first.merkle_proofs p h.rows e in
          with_epoch top p (find_row (of_date epoch_date) first.epochs) h.stored_root
            (proves (in_epoch_too address p there))

  serve_claim-Served :
      (address : String) (found : Option (Option MerkleProofRow))
      → Meets
          (OrElse (Read (λ d. find_row (proof_for epoch_date address) d.merkle_proofs)) At found)
          (serve_claim epoch_date found)
          (λ reply d. Served svc reply)
          (λ d. Unit {0})
  unfolding get_epoch_merkle_root
  serve_claim-Served address none = Meets-pure (error_status 500) (λ d h. tt)
  serve_claim-Served address (some none) = Meets-pure (error_status 404) (λ d h. tt)
  serve_claim-Served address (some (some p)) = record { at = λ w pre. (found_at pre.0).at w pre.1 }
    where
      served :
          (some p ≡ find_row (proof_for epoch_date address) first.merkle_proofs)
          → (o : Option (List ℕ))
          → Meets
              (OrElse (Read (λ d. root_of (find_row (of_date epoch_date) d.epochs))) At o)
              (pure (written 200 (view_of p (root_or_none o))))
              (λ reply d. Served svc reply)
              (λ d. Unit {0})
      served e none = Meets-pure _ (λ d h. inl refl)
      served e (some root) = Meets-pure _ (λ d h. rw h.0 (view-Served address p (sym e)))

      found_at :
          (some p ≡ find_row (proof_for epoch_date address) first.merkle_proofs)
          → Meets At
              (serve_claim epoch_date (some (some p)))
              (λ reply d. Served svc reply)
              (λ d. Unit {0})
      found_at e =
          Meets-bind _ _
            (Meets-success At (caught (get_epoch_merkle_root epoch_date)) (
              caught-OrElse _ At (get_epoch_merkle_root epoch_date)
                (query-Read (λ d. root_of (find_row (of_date epoch_date) d.epochs)))))
            (served e)

  claim_of-Served :
      (address : String)
      → Meets At (claim_of address (some epoch_date)) (λ reply d. Served svc reply) (λ d. Unit {0})
  unfolding get_merkle_proof
  claim_of-Served address =
      Meets-bind _ _
        (Meets-success At (caught (get_merkle_proof epoch_date address)) (
          caught-OrElse _ At (get_merkle_proof epoch_date address)
            (query-Read (λ d. find_row (proof_for epoch_date address) d.merkle_proofs))))
        (serve_claim-Served address)

  handle_claim-Meets :
      (address : String)
      → Meets At
          (handle_claim address (some epoch_date))
          (λ reply d. Served svc reply)
          (λ d. Unit {0})
  unfolding handle_claim
  handle_claim-Meets address =
      Meets-if (str_eq (to_lower address) "") _ _ (λ e. Meets-pure (error_status 400) (λ d h. tt))
        (λ e. claim_of-Served (to_lower address))

-- On tables as a settlement leaves them for an epoch: a claim for the epoch that is served with a
-- root has the texts of that root and of a path that verifies against it for the leaf of the claim's
-- recipient and amount.
pub handle_claim-Served :
    (svc : TreeService) (epoch_date : ℕ) (w : World)
    → Verified svc epoch_date w.db
    → (address : String)
    → Ends (λ reply _. Served svc reply) (λ _. Unit {0}) (handle_claim address (some epoch_date) w)
handle_claim-Served svc epoch_date w verified address =
    (handle_claim-Meets svc epoch_date w.db verified address).at w refl
