-- ===== src/Service/Settlement/Retries.antt =====
-- The lookups of buildMerkleTree in internal/service/settlement.go, with their attempts.
use subnet_benchmark.Prelude.{ℕ, zero, suc, ◌+◌, ◌<◌, ◌≡◌, refl, String, arith}
use subnet_benchmark.Model.{Error, Result, ok, err}
use subnet_benchmark.Service.Rootnet.{Response, get_reward_recipient}
use subnet_benchmark.Service.Settlement.Tree.{lookup_recipient}

module _ (request : String → ℕ → Result (Response String)) (worker : String) where
  abbrev pub try_lookup : ℕ → Result String
  try_lookup attempt = get_reward_recipient (request worker attempt) worker

  abbrev pub Failed : ℕ → Type 0
  Failed attempt = (e : Error) × (try_lookup attempt ≡ err e)

  -- The first attempt that succeeds gives the result; an error says that each one failed.
  abbrev pub Looked : ℕ → ℕ → Result String → Type 0
  Looked left attempt (ok r) =
      (i : ℕ) × (i < left)
      × (try_lookup (attempt + i) ≡ ok r)
      × ((j : ℕ) → j < i → Failed (attempt + j))
  Looked left attempt (err e) = (j : ℕ) → j < left → Failed (attempt + j)

  first_fails :
      (attempt : ℕ)
      → Failed attempt
      → (n : ℕ) → ((j : ℕ) → j < n → Failed (attempt + 1 + j))
      → (j : ℕ) → j < suc n
      → Failed (attempt + j)
  first_fails attempt f n later zero h = let e : attempt + 0 ≡ attempt = omega arith in rw e f
  first_fails attempt f n later (suc j) h =
      let e : attempt + suc j ≡ attempt + 1 + j = omega arith in rw e (later j (omega (arith, h)))

  later_attempt :
      (left attempt : ℕ)
      → Failed attempt
      → (r : Result String) → Looked left (attempt + 1) r
      → Looked (suc left) attempt r
  later_attempt left attempt f (ok r) (i, below, found, before) =
      let e : attempt + suc i ≡ attempt + 1 + i = omega arith in
      (suc i, omega (arith, below), rw e found, first_fails attempt f i before)
  later_attempt left attempt f (err e) h = first_fails attempt f left h

  -- A lookup returns what the first of its attempts to succeed returns, and an error only if every
  -- attempt fails.
  pub lookup_recipient_lem :
      (left attempt : ℕ) → Looked left attempt (lookup_recipient request worker left attempt)
  unfolding lookup_recipient
  lookup_recipient_lem zero attempt = λ j h. absurd (omega (arith, h))
  lookup_recipient_lem (suc left) attempt =
      decide (try_lookup attempt) refl (lookup_recipient_lem left (attempt + 1))
    where
      decide :
          (r : Result String)
          → try_lookup attempt ≡ r
          → Looked left (attempt + 1) (lookup_recipient request worker left (attempt + 1))
          → Looked
              (suc left)
              attempt
              (elim r [ ok s ↦ ok s | err e ↦ lookup_recipient request worker left (attempt + 1) ])
      decide (ok s) e h = (0, omega arith, e', λ j k. absurd (omega (arith, k)))
        where
          same : attempt + 0 ≡ attempt
          same = omega arith

          e' : try_lookup (attempt + 0) ≡ ok s
          e' = rw same e
      decide (err x) e h = later_attempt left attempt (x, e) _ h
