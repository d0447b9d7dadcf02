-- ===== src/Service/Settlement/Amounts.antt =====
-- The amounts of the leaves of the tree, added up.
use mathlib.Core.List.{Perm, Permᴰ}
use mathlib.Core.Logic.{∥∥₁_elim}
use native.Mathlib.Nat.{ℕ_set}
use subnet_benchmark.Prelude.{
  ℕ, ◌+◌, ◌*◌, ◌^◌, ◌≤◌, ◌<◌, ◌≡◌, refl, ◌∙◌, All, Bool, true, false, List, [], ◌∷◌, map, length,
  String, arith, suc,
}
use subnet_benchmark.Model.{Question, Assignment, Result, ok, err}
use subnet_benchmark.Store.Rows.{select}
use subnet_benchmark.Service.Rootnet.{Response}
use subnet_benchmark.Service.Settlement.{MinerStats, compute_stats}
use subnet_benchmark.Service.Settlement.Totals.{SharesFit}
use subnet_benchmark.Service.Settlement.Pool.{FairQuestion, FairAnswer, total_final, total_final-le}
use subnet_benchmark.Service.Settlement.Run.{payment_of}
use subnet_benchmark.Service.Settlement.Tree.{
  Payment, RecipientResult, eligible, lookup_recipient, join_result, look_up_all, own_recipient,
  resolve, max_retries, add_payment, recipient_rewards, TreeService,
}

abbrev pub total_amount : List Payment → ℕ
total_amount [] = 0
total_amount (p ∷ payments) = p.amount + total_amount payments

abbrev pub total_reward_of : List RecipientResult → ℕ
total_reward_of [] = 0
total_reward_of (e ∷ results) = e.reward + total_reward_of results

total_amount-add_payment :
    (payee : String) (amount : ℕ) (payments : List Payment)
    → total_amount (add_payment payee amount payments) ≡ total_amount payments + amount
unfolding add_payment
total_amount-add_payment payee amount [] = omega arith
total_amount-add_payment payee amount (p ∷ payments) =
    ground (arith, total_amount-add_payment payee amount payments)

total_amount-recipient_rewards :
    (results : List RecipientResult) (payments : List Payment)
    → total_amount (recipient_rewards results payments)
      ≡ total_amount payments + total_reward_of results
unfolding recipient_rewards
total_amount-recipient_rewards [] payments = omega arith
total_amount-recipient_rewards (e ∷ results) payments = omega (
  arith,
  total_amount-recipient_rewards results (add_payment e.recipient e.reward payments),
  total_amount-add_payment e.recipient e.reward payments,
)

total_amount-eligible :
    (payments : List Payment) → total_amount (eligible payments) ≡ total_amount payments
unfolding eligible select
total_amount-eligible [] = refl
total_amount-eligible (p ∷ payments) = ground (arith, total_amount-eligible payments)

total_reward_of-own :
    (payments : List Payment) → total_reward_of (map own_recipient payments) ≡ total_amount payments
total_reward_of-own [] = refl
total_reward_of-own (p ∷ payments) = omega (arith, total_reward_of-own payments)

-- What is resolved carries the rewards that were asked about.
abbrev Carries : ℕ → Result (List RecipientResult) → Type 0
Carries total (ok results) = total_reward_of results ≡ total
Carries total (err e) = Unit {0}

join_result-Carries :
    (p : Payment) (total : ℕ) (r : Result String) (rest : Result (List RecipientResult))
    → Carries total rest
    → Carries (p.amount + total) (join_result p r rest)
join_result-Carries p total (ok r) (ok rest) h = omega (arith, h)
join_result-Carries p total (ok r) (err e) h = tt
join_result-Carries p total (err e) rest h = tt

look_up_all-Carries :
    (request : String → ℕ → Result (Response String)) (payments : List Payment)
    → Carries (total_amount payments) (look_up_all request payments)
unfolding look_up_all
look_up_all-Carries request [] = refl
look_up_all-Carries request (p ∷ payments) =
    join_result-Carries p (total_amount payments) (lookup_recipient request p.payee max_retries 1) _
      (look_up_all-Carries request payments)

resolve-Carries :
    (testnet : Bool) (request : String → ℕ → Result (Response String)) (payments : List Payment)
    → Carries (total_amount payments) (resolve testnet request payments)
unfolding resolve
resolve-Carries true request payments = total_reward_of-own payments
resolve-Carries false request payments = look_up_all-Carries request payments

total_amount-Permᴰ : {xs ys : List Payment} → Permᴰ xs ys → total_amount xs ≡ total_amount ys
total_amount-Permᴰ Permᴰ.nil = refl
total_amount-Permᴰ (Permᴰ.cons {b = b} {l₁ = xs} e d) = rw (e, total_amount-Permᴰ d) refl
total_amount-Permᴰ (Permᴰ.swap {a = a} {b = b} {l = l} e f) = rw (e, f) (omega arith)
total_amount-Permᴰ (Permᴰ.trans d e) = total_amount-Permᴰ d ∙ total_amount-Permᴰ e

total_amount-perm : {xs ys : List Payment} → Perm xs ys → total_amount xs ≡ total_amount ys
total_amount-perm {xs} {ys} p =
    ∥∥₁_elim p (ℕ_set (total_amount xs) (total_amount ys)) (λ d. total_amount-Permᴰ d)

-- The leaves of a tree, whoever is paid, carry the rewards that the settlement found.
leaves-total :
    (svc : TreeService) (testnet : Bool) (rewards : List Payment) (results : List RecipientResult)
    → ((payments : List Payment) → Perm (svc.walk_rewards payments) payments)
    → ((payments : List Payment) → Perm (svc.walk_recipients payments) payments)
    → resolve testnet svc.request (eligible (svc.walk_rewards rewards)) ≡ ok results
    → total_amount (svc.walk_recipients (recipient_rewards results [])) ≡ total_amount rewards
leaves-total svc testnet rewards results walk walk' e =
    let found = resolve-Carries testnet svc.request (eligible (svc.walk_rewards rewards)) in
    let total : total_reward_of results ≡ total_amount (eligible (svc.walk_rewards rewards)) =
      rw e at found in
    omega (
      arith,
      total,
      total_amount-perm (walk' (recipient_rewards results [])),
      total_amount-recipient_rewards results [],
      total_amount-eligible (svc.walk_rewards rewards),
      total_amount-perm (walk rewards),
    )

total_amount-payment_of :
    (min_tasks : ℕ) (stats : List MinerStats)
    → total_amount (map (payment_of min_tasks) stats) ≡ total_final min_tasks stats
total_amount-payment_of min_tasks [] = refl
total_amount-payment_of min_tasks (s ∷ stats) =
    omega (arith, total_amount-payment_of min_tasks stats)

-- If the recipients of all workers with a reward are found, and the walks over the maps visit every
-- entry once, the amounts of the leaves of the epoch's tree total at most its reward, which is below
-- 2 ^ 36, where there are fewer than 2 ^ 50 tasks, all scores are at most 5 and the shares of each
-- question and of its answers make up at most 1.0.
pub leaves-le :
    (svc : TreeService) (testnet : Bool) (total_reward min_tasks : ℕ) (questions : List Question)
    (assignments : List Assignment) (results : List RecipientResult)
    → ((payments : List Payment) → Perm (svc.walk_rewards payments) payments)
    → ((payments : List Payment) → Perm (svc.walk_recipients payments) payments)
    → resolve testnet svc.request (
        eligible (
          svc.walk_rewards
            (map (payment_of min_tasks) (compute_stats total_reward questions assignments))))
      ≡ ok results
    → total_reward < 2 ^ 36
    → length questions * suc (length assignments) < 2 ^ 50
    → SharesFit assignments questions
    → All FairQuestion questions
    → All FairAnswer assignments
    → total_amount (svc.walk_recipients (recipient_rewards results [])) ≤ total_reward
leaves-le svc testnet total_reward min_tasks questions assignments results walk walk' e small few
      fits fq fa =
    let stats = compute_stats total_reward questions assignments in
    omega (
      arith,
      leaves-total svc testnet (map (payment_of min_tasks) stats) results walk walk' e,
      total_amount-payment_of min_tasks stats,
      total_final-le total_reward min_tasks questions assignments small few fits fq fa,
    )
