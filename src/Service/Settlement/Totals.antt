-- ===== src/Service/Settlement/Totals.antt =====
-- The raw rewards of an epoch, added up.
use native.Mathlib.Nat.{mul-le-mul_left, div-mul-le_self}
use subnet_benchmark.Prelude.{
  ℕ, suc, ◌+◌, ◌-◌, ◌*◌, ◌/◌, ◌^◌, ◌≤◌, ◌<◌, ◌≡◌, refl, ap, List, [], ◌∷◌, String, arith, length,
}
use subnet_benchmark.Model.{Question, Assignment}
use subnet_benchmark.Float64.{of_int, of_numeric, times}
use subnet_benchmark.Float64.Bounds.{B, of_int-AtMost, of_numeric-AtMost, times-AtMost, truncate-le}
use subnet_benchmark.Store.Rows.{select}
use subnet_benchmark.Store.Assignments.{of_question}
use subnet_benchmark.Service.Settlement.{
  MinerStats, no_stats, with_stats, pay, tally_ask, tally_answer, tally_answers, tally_questions,
  compute_stats, base_reward,
}

-- A payment never exceeds the exact share, although it is computed with rounding.
pub pay-le :
    (pool share : ℕ) → pool < 2 ^ 36 → share ≤ 10000 → pay pool share * 10000 ≤ pool * share
unfolding pay
pay-le pool share p s =
    let product = mul-le-mul_left pool s in
    let float =
      times-AtMost 1 (B * 10000) pool (share * (B + 1)) (of_int pool) (of_numeric share)
        (of_int-AtMost pool (omega (arith, p))) (of_numeric-AtMost share s) (omega arith)
        (omega (arith, product, p)) in
    let cut = truncate-le _ _ (times (of_int pool) (of_numeric share)) float in
    omega (arith, cut, product, p)

abbrev pub total_raw : List MinerStats → ℕ
total_raw [] = 0
total_raw (s ∷ stats) = s.raw_reward + total_raw stats

-- An entry that gains `gain` raises the total by it.
total_raw-with_stats :
    (address : String) (change : MinerStats → MinerStats) (gain : ℕ)
    → ((s : MinerStats) → (change s).raw_reward ≡ s.raw_reward + gain)
    → (stats : List MinerStats)
    → total_raw (with_stats address change stats) ≡ total_raw stats + gain
unfolding with_stats
total_raw-with_stats address change gain h [] = omega (arith, h (no_stats address))
total_raw-with_stats address change gain h (s ∷ stats) =
    ground (arith, h s, total_raw-with_stats address change gain h stats)

abbrev pub total_share : List Assignment → ℕ
total_share [] = 0
total_share (a ∷ assignments) = a.share + total_share assignments

abbrev pub paid : ℕ → List Assignment → ℕ
paid pool [] = 0
paid pool (a ∷ assignments) = pay pool a.share + paid pool assignments

paid-le :
    (pool : ℕ) (assignments : List Assignment)
    → pool < 2 ^ 36
    → total_share assignments ≤ 10000
    → paid pool assignments * 10000 ≤ pool * total_share assignments
paid-le pool [] p h = omega arith
paid-le pool (a ∷ assignments) p h =
    omega (
      arith,
      pay-le pool a.share p (omega (arith, h)),
      paid-le pool assignments p (omega (arith, h)),
    )

total_raw-tally_answers :
    (pool : ℕ) (assignments : List Assignment) (stats : List MinerStats)
    → total_raw (tally_answers pool assignments stats) ≡ total_raw stats + paid pool assignments
unfolding tally_answers
total_raw-tally_answers pool [] stats = omega arith
total_raw-tally_answers pool (a ∷ assignments) stats =
    let step =
      total_raw-with_stats a.worker (tally_answer pool a) (pay pool a.share) (λ s. refl) stats in
    omega (
      arith,
      step,
      total_raw-tally_answers pool assignments (with_stats a.worker (tally_answer pool a) stats),
    )

-- The shares of each question and of its answers make up at most 1.0.
abbrev pub SharesFit : List Assignment → List Question → Type 0
SharesFit assignments [] = Unit
SharesFit assignments (q ∷ questions) =
    (q.share ≤ 10000)
    × (total_share (select (of_question q.question_id) assignments) ≤ 10000)
    × SharesFit assignments questions

total_raw-tally_questions :
    (ask_pool answer_pool : ℕ) (assignments : List Assignment) (questions : List Question)
    (stats : List MinerStats)
    → ask_pool < 2 ^ 36
    → answer_pool < 2 ^ 36
    → SharesFit assignments questions
    → total_raw (tally_questions ask_pool answer_pool assignments questions stats)
      ≤ total_raw stats + length questions * (ask_pool + answer_pool)
unfolding tally_questions
total_raw-tally_questions ask_pool answer_pool assignments [] stats a b fits = omega arith
total_raw-tally_questions ask_pool answer_pool assignments (q ∷ questions) stats a b fits =
    let answers = select (of_question q.question_id) assignments in
    let asked = with_stats q.questioner (tally_ask ask_pool q) stats in
    let asked_total =
      total_raw-with_stats q.questioner (tally_ask ask_pool q) (pay ask_pool q.share) (λ s. refl)
        stats in
    let answered_total = total_raw-tally_answers answer_pool answers asked in
    let rest =
      total_raw-tally_questions ask_pool answer_pool assignments questions
        (tally_answers answer_pool answers asked) a b fits.2 in
    let ask_paid = pay-le ask_pool q.share a fits.0 in
    let ask_most = mul-le-mul_left ask_pool fits.0 in
    let answers_paid = paid-le answer_pool answers b fits.1 in
    let answers_most = mul-le-mul_left answer_pool fits.1 in
    omega (arith, asked_total, answered_total, rest, ask_paid, ask_most, answers_paid, answers_most)

one_at_least : (n : ℕ) → 1 ≤ suc n
one_at_least n = omega arith

-- If the shares of each question and of its answers make up at most 1.0, and the pool is below 2 ^ 36,
-- the raw rewards of all workers total at most the pool.
pub compute_stats-le :
    (total_reward : ℕ) (questions : List Question) (assignments : List Assignment)
    → total_reward < 2 ^ 36
    → SharesFit assignments questions
    → total_raw (compute_stats total_reward questions assignments) ≤ total_reward
unfolding compute_stats
compute_stats-le total_reward [] assignments small fits = omega arith
compute_stats-le total_reward (q ∷ questions) assignments small fits =
    let base = base_reward total_reward (length (q ∷ questions)) in
    let most = div-mul-le_self total_reward (length (q ∷ questions)) in
    let part : base ≤ total_reward =
      omega (arith, most, mul-le-mul_left base (one_at_least (length questions))) in
    let sum =
      total_raw-tally_questions (base / 3) (base - base / 3) assignments (q ∷ questions) []
        (omega (arith, part, small)) (omega (arith, part, small)) fits in
    let whole : base / 3 + (base - base / 3) ≡ base = omega arith in
    omega (arith, sum, most, ap (λ (t : ℕ). length (q ∷ questions) * t) whole)
