-- ===== src/Service/Settlement/Payout.antt =====
-- The composite scores and the final rewards.
use subnet_benchmark.Prelude.{
  ℕ, ◌+◌, ◌*◌, ◌^◌, ◌≤◌, ◌<◌, arith, ltb, ltb→lt, leb, inl, inr, Bool-cases,
}
use subnet_benchmark.Model.{Fraction}
use subnet_benchmark.Float64.{of_int, times, divided, plus}
use subnet_benchmark.Float64.Bounds.{
  B, AtMost, of_int-AtMost, times-AtMost, plus-AtMost, round-AtMost, average-AtMost, truncate-le,
}
use subnet_benchmark.Service.Settlement.{MinerStats, average, composite_score, final_reward}

-- Statistics of at most `n` tasks with scores up to 5.
pub record WellScored (n : ℕ) (s : MinerStats) : Type 0 where
  pub tasks : s.scored_asks + (s.scored_answers + s.timed_out_answers) ≤ n
  pub ask_scores : s.ask_score_sum ≤ 5 * s.scored_asks
  pub answer_scores : s.answer_score_sum ≤ 5 * (s.scored_answers + s.timed_out_answers)

mean-AtMost :
    (n total count : ℕ)
    → n < 2 ^ 50
    → count ≤ n
    → total ≤ 5 * count
    → 0 < count
    → AtMost B (5 * (B + 1)) (average total count)
mean-AtMost n total count small most scores some_ =
    average-AtMost 5 total count some_ (omega (arith, small, most)) (omega arith)
      (omega (arith, small, most, scores)) scores

-- A tenth of one average is at most 1.0, up to rounding.
tenth-AtMost :
    (x : Fraction)
    → AtMost B (5 * (B + 1)) x
    → AtMost
        (B * (B * B))
        ((B + 1) * ((B + 1) * (B + 1)))
        (divided x (record { num = 10; den = 1 }))
unfolding divided
tenth-AtMost x h =
    let rounded =
      round-AtMost (x.num * 1) (x.den * 10) B (B + 1) (omega (arith, h.positive)) (omega arith)
        (omega arith) (omega (arith, h.bounded)) in
    record { positive = rounded.positive; bounded = omega (arith, rounded.bounded) }

both-AtMost :
    (x y : Fraction)
    → AtMost B (5 * (B + 1)) x
    → AtMost B (5 * (B + 1)) y
    → AtMost
        (B * (B * B))
        ((B + 1) * ((B + 1) * (B + 1)))
        (divided (plus x y) (record { num = 10; den = 1 }))
unfolding divided
both-AtMost x y hx hy =
    let sum = plus-AtMost B (5 * (B + 1)) x y hx hy (omega arith) (omega arith) in
    let z = plus x y in
    let rounded =
      round-AtMost (z.num * 1) (z.den * 10) (B * B) ((B + 1) * (B + 1))
        (omega (arith, sum.positive)) (omega arith) (omega arith) (omega (arith, sum.bounded)) in
    record { positive = rounded.positive; bounded = omega (arith, rounded.bounded) }

zero-AtMost : (C K : ℕ) → AtMost C K (record { num = 0; den = 1 })
zero-AtMost C K = record { positive = omega arith; bounded = omega arith }

composite-AtMost :
    (n : ℕ) (s : MinerStats)
    → n < 2 ^ 50
    → WellScored n s
    → AtMost (B * (B * B)) ((B + 1) * ((B + 1) * (B + 1))) (composite_score s)
unfolding composite_score
composite-AtMost n s small h =
    let count = s.scored_answers + s.timed_out_answers in
    let asks =
      mean-AtMost n s.ask_score_sum s.scored_asks small (omega (arith, h.tasks)) h.ask_scores in
    let answers =
      mean-AtMost n s.answer_score_sum count small (omega (arith, h.tasks)) h.answer_scores in
    elim (Bool-cases (ltb 0 s.scored_asks)) [
      | inl asked ↦ elim (Bool-cases (ltb 0 count)) [
        | inl answered ↦
            rw (asked, answered)
              (both-AtMost _ _ (asks (ltb→lt _ _ asked)) (answers (ltb→lt _ _ answered)))
        | inr silent ↦ rw (asked, silent) (tenth-AtMost _ (asks (ltb→lt _ _ asked)))
      ]
      | inr not_asked ↦ elim (Bool-cases (ltb 0 count)) [
        | inl answered ↦ rw (not_asked, answered) (tenth-AtMost _ (answers (ltb→lt _ _ answered)))
        | inr silent ↦ rw (not_asked, silent) (zero-AtMost _ _)
      ]
    ]

-- The composite score takes nothing from the pool: a final reward is at most the raw one.
pub final_reward-le :
    (n min_tasks : ℕ) (s : MinerStats)
    → n < 2 ^ 50
    → s.raw_reward < 2 ^ 36
    → WellScored n s
    → final_reward min_tasks s ≤ s.raw_reward
unfolding final_reward
final_reward-le n min_tasks s small raw h =
    elim (Bool-cases (leb min_tasks (s.scored_asks + s.scored_answers))) [
      | inl enough ↦
          let product =
            times-AtMost 1 (B * (B * B)) s.raw_reward ((B + 1) * ((B + 1) * (B + 1)))
              (of_int s.raw_reward) (composite_score s)
              (of_int-AtMost s.raw_reward (omega (arith, raw))) (composite-AtMost n s small h)
              (omega arith) (omega (arith, raw)) in
          let cut = truncate-le _ _ (times (of_int s.raw_reward) (composite_score s)) product in
          rw enough (omega (arith, cut, raw))
      | inr few ↦ rw few (omega arith)
    ]
