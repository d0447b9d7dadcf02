-- ===== src/Service/Settlement/Pool.antt =====
-- The final rewards of an epoch, added up.
use subnet_benchmark.Prelude.{
  All, ℕ, suc, ◌+◌, ◌-◌, ◌*◌, ◌/◌, ◌^◌, ◌≤◌, ◌<◌, ◌≡◌, refl, Bool, true, List, [], ◌∷◌, String,
  str_eq, arith, length, inl, inr, Bool-cases,
}
use subnet_benchmark.Model.{Question, Assignment, AssignmentStatus, is_timed_out}
use subnet_benchmark.Store.Rows.{select}
use subnet_benchmark.Store.Counting.{length-select, count_rows-le-length}
use subnet_benchmark.Store.Epochs.{is_scored, is_final}
use subnet_benchmark.Store.Assignments.{of_question}
use subnet_benchmark.Service.Settlement.{
  MinerStats, no_stats, with_stats, tally_ask, tally_answer, tally_answers, tally_questions,
  compute_stats, base_reward, final_reward, one_if,
}
use subnet_benchmark.Service.Settlement.Totals.{total_raw, SharesFit, compute_stats-le}
use subnet_benchmark.Service.Settlement.Payout.{WellScored, final_reward-le}

module _ (P Q : MinerStats → Type 0) (address : String) (change : MinerStats → MinerStats) where
  with_stats-All :
      ((s : MinerStats) → P s → Q s)
      → ((s : MinerStats) → P s → Q (change s))
      → P (no_stats address)
      → (stats : List MinerStats) → All P stats
      → All Q (with_stats address change stats)
  unfolding with_stats
  with_stats-All keep step new [] h = (step (no_stats address) new, tt)
  with_stats-All keep step new (s ∷ stats) h = elim (Bool-cases (str_eq s.address address)) [
    | inl it ↦ rw it (step s h.0, All-map stats h.1)
    | inr other ↦ rw other (keep s h.0, with_stats-All keep step new stats h.1)
  ]
    where
      All-map : (rest : List MinerStats) → All P rest → All Q rest
      All-map [] k = tt
      All-map (r ∷ rest) k = (keep r k.0, All-map rest k.1)

select-All {ℓ κ} :
    {A : Type ℓ} (P : A → Type κ) (test : A → Bool) (xs : List A)
    → All P xs
    → All P (select test xs)
unfolding select
select-All P test [] h = tt
select-All P test (x ∷ xs) h = elim (Bool-cases (test x)) [
  | inl kept ↦ rw kept (h.0, select-All P test xs h.1)
  | inr dropped ↦ rw dropped (select-All P test xs h.1)
]

-- A score of at most 5, and for an answer a status that a settlement reads.
abbrev pub FairQuestion : Question → Type 0
FairQuestion q = q.score ≤ 5

abbrev pub FairAnswer : Assignment → Type 0
FairAnswer a = (a.score ≤ 5) × (is_final a.status ≡ true)

weaker : (n m : ℕ) → n ≤ m → (s : MinerStats) → WellScored n s → WellScored m s
weaker n m le s h = record {
  tasks = omega (arith, h.tasks, le);
  ask_scores = h.ask_scores;
  answer_scores = h.answer_scores;
}

new-WellScored : (n : ℕ) (address : String) → WellScored n (no_stats address)
new-WellScored n address = record {
  tasks = omega arith;
  ask_scores = omega arith;
  answer_scores = omega arith;
}

ask-WellScored :
    (n pool : ℕ) (q : Question)
    → FairQuestion q
    → (s : MinerStats) → WellScored n s
    → WellScored (n + 1) (tally_ask pool q s)
ask-WellScored n pool q fair s h = record {
  tasks = omega (arith, h.tasks);
  ask_scores = omega (arith, h.ask_scores, fair);
  answer_scores = h.answer_scores;
}

counted_once :
    (s : AssignmentStatus) → is_final s ≡ true → one_if (is_scored s) + one_if (is_timed_out s) ≡ 1
counted_once AssignmentStatus.claimed h = cc
counted_once AssignmentStatus.replied h = cc
counted_once AssignmentStatus.scored h = refl
counted_once AssignmentStatus.timed_out h = refl

answer-WellScored :
    (n pool : ℕ) (a : Assignment)
    → FairAnswer a
    → (s : MinerStats) → WellScored n s
    → WellScored (n + 1) (tally_answer pool a s)
answer-WellScored n pool a fair s h =
    let once = counted_once a.status fair.1 in
    record {
      tasks = omega (arith, h.tasks, once);
      ask_scores = h.ask_scores;
      answer_scores = omega (arith, h.answer_scores, fair.0, once);
    }

tally_answers-WellScored :
    (pool : ℕ) (assignments : List Assignment) (n : ℕ) (stats : List MinerStats)
    → All FairAnswer assignments
    → All (WellScored n) stats
    → All (WellScored (n + length assignments)) (tally_answers pool assignments stats)
unfolding tally_answers
tally_answers-WellScored pool [] n stats fair h = rw (same n) h
  where
    same : (k : ℕ) → k + 0 ≡ k
    same k = omega arith
tally_answers-WellScored pool (a ∷ assignments) n stats fair h =
    let one =
      with_stats-All (WellScored n) (WellScored (n + 1)) a.worker (tally_answer pool a)
        (λ s k. weaker n (n + 1) (omega arith) s k) (answer-WellScored n pool a fair.0)
        (new-WellScored n a.worker) stats h in
    let all =
      tally_answers-WellScored pool assignments (n + 1)
        (with_stats a.worker (tally_answer pool a) stats) fair.1 one in
    let e : n + suc (length assignments) ≡ n + 1 + length assignments = omega arith in rw e all

All-weaker :
    (n m : ℕ)
    → n ≤ m
    → (stats : List MinerStats) → All (WellScored n) stats
    → All (WellScored m) stats
All-weaker n m le [] h = tt
All-weaker n m le (s ∷ stats) h = (weaker n m le s h.0, All-weaker n m le stats h.1)

tally_questions-WellScored :
    (ask_pool answer_pool : ℕ) (assignments : List Assignment) (questions : List Question) (n : ℕ)
    (stats : List MinerStats)
    → All FairQuestion questions
    → All FairAnswer assignments
    → All (WellScored n) stats
    → All
        (WellScored (n + length questions * suc (length assignments)))
        (tally_questions ask_pool answer_pool assignments questions stats)
unfolding tally_questions
tally_questions-WellScored ask_pool answer_pool assignments [] n stats fq fa h =
    All-weaker n (n + 0 * suc (length assignments)) (omega arith) stats h
tally_questions-WellScored ask_pool answer_pool assignments (q ∷ questions) n stats fq fa h =
    let answers = select (of_question q.question_id) assignments in
    let asked = with_stats q.questioner (tally_ask ask_pool q) stats in
    let one =
      with_stats-All (WellScored n) (WellScored (n + 1)) q.questioner (tally_ask ask_pool q)
        (λ s k. weaker n (n + 1) (omega arith) s k) (ask-WellScored n ask_pool q fq.0)
        (new-WellScored n q.questioner) stats h in
    let all =
      tally_answers-WellScored answer_pool answers (n + 1) asked
        (select-All FairAnswer (of_question q.question_id) assignments fa) one in
    let count = length-select (of_question q.question_id) assignments in
    let most = count_rows-le-length (of_question q.question_id) assignments in
    let m = n + suc (length assignments) in
    let there =
      All-weaker (n + 1 + length answers) m (omega (arith, count, most))
        (tally_answers answer_pool answers asked) all in
    let rest =
      tally_questions-WellScored ask_pool answer_pool assignments questions m
        (tally_answers answer_pool answers asked) fq.1 fa there in
    All-weaker (m + length questions * suc (length assignments))
      (n + suc (length questions) * suc (length assignments)) (omega arith)
      (tally_questions ask_pool answer_pool assignments questions
        (tally_answers answer_pool answers asked))
      rest

abbrev pub total_final : ℕ → List MinerStats → ℕ
total_final min_tasks [] = 0
total_final min_tasks (s ∷ stats) = final_reward min_tasks s + total_final min_tasks stats

total_final-le-raw :
    (n min_tasks : ℕ) (stats : List MinerStats)
    → n < 2 ^ 50
    → total_raw stats < 2 ^ 36
    → All (WellScored n) stats
    → total_final min_tasks stats ≤ total_raw stats
total_final-le-raw n min_tasks [] small raw h = omega arith
total_final-le-raw n min_tasks (s ∷ stats) small raw h = omega (
  arith,
  final_reward-le n min_tasks s small (omega (arith, raw)) h.0,
  total_final-le-raw n min_tasks stats small (omega (arith, raw)) h.1,
)

-- The final rewards of an epoch total at most its pool, if the pool is below 2 ^ 36, there are fewer
-- than 2 ^ 50 tasks, all scores are at most 5, and the shares of each question and of its answers
-- make up at most 1.0.
pub total_final-le :
    (total_reward min_tasks : ℕ) (questions : List Question) (assignments : List Assignment)
    → total_reward < 2 ^ 36
    → length questions * suc (length assignments) < 2 ^ 50
    → SharesFit assignments questions
    → All FairQuestion questions
    → All FairAnswer assignments
    → total_final min_tasks (compute_stats total_reward questions assignments) ≤ total_reward
total_final-le total_reward min_tasks questions assignments small few fits fq fa =
    let raw = compute_stats-le total_reward questions assignments small fits in
    let base = base_reward total_reward (length questions) in
    let well =
      tally_questions-WellScored (base / 3) (base - base / 3) assignments questions 0 [] fq fa tt in
    let final =
      total_final-le-raw (0 + length questions * suc (length assignments)) min_tasks
        (compute_stats total_reward questions assignments) (omega (arith, few))
        (omega (arith, raw, small)) (unfold compute_stats in well) in
    omega (arith, raw, final)
