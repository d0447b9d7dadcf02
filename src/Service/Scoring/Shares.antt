-- ===== src/Service/Scoring/Shares.antt =====
-- What the scores pay: the shares that are stored for the answers to a question.
use subnet_benchmark.Prelude.{
  ℕ, zero, suc, ◌+◌, ◌*◌, ◌≤◌, ◌≡◌, refl, ◌∙◌, Bool, true, List, [], ◌∷◌, ◌++◌, Perm, String, arith,
  length, inl, inr, Bool-cases, ◌==◌, ==_iff, ltb,
}
use subnet_benchmark.Model.{Assignment, Fraction, to_numeric}
use subnet_benchmark.Store.Rows.{select, count_rows}
use subnet_benchmark.Store.Counting.{length-select, count_rows-le-length}
use subnet_benchmark.Service.Scoring.{
  AnswerScore, Group, group_replies, winners, loser_rows, has_id_of, max_size, award, one_of,
  nothing, majority_scores, compute_scores,
}
use subnet_benchmark.Service.Scoring.Groups.{
  is_read, members-group_replies, members-perm, winners-losers,
}
use subnet_benchmark.Service.Scoring.Coverage.{right, not_right, refused}

-- What the SetAssignmentScore statements store in the share columns, summed.
unfoldable pub stored_total : List AnswerScore → ℕ
stored_total [] = 0
stored_total (s ∷ scores) = to_numeric s.share + stored_total scores

stored_total-append :
    (xs ys : List AnswerScore) → stored_total (xs ++ ys) ≡ stored_total xs + stored_total ys
unfolding stored_total
stored_total-append [] ys = omega arith
stored_total-append (x ∷ xs) ys = omega (arith, stored_total-append xs ys)

stored_total-award :
    (score : ℕ) (share : Fraction) (rows : List Assignment)
    → stored_total (award score share rows) ≡ length rows * to_numeric share
unfolding stored_total award
stored_total-award score share [] = omega arith
stored_total-award score share (a ∷ rows) = omega (arith, stored_total-award score share rows)

stored_total-nothing :
    (score : ℕ) (rows : List Assignment) → stored_total (award score nothing rows) ≡ 0
stored_total-nothing score rows =
    stored_total-award score nothing rows ∙ unfold to_numeric in omega arith

-- A whole pool in up to five equal parts, each rounded to a ten-thousandth.
split_fits : (n : ℕ) → n ≤ 5 → n * to_numeric (one_of n) ≤ 10000
unfolding to_numeric
split_fits zero h = omega arith
split_fits (suc zero) h = omega arith
split_fits (suc (suc zero)) h = omega arith
split_fits (suc (suc (suc zero))) h = omega arith
split_fits (suc (suc (suc (suc zero)))) h = omega arith
split_fits (suc (suc (suc (suc (suc zero))))) h = omega arith
split_fits (suc (suc (suc (suc (suc (suc n)))))) h = absurd (omega arith)

all_rows : (rows : List Assignment) → count_rows (λ a. true) rows ≡ length rows
unfolding count_rows
all_rows [] = refl
all_rows (a ∷ rows) = omega (arith, all_rows rows)

length-winners-le :
    (walk : List Group → List Group) (replied : List Assignment) (size : ℕ)
    → ((groups : List Group) → Perm (walk groups) groups)
    → length (winners size (walk (group_replies replied))) ≤ length replied
length-winners-le walk replied size order = omega (
  arith,
  all_rows (winners size (walk (group_replies replied))),
  winners-losers (λ a. true) size (walk (group_replies replied)),
  members-perm (λ a. true) (order (group_replies replied)),
  members-group_replies (λ a. true) replied,
  count_rows-le-length (λ a. is_read a) replied,
)

length-select-le :
    (test : Assignment → Bool) (rows : List Assignment) → length (select test rows) ≤ length rows
length-select-le test rows = omega (arith, length-select test rows, count_rows-le-length test rows)

majority_total :
    (walk : List Group → List Group) (replied : List Assignment)
    → ((groups : List Group) → Perm (walk groups) groups)
    → length replied ≤ 5
    → stored_total (majority_scores walk replied) ≤ 10000
unfolding majority_scores
majority_total walk replied order few =
    let groups = walk (group_replies replied) in
    let size = max_size 0 groups in
    let won = winners size groups in
    let lost = select (has_id_of (loser_rows size groups)) replied in
    rw
      (
        stored_total-append (award 5 (one_of (length won)) won) (award 2 nothing lost),
        stored_total-award 5 (one_of (length won)) won,
        stored_total-nothing 2 lost,
      )
      (omega
        (arith, split_fits (length won) (omega (arith, length-winners-le walk replied size order))))

-- With at most five replies, whatever they say, the shares that are stored for the answers of a
-- question total at most 1.0. The groups are walked in any order, each once.
pub stored_total-le :
    (walk : List Group → List Group) (method reference : String) (replied : List Assignment)
    → ((groups : List Group) → Perm (walk groups) groups)
    → length replied ≤ 5
    → stored_total (compute_scores walk method reference replied).answer_scores ≤ 10000
unfolding compute_scores
stored_total-le walk method reference replied order few =
    let yes_rows = right method reference replied in
    let no_rows = not_right method reference replied in
    let out_rows = refused method reference replied in
    elim (Bool-cases (ltb 0 (length yes_rows))) [
      | inl some_right ↦
          rw
            (
              some_right,
              stored_total-append (award 5 (one_of (length yes_rows)) yes_rows)
                  (award 3 nothing no_rows ++ award 2 nothing out_rows),
              stored_total-append (award 3 nothing no_rows) (award 2 nothing out_rows),
              stored_total-award 5 (one_of (length yes_rows)) yes_rows,
              stored_total-nothing 3 no_rows,
              stored_total-nothing 2 out_rows,
            )
            (omega
              (arith, split_fits (length yes_rows) (omega (arith, length-select-le _ replied))))
      | inr none_right ↦ elim (Bool-cases (length out_rows == length replied)) [
        | inl all_out ↦
            rw (none_right, all_out, stored_total-award 5 (one_of (length replied)) out_rows)
              (rw ((==_iff (length out_rows) (length replied)).0 all_out)
                (split_fits (length replied) few))
        | inr mixed ↦ rw (none_right, mixed) (majority_total walk replied order few)
      ]
    ]
