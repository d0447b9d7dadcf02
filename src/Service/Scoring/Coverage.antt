-- ===== src/Service/Scoring/Coverage.antt =====
-- How often computeScores of internal/service/scoring.go scores a reply.
use subnet_benchmark.Prelude.{
  ℕ, ◌+◌, ◌≤◌, ◌≡◌, refl, true, ◌&&◌, List, [], ◌∷◌, ◌++◌, Perm, String, arith, length, inl, inr,
  Bool-cases, if◌then◌else◌, ◌==◌, ==_iff, ltb,
}
use subnet_benchmark.Model.{Assignment}
use subnet_benchmark.Store.Rows.{select, count_rows}
use subnet_benchmark.Store.Counting.{count_rows-append, count_rows_mono}
use subnet_benchmark.Store.Assignments.{has_id}
use subnet_benchmark.Service.Scoring.{
  Group, verdict, is_correct, is_wrong, is_invalid, group_replies, winners, loser_rows, has_id_of,
  max_size, award, one_of, nothing, majority_scores, compute_scores,
}
use subnet_benchmark.Service.Scoring.Groups.{
  is_read, scores_id, count-award, members-group_replies, members-perm, winners-losers,
  count-select_losers,
}

module _ (method reference : String) where
  abbrev pub right : List Assignment → List Assignment
  right = select (λ a. is_correct (verdict method reference a))

  abbrev pub not_right : List Assignment → List Assignment
  not_right = select (λ a. is_wrong (verdict method reference a))

  abbrev pub refused : List Assignment → List Assignment
  refused = select (λ a. is_invalid (verdict method reference a))

  one_verdict :
      (a : Assignment)
      → (if is_correct (verdict method reference a) then 1 else 0)
          + (if is_wrong (verdict method reference a) then 1 else 0)
          + (if is_invalid (verdict method reference a) then 1 else 0)
        ≡ (if is_read a then 1 else 0)
  unfolding verdict
  one_verdict a = ground arith

  -- A reply that was read has one of the three verdicts.
  count-verdicts :
      (i : ℕ) (rows : List Assignment)
      → count_rows (has_id i) (right rows)
          + count_rows (has_id i) (not_right rows)
          + count_rows (has_id i) (refused rows)
        ≡ count_rows (λ a. has_id i a && is_read a) rows
  unfolding count_rows select
  count-verdicts i [] = refl
  count-verdicts i (a ∷ rows) = ground (arith, one_verdict a, count-verdicts i rows)

  refused_read :
      (a : Assignment) → is_invalid (verdict method reference a) ≡ true → is_read a ≡ true
  unfolding verdict
  refused_read a e = ground arith

  length-refused-le : (rows : List Assignment) → length (refused rows) ≤ length rows
  unfolding select
  length-refused-le [] = omega arith
  length-refused-le (a ∷ rows) = ground (arith, length-refused-le rows)

  -- Replies that are all refusals have been read, every one.
  all_refused :
      (i : ℕ) (rows : List Assignment)
      → length (refused rows) ≡ length rows
      → count_rows (has_id i) (refused rows) ≡ count_rows (λ a. has_id i a && is_read a) rows
  unfolding count_rows select
  all_refused i [] e = refl
  all_refused i (a ∷ rows) e =
      ground (arith, refused_read a, length-refused-le rows, all_refused i rows)

-- Case 2: a winner or a loser, where the identifiers of the replies are distinct.
majority-count :
    (walk : List Group → List Group) (replied : List Assignment) (i : ℕ)
    → ((groups : List Group) → Perm (walk groups) groups)
    → count_rows (has_id i) replied ≤ 1
    → count_rows (scores_id i) (majority_scores walk replied)
      ≡ count_rows (λ a. has_id i a && is_read a) replied
unfolding majority_scores
majority-count walk replied i order distinct =
    let groups = walk (group_replies replied) in
    let size = max_size 0 groups in
    let won = winners size groups in
    let lost = loser_rows size groups in
    rw
      (
        count_rows-append (scores_id i) (award 5 (one_of (length won)) won)
            (award 2 nothing (select (has_id_of lost) replied)),
        count-award i 5 (one_of (length won)) won,
        count-award i 2 nothing (select (has_id_of lost) replied),
        count-select_losers i lost replied,
      )
      (ground (
        arith,
        winners-losers (has_id i) size groups,
        members-perm (has_id i) (order (group_replies replied)),
        members-group_replies (has_id i) replied,
        count_rows_mono (λ a. has_id i a && is_read a) (has_id i) replied (λ a h. ground arith),
      ))

-- Whatever the case, a reply that was read gets exactly one score, and no other row gets any, where
-- at most one reply has the identifier. The groups are walked in any order, each once.
pub compute_scores-count :
    (walk : List Group → List Group) (method reference : String) (replied : List Assignment) (i : ℕ)
    → ((groups : List Group) → Perm (walk groups) groups)
    → count_rows (has_id i) replied ≤ 1
    → count_rows (scores_id i) (compute_scores walk method reference replied).answer_scores
      ≡ count_rows (λ a. has_id i a && is_read a) replied
unfolding compute_scores
compute_scores-count walk method reference replied i order distinct =
    let yes_rows = right method reference replied in
    let no_rows = not_right method reference replied in
    let out_rows = refused method reference replied in
    elim (Bool-cases (ltb 0 (length yes_rows))) [
      | inl some_right ↦
          rw
            (
              some_right,
              count_rows-append (scores_id i) (award 5 (one_of (length yes_rows)) yes_rows)
                  (award 3 nothing no_rows ++ award 2 nothing out_rows),
              count_rows-append (scores_id i) (award 3 nothing no_rows) (award 2 nothing out_rows),
              count-award i 5 (one_of (length yes_rows)) yes_rows,
              count-award i 3 nothing no_rows,
              count-award i 2 nothing out_rows,
            )
            (omega (arith, count-verdicts method reference i replied))
      | inr none_right ↦ elim (Bool-cases (length out_rows == length replied)) [
        | inl all_out ↦
            rw (none_right, all_out, count-award i 5 (one_of (length replied)) out_rows)
              (all_refused method reference i replied ((==_iff _ _).0 all_out))
        | inr mixed ↦ rw (none_right, mixed) (majority-count walk replied i order distinct)
      ]
    ]
