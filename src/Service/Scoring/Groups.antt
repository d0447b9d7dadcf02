-- ===== src/Service/Scoring/Groups.antt =====
-- How often an identifier occurs in the groups, among the winners and among the losers.
use mathlib.Core.Logic.{∥∥₁_elim}
use mathlib.Core.List.{Permᴰ}
use native.Mathlib.Nat.{ℕ_set}
use subnet_benchmark.Prelude.{
  ℕ, ◌+◌, ◌≡◌, refl, ◌∙◌, Bool, true, false, ◌&&◌, List, [], ◌∷◌, Perm, Option, none, some, String,
  arith, length, inl, inr, Bool-cases, if◌then◌else◌, ◌==◌, ltb,
}
use subnet_benchmark.Model.{Assignment, Fraction}
use subnet_benchmark.Store.Rows.{select, count_rows}
use subnet_benchmark.Store.Counting.{count_rows-append}
use subnet_benchmark.Store.Assignments.{has_id}
use subnet_benchmark.Service.Scoring.{
  AnswerScore, Group, Key, no_answer, answer_key, same_key, join, join_key, key_of, deref,
  group_key, group_replies, winners, loser_rows, has_id_of, award,
}

-- The reply carries a verdict of its worker.
abbrev pub is_read : Assignment → Bool
is_read a = elim a.reply_valid [ none ↦ false | some v ↦ true ]

abbrev pub scores_id : ℕ → AnswerScore → Bool
scores_id i s = s.id == i

abbrev pub members_with : (Assignment → Bool) → List Group → ℕ
members_with test [] = 0
members_with test (g ∷ groups) = count_rows test g.members + members_with test groups

module _ (test : Assignment → Bool) where
  members-join :
      (key : Key) (a : Assignment) (groups : List Group)
      → members_with test (join key a groups) ≡ (if test a then 1 else 0) + members_with test groups
  unfolding join count_rows
  members-join key a [] = omega arith
  members-join key a (g ∷ groups) = elim (Bool-cases (same_key g.key key)) [
    | inl e ↦ rw e (omega arith)
    | inr e ↦ rw e (omega (arith, members-join key a groups))
  ]

  members-join_key :
      (valid : Option Bool) (answer : String) (a : Assignment) (groups : List Group)
      → members_with test (join_key (key_of valid answer) a groups)
        ≡ (if test a && (elim valid [ none ↦ false | some v ↦ true ]) then 1 else 0)
          + members_with test groups
  members-join_key none answer a groups = ground arith
  members-join_key (some false) answer a groups = ground (arith, members-join no_answer a groups)
  members-join_key (some true) answer a groups =
      ground (arith, members-join (answer_key answer) a groups)

  -- Every reply that was read stands in one group, and no other does.
  pub members-group_replies :
      (rows : List Assignment)
      → members_with test (group_replies rows) ≡ count_rows (λ a. test a && is_read a) rows
  unfolding group_replies group_key count_rows
  members-group_replies [] = refl
  members-group_replies (a ∷ rows) =
      members-join_key a.reply_valid (deref a.reply_answer) a (group_replies rows)
      ∙ omega (arith, members-group_replies rows)

  members-permᴰ : {gs hs : List Group} → Permᴰ gs hs → members_with test gs ≡ members_with test hs
  members-permᴰ Permᴰ.nil = refl
  members-permᴰ (Permᴰ.cons e d) = rw e (omega (arith, members-permᴰ d))
  members-permᴰ (Permᴰ.swap e f) = rw (e, f) (omega arith)
  members-permᴰ (Permᴰ.trans d e) = members-permᴰ d ∙ members-permᴰ e

  pub members-perm : {gs hs : List Group} → Perm gs hs → members_with test gs ≡ members_with test hs
  members-perm {gs} {hs} p =
      ∥∥₁_elim p (ℕ_set (members_with test gs) (members_with test hs)) (λ d. members-permᴰ d)

  -- A group wins or loses.
  pub winners-losers :
      (size : ℕ) (groups : List Group)
      → count_rows test (winners size groups) + count_rows test (loser_rows size groups)
        ≡ members_with test groups
  unfolding winners loser_rows
  winners-losers size [] = unfold count_rows in refl
  winners-losers size (g ∷ groups) = elim (Bool-cases (length g.members == size)) [
    | inl e ↦
        rw (e, count_rows-append test g.members (winners size groups))
          (omega (arith, winners-losers size groups))
    | inr e ↦
        rw (e, count_rows-append test g.members (loser_rows size groups))
          (omega (arith, winners-losers size groups))
  ]

module _ (i : ℕ) where
  pub count-award :
      (score : ℕ) (share : Fraction) (rows : List Assignment)
      → count_rows (scores_id i) (award score share rows) ≡ count_rows (has_id i) rows
  unfolding count_rows award
  count-award score share [] = refl
  count-award score share (a ∷ rows) = ground (arith, count-award score share rows)

  has_id_of-count :
      (rows : List Assignment) (a : Assignment)
      → a.assignment_id ≡ i
      → has_id_of rows a ≡ ltb 0 (count_rows (has_id i) rows)
  unfolding has_id_of count_rows
  has_id_of-count [] a e = refl
  has_id_of-count (b ∷ rows) a e = ground (arith, has_id_of-count rows a e)

  -- The replies with an identifier of a loser.
  pub count-select_losers :
      (losers rows : List Assignment)
      → count_rows (has_id i) (select (has_id_of losers) rows)
        ≡ (if ltb 0 (count_rows (has_id i) losers) then count_rows (has_id i) rows else 0)
  unfolding select count_rows
  count-select_losers losers [] = ground arith
  count-select_losers losers (a ∷ rows) =
      ground (arith, has_id_of-count losers a, count-select_losers losers rows)
