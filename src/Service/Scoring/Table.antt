-- ===== src/Service/Scoring/Table.antt =====
-- The tables of docs/protocol.md for scores and shares, and the verdicts that they count.
use subnet_benchmark.Prelude.{
  ℕ, ◌≤◌, ◌<◌, ◌≡◌, refl, ◌∙◌, ◌⊎◌, inl, inr, Bool, true, false, ◌&&◌, not, List, [], ◌∷◌, ◌++◌,
  All, Option, none, some, String, str_eq, arith, length, Bool-cases, ◌==◌, ==_iff, if◌then◌else◌,
}
use subnet_benchmark.Model.{Assignment, Fraction, to_numeric}
use subnet_benchmark.Store.Rows.{select, count_rows}
use subnet_benchmark.Store.Counting.{length-select}
use subnet_benchmark.Service.Scoring.{
  AnswerScore, verdict, verdict_of, check_answer, deref, is_correct, is_wrong, is_invalid, award,
  one_of, nothing, questioner_case3_score,
}

-- What a reply says: that the question is valid, with this answer, or that it is invalid.
abbrev judges_valid : Option Bool → Bool
judges_valid none = false
judges_valid (some valid) = valid

abbrev judges_invalid : Option Bool → Bool
judges_invalid none = false
judges_invalid (some valid) = not valid

abbrev text_of : Option String → String
text_of none = ""
text_of (some text) = text

abbrev pub is_right : String → Assignment → Bool
is_right reference a = judges_valid a.reply_valid && str_eq reference (text_of a.reply_answer)

abbrev pub is_other : String → Assignment → Bool
is_other reference a = judges_valid a.reply_valid && not (str_eq reference (text_of a.reply_answer))

abbrev pub is_refusal : Assignment → Bool
is_refusal a = judges_invalid a.reply_valid

-- The score of the questioner and its stored share, in ten-thousandths, by the number of correct
-- answers.
pub data Reward : ℕ → ℕ → ℕ → Type 0 where
  one : Reward 1 5 10000
  two : Reward 2 5 9000
  three : Reward 3 4 7000
  four : Reward 4 3 5000
  more : (n : ℕ) → 5 ≤ n → Reward n 2 1000

-- From the numbers of correct, wrong and invalid verdicts and of all replies: the score and the share
-- of the question, and how many answers get the scores 5, 3 and 2.
pub data Table : ℕ → ℕ → ℕ → ℕ → ℕ → ℕ → ℕ → ℕ → ℕ → Type 0 where
  some_correct :
      (correct wrong invalid replies score share : ℕ)
      → 0 < correct
      → Reward correct score share
      → Table correct wrong invalid replies score share correct wrong invalid
  all_invalid : (wrong replies : ℕ) → Table 0 wrong replies replies 0 0 replies 0 0
  none_correct :
      (wrong invalid replies best lost : ℕ)
      → invalid < replies
      → Table 0 wrong invalid replies 1 1000 best 0 lost

abbrev pub with_score : ℕ → List AnswerScore → ℕ
with_score n scores = count_rows (λ s. s.score == n) scores

-- The answers with the score 5 share alike, and the others get nothing.
abbrev pub Shared : ℕ → AnswerScore → Type 0
Shared best s =
    ((s.score ≡ 5) × (s.share ≡ record { num = 1; den = best }))
    ⊎ (¬ (s.score ≡ 5) × (to_numeric s.share ≡ 0))

module _ {A : Type 0} (p q : A → Bool) (same : (a : A) → p a ≡ q a) where
  count_rows_ext : (rows : List A) → count_rows p rows ≡ count_rows q rows
  unfolding count_rows
  count_rows_ext [] = refl
  count_rows_ext (a ∷ rows) = rw (same a, count_rows_ext rows) refl

  pub length-select_ext : (rows : List A) → length (select p rows) ≡ count_rows q rows
  length-select_ext rows = length-select p rows ∙ count_rows_ext rows

deref-text_of : (o : Option String) → deref o ≡ text_of o
unfolding deref
deref-text_of none = refl
deref-text_of (some s) = refl

correct_lem : (v : Option Bool) (r : Bool) → is_correct (verdict_of v r) ≡ (judges_valid v && r)
correct_lem none r = refl
correct_lem (some false) r = refl
correct_lem (some true) true = refl
correct_lem (some true) false = refl

wrong_lem : (v : Option Bool) (r : Bool) → is_wrong (verdict_of v r) ≡ (judges_valid v && not r)
wrong_lem none r = refl
wrong_lem (some false) r = refl
wrong_lem (some true) true = refl
wrong_lem (some true) false = refl

module _ (method reference : String) where
  pub right-is_right :
      (a : Assignment) → is_correct (verdict method reference a) ≡ is_right reference a
  unfolding verdict check_answer
  right-is_right a = rw (deref-text_of a.reply_answer) (correct_lem a.reply_valid _)

  pub wrong-is_other :
      (a : Assignment) → is_wrong (verdict method reference a) ≡ is_other reference a
  unfolding verdict check_answer
  wrong-is_other a = rw (deref-text_of a.reply_answer) (wrong_lem a.reply_valid _)

  pub invalid-is_refusal : (a : Assignment) → is_invalid (verdict method reference a) ≡ is_refusal a
  unfolding verdict
  invalid-is_refusal a = ground arith

pub with_score-award :
    (n score : ℕ) (share : Fraction) (rows : List Assignment)
    → with_score n (award score share rows) ≡ (if score == n then length rows else 0)
unfolding award count_rows
with_score-award n score share [] = ground arith
with_score-award n score share (a ∷ rows) = ground (arith, with_score-award n score share rows)

pub award-Shared :
    (score : ℕ) (share : Fraction) (best : ℕ) (rows : List Assignment)
    → ((score ≡ 5) × (share ≡ one_of best)) ⊎ (¬ (score ≡ 5) × (to_numeric share ≡ 0))
    → All (Shared best) (award score share rows)
unfolding award
award-Shared score share best [] h = tt
award-Shared score share best (a ∷ rows) h = (h, award-Shared score share best rows h)

pub All-append :
    {A : Type 0} (P : A → Type 0) (xs ys : List A) → All P xs → All P ys → All P (xs ++ ys)
All-append P [] ys hx hy = hy
All-append P (x ∷ xs) ys hx hy = (hx.0, All-append P xs ys hx.1 hy)

pub nothing-stored : to_numeric nothing ≡ 0
unfolding to_numeric
nothing-stored = omega arith

pub case3-Reward :
    (n : ℕ)
    → 0 < n
    → Reward n (questioner_case3_score n).0 (to_numeric (questioner_case3_score n).1)
unfolding questioner_case3_score to_numeric
case3-Reward n h = elim (Bool-cases (n == 1)) [
  | inl e ↦ rw ((==_iff n 1).0 e) Reward.one
  | inr a ↦ elim (Bool-cases (n == 2)) [
    | inl e ↦ rw ((==_iff n 2).0 e) Reward.two
    | inr b ↦ elim (Bool-cases (n == 3)) [
      | inl e ↦ rw ((==_iff n 3).0 e) Reward.three
      | inr c ↦ elim (Bool-cases (n == 4)) [
        | inl e ↦ rw ((==_iff n 4).0 e) Reward.four
        | inr d ↦ rw (a, b, c, d) (Reward.more n (ground (arith, a, b, c, d, h)))
      ]
    ]
  ]
]
