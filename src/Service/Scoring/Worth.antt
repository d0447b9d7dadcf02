-- ===== src/Service/Scoring/Worth.antt =====
-- computeScores of internal/service/scoring.go: the scores of a question and of its replies, by the
-- tables of docs/protocol.md.
use subnet_benchmark.Prelude.{ℕ, ◌≡◌, List, ◌++◌, All, String, length}
use subnet_benchmark.Model.{Assignment, to_numeric}
use subnet_benchmark.Store.Rows.{select, count_rows}
use subnet_benchmark.Service.Scoring.{
  AnswerScore, Group, Scores, group_replies, winners, loser_rows, has_id_of, max_size, award,
  one_of, nothing,
}
use subnet_benchmark.Service.Scoring.Coverage.{right, not_right, refused}
use subnet_benchmark.Service.Scoring.Table.{
  is_right, is_other, is_refusal, Table, with_score, Shared,
}

-- The scores of a question and of its answers, by the table; `best` of the answers get a score of 5.
pub record Scored (reference : String) (replied : List Assignment) (s : Scores) : Type 0 where
  pub best : ℕ
  pub lost : ℕ
  pub beaten : ℕ
  pub table :
      Table
        (count_rows (is_right reference) replied)
        (count_rows (is_other reference) replied)
        (count_rows is_refusal replied)
        (length replied)
        s.question_score
        (to_numeric s.question_share)
        best
        beaten
        lost
  pub fives : with_score 5 s.answer_scores ≡ best
  pub threes : with_score 3 s.answer_scores ≡ beaten
  pub twos : with_score 2 s.answer_scores ≡ lost
  pub shares : All (Shared best) s.answer_scores
  pub rate :
      s.pass_rate ≡ record { num = count_rows (is_right reference) replied; den = length replied }

module _ (walk : List Group → List Group) (method reference : String)
    (replied : List Assignment) where
  abbrev yes_rows : List Assignment
  yes_rows = right method reference replied

  abbrev no_rows : List Assignment
  no_rows = not_right method reference replied

  abbrev out_rows : List Assignment
  out_rows = refused method reference replied

  abbrev case3_scores : List AnswerScore
  case3_scores =
      award 5 (one_of (length yes_rows)) yes_rows
      ++ (award 3 nothing no_rows ++ award 2 nothing out_rows)

  -- The largest groups, by the code.
  abbrev won : List Assignment
  won = winners (max_size 0 (walk (group_replies replied))) (walk (group_replies replied))

  abbrev outvoted : List Assignment
  outvoted =
      select
        (has_id_of
          (loser_rows (max_size 0 (walk (group_replies replied))) (walk (group_replies replied))))
        replied
