-- ===== src/Service/Scoring.antt =====
-- internal/service/scoring.go: the scores of a question and of its replies.
pub mod Groups
pub mod Coverage
pub mod Shares
pub mod Table
pub mod Worth
pub mod Run
use subnet_benchmark.Prelude.{
  ℕ, zero, suc, Bool, true, false, List, [], ◌∷◌, ◌++◌, Option, none, some, String, str_eq, ltb,
  leb, ◌==◌, length, map, if◌then◌else◌, ◌||◌, ◌&&◌,
}
use subnet_benchmark.Model.{Assignment, Fraction}
use subnet_benchmark.Store.Rows.{select}

-- What a reply says: nothing, that the question is invalid, or an answer, right or wrong.
pub data Verdict : Type 0 where
  unread invalid correct wrong : Verdict

unfoldable pub deref : Option String → String
deref none = ""
deref (some s) = s

-- The method is not looked at: every check is for the same text.
unfoldable pub check_answer : String → String → String → Bool
check_answer method reference submitted = str_eq reference submitted

abbrev valid_verdict : Bool → Verdict
valid_verdict true = correct
valid_verdict false = wrong

abbrev verdict_of : Option Bool → Bool → Verdict
verdict_of none right = unread
verdict_of (some false) right = invalid
verdict_of (some true) right = valid_verdict right

unfoldable pub verdict : String → String → Assignment → Verdict
unfolding check_answer deref
verdict method reference a =
    verdict_of a.reply_valid (check_answer method reference (deref a.reply_answer))

abbrev pub is_correct : Verdict → Bool
is_correct correct = true
is_correct _ = false

abbrev pub is_wrong : Verdict → Bool
is_wrong wrong = true
is_wrong _ = false

abbrev pub is_invalid : Verdict → Bool
is_invalid invalid = true
is_invalid _ = false

pub record AnswerScore : Type 0 where
  pub id : ℕ
  pub score : ℕ
  pub share : Fraction

pub record Scores : Type 0 where
  pub question_score : ℕ
  pub question_share : Fraction
  pub pass_rate : Fraction
  pub answer_scores : List AnswerScore

abbrev pub tenths : ℕ → Fraction
tenths n = record { num = n; den = 10 }

-- 1.0 / float64(n)
abbrev pub one_of : ℕ → Fraction
one_of n = record { num = 1; den = n }

-- questionerCase3Score
unfoldable pub questioner_case3_score : ℕ → ℕ × Fraction
questioner_case3_score n =
    if n == 1
    then (5, tenths 10)
    else if n == 2
    then (5, tenths 9)
    else if n == 3
    then (4, tenths 7)
    else if n == 4
    then (3, tenths 5)
    else (2, tenths 1)

-- Each of the rows gets the score and the share.
unfoldable pub award : ℕ → Fraction → List Assignment → List AnswerScore
award score share [] = []
award score share (a ∷ rows) =
    record { id = a.assignment_id; score = score; share = share } ∷ award score share rows

-- The keys of the map of groups: "invalid", or "answer:" before the answer.
pub data Key : Type 0 where
  no_answer : Key
  answer_key : String → Key

abbrev pub same_key : Key → Key → Bool
same_key no_answer no_answer = true
same_key (answer_key s) (answer_key t) = str_eq s t
same_key _ _ = false

pub record Group : Type 0 where
  pub key : Key
  pub members : List Assignment

-- groups[key] = append(groups[key], a), from the last reply to the first.
unfoldable pub join : Key → Assignment → List Group → List Group
join key a [] = record { key = key; members = a ∷ [] } ∷ []
join key a (g ∷ groups) =
    let later = join key a groups in
    if same_key g.key key then record g { members = a ∷ g.members } ∷ groups else g ∷ later

abbrev key_of : Option Bool → String → Option Key
key_of none answer = none
key_of (some false) answer = some no_answer
key_of (some true) answer = some (answer_key answer)

unfoldable pub group_key : Assignment → Option Key
unfolding deref
group_key a = key_of a.reply_valid (deref a.reply_answer)

abbrev join_key : Option Key → Assignment → List Group → List Group
join_key none a groups = groups
join_key (some key) a groups = join key a groups

unfoldable pub group_replies : List Assignment → List Group
unfolding join group_key
group_replies [] = []
group_replies (a ∷ rows) = join_key (group_key a) a (group_replies rows)

unfoldable pub max_size : ℕ → List Group → ℕ
max_size best [] = best
max_size best (g ∷ groups) =
    max_size (if ltb best (length g.members) then length g.members else best) groups

unfoldable pub winners : ℕ → List Group → List Assignment
winners size [] = []
winners size (g ∷ groups) =
    let rest = winners size groups in if length g.members == size then g.members ++ rest else rest

-- The rows whose identifiers are put into the map `losers`.
unfoldable pub loser_rows : ℕ → List Group → List Assignment
loser_rows size [] = []
loser_rows size (g ∷ groups) =
    let rest = loser_rows size groups in
    if length g.members == size then rest else g.members ++ rest

unfoldable pub has_id_of : List Assignment → Assignment → Bool
has_id_of [] a = false
has_id_of (b ∷ rows) a = (b.assignment_id == a.assignment_id) || has_id_of rows a

-- Case 2: the largest groups win. `walk` is the order in which Go walks the map of groups.
unfoldable pub majority_scores : (List Group → List Group) → List Assignment → List AnswerScore
unfolding group_replies max_size winners loser_rows has_id_of award select
majority_scores walk replied =
    let groups = walk (group_replies replied) in
    let size = max_size 0 groups in
    let won = winners size groups in
    award 5 (one_of (length won)) won
    ++ award 2 (record { num = 0; den = 1 }) (select (has_id_of (loser_rows size groups)) replied)

abbrev pub nothing : Fraction
nothing = record { num = 0; den = 1 }

-- The scores of a question with the reference answer and of its replies, by case.
unfoldable pub compute_scores :
    (List Group → List Group) → String → String → List Assignment → Scores
unfolding verdict questioner_case3_score award majority_scores select
compute_scores walk method reference replied =
    let right = select (λ a. is_correct (verdict method reference a)) replied in
    let not_right = select (λ a. is_wrong (verdict method reference a)) replied in
    let refused = select (λ a. is_invalid (verdict method reference a)) replied in
    let pass : Fraction = record { num = length right; den = length replied } in
    if ltb 0 (length right)
    then record {
      question_score = (questioner_case3_score (length right)).0;
      question_share = (questioner_case3_score (length right)).1;
      pass_rate = pass;
      answer_scores =
          award 5 (one_of (length right)) right
          ++ (award 3 nothing not_right ++ award 2 nothing refused);
    }
    else if length refused == length replied
    then record {
      question_score = 0;
      question_share = nothing;
      pass_rate = pass;
      answer_scores = award 5 (one_of (length replied)) refused;
    }
    else record {
      question_score = 1;
      question_share = tenths 1;
      pass_rate = pass;
      answer_scores = majority_scores walk replied;
    }
