-- ===== src/Exam/Scoring.antt =====
-- `ExamService.scoreAnswers` of src/modules/exam/exam.service.ts.
-- The quotient of the marks, which JavaScript takes in doubles and rounds to two decimals, is the
-- parameter `Rounding`. Marks are integers, as in their column, which a database check does not keep
-- from being negative.
pub mod Marks
pub mod Bounds
pub mod Monotone
use ios_backend.Base.{
  ℕ, zero, suc, ◌+◌, ◌*◌, ℤ, pos, negsuc, ◌+ℤ◌, Bool, false, Option, none, some, String, List, [],
  ◌∷◌, ◌==◌, ltb, leb, nat_eq, if◌then◌else◌, or_else, lookup, find, length,
}
use ios_backend.Exam.Platform.{Rounding}
use ios_backend.Exam.Types.{Answers, ExamQuestion, ExamQuestionOption, Exam}

abbrev pub default_passing_score : ℕ
default_passing_score = 80

pub record ScoreResult : Type 0 where
  pub score : ℤ
  pub passed : Bool
  pub correct_count : ℕ
  pub total_count : ℕ

-- The local variables of the loop.
pub record Tally : Type 0 where
  pub correct_count : ℕ
  pub earned_marks : ℤ
  pub total_marks : ℤ

abbrev pub weight_of : ExamQuestion → ℤ
weight_of q = or_else q.marks (pos 1)

abbrev pub option_has_id : String → ExamQuestionOption → Bool
option_has_id id o = o.id == id

-- `selected?.isCorrect`
abbrev pub chosen_is_correct : Option ExamQuestionOption → Bool
chosen_is_correct none = false
chosen_is_correct (some o) = o.is_correct

-- Whether the answer that was given earns the marks; an empty answer is none.
abbrev pub answer_is_correct : Option String → ExamQuestion → Bool
answer_is_correct none q = false
answer_is_correct (some selected) q =
    if selected == "" then false else chosen_is_correct (find (option_has_id selected) q.options)

unfoldable pub is_right : Answers → ExamQuestion → Bool
is_right answers q = answer_is_correct (lookup answers q.id) q

-- One round of the loop over the questions.
score_question : Answers → ExamQuestion → Tally → Tally
unfolding is_right
score_question answers q t =
    if is_right answers q
    then record {
      correct_count = t.correct_count + 1;
      earned_marks = t.earned_marks +ℤ weight_of q;
      total_marks = t.total_marks +ℤ weight_of q;
    }
    else record t { total_marks = t.total_marks +ℤ weight_of q }

pub score_questions : Answers → List ExamQuestion → Tally → Tally
unfolding score_question
score_questions answers [] t = t
score_questions answers (q ∷ qs) t = score_questions answers qs (score_question answers q t)

abbrev pub minus : ℕ → ℤ
minus zero = pos 0
minus (suc n) = negsuc n

-- `totalMarks > 0 ? parseFloat((earnedMarks / totalMarks * 100).toFixed(2)) : 0`, in hundredths; a
-- negative number is rounded like its opposite.
pub percent : Rounding → ℤ → ℤ → ℤ
percent r (pos earned) (pos total) = if ltb 0 total then pos (r.round earned total) else pos 0
percent r (negsuc n) (pos total) = if ltb 0 total then minus (r.round (suc n) total) else pos 0
percent r (pos earned) (negsuc n) = pos 0
percent r (negsuc m) (negsuc n) = pos 0

-- `score >= passingThreshold`.
abbrev pub reaches : ℕ → ℤ → Bool
reaches threshold (pos score) = leb (threshold * 100) score
reaches threshold (negsuc n) = false

pub result_of : Rounding → Exam → Tally → ScoreResult
unfolding percent
result_of r exam t =
    let score = percent r t.earned_marks t.total_marks in
    record {
      score = score;
      passed = reaches (or_else exam.passing_score default_passing_score) score;
      correct_count = t.correct_count;
      total_count = length exam.questions;
    }

abbrev no_score : ScoreResult
no_score = record { score = pos 0; passed = false; correct_count = 0; total_count = 0 }

abbrev pub start_tally : Tally
start_tally = record { correct_count = 0; earned_marks = pos 0; total_marks = pos 0 }

-- The scoring of one exam row, and of no row.
pub score_exam : Rounding → Answers → Exam → ScoreResult
unfolding score_questions result_of
score_exam r answers exam =
    if nat_eq (length exam.questions) 0
    then no_score
    else result_of r exam (score_questions answers exam.questions start_tally)

pub score_answers : Rounding → Answers → Option Exam → ScoreResult
unfolding score_exam
score_answers r answers none = no_score
score_answers r answers (some exam) = score_exam r answers exam
