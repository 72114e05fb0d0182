-- ===== src/Examples/Scoring.antt =====
-- An exam of two questions, and the keys of a session.
use ios_backend.Base.{
  ℤ, pos, All, Bool, Option, String, [], arith, false, length, none, not, or_else, refl, some, true,
  ℕ, ◌&&◌, ◌*◌, ◌+◌, ◌↔◌, ◌∷◌, ◌≡◌, ◌≤◌,
}
use ios_backend.Exam.Scoring.{default_passing_score, is_right, score_exam}
use ios_backend.Exam.Scoring.Bounds.{score_exam-passed_iff, score_exam_bounds}
use ios_backend.Exam.Scoring.Marks.{HasNoPenalty, any_question, marks_where}
use ios_backend.Exam.Scoring.Monotone.{score_exam_mono}
use ios_backend.Examples.Rounding.{rounding}
use ios_backend.Exam.Types.{Answers, Exam, ExamQuestion, ExamQuestionOption, mcq, published}

abbrev option : String → Bool → ExamQuestionOption
option id right = record { id = id; option_text = id; is_correct = right }

abbrev question : String → Option ℤ → ExamQuestion
question id marks = record {
  id = id;
  question_text = id;
  question_type = mcq;
  position = 1;
  marks = marks;
  options = option "yes" true ∷ option "no" false ∷ [];
}

abbrev exam_two : Exam
exam_two = record {
  id = "e1";
  cert_id = "c1";
  title = "Scrum";
  exam_order = 1;
  status = published;
  passing_score = some 60;
  duration_minutes = 60;
  questions = question "q1" (some (pos 2)) ∷ question "q2" none ∷ [];
}

abbrev half_right : Answers
half_right = ("q1", "yes") ∷ ("q2", "no") ∷ []

abbrev all_right : Answers
all_right = ("q1", "yes") ∷ ("q2", "yes") ∷ []

abbrev no_penalty : All HasNoPenalty exam_two.questions
no_penalty = (refl, (refl, tt))

score_exam_bounds_example :
    let r = score_exam rounding half_right exam_two in
    (n : ℕ) × (r.score ≡ pos n)
    × (n ≤ 10000)
    × (r.correct_count ≤ r.total_count)
    × (r.total_count ≡ length exam_two.questions)
score_exam_bounds_example = score_exam_bounds rounding half_right exam_two no_penalty

score_exam-passed_iff_example : ((score_exam rounding half_right exam_two).passed ≡ true) ↔ (
    or_else exam_two.passing_score default_passing_score
      * 200
      * marks_where any_question exam_two.questions
    ≤ marks_where (is_right half_right) exam_two.questions * 20000
      + marks_where any_question exam_two.questions)
unfolding marks_where is_right
score_exam-passed_iff_example =
    score_exam-passed_iff rounding half_right exam_two no_penalty (omega arith) (omega arith)
      (λ e. omega (arith, e))

score_exam_mono_example :
    let r = score_exam rounding half_right exam_two in
    let s = score_exam rounding all_right exam_two in
    (m : ℕ) × (n : ℕ) × (r.score ≡ pos m)
    × (s.score ≡ pos n)
    × (m ≤ n)
    × (r.correct_count ≤ s.correct_count)
    × (r.passed && not s.passed ≡ false)
unfolding is_right
score_exam_mono_example =
    score_exam_mono rounding half_right all_right exam_two no_penalty
      ((λ _. refl), ((λ _. refl), tt))
