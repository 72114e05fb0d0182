-- ===== src/Exam/Scoring/Marks.antt =====
-- The loop of `scoreAnswers` against sums over the questions.
use ios_backend.Base.{
  ℕ, ◌+◌, pos, is_negative, magnitude, magnitude_lem, ◌≡◌, ◌∙◌, Bool, true, false, List, [], ◌∷◌,
  count, if◌then◌else◌, inl, inr, Bool-cases, All, arith,
}
use ios_backend.Exam.Types.{Answers, ExamQuestion}
use ios_backend.Exam.Scoring.{
  Tally, start_tally, weight_of, is_right, score_question, score_questions,
}

-- No question takes marks away.
abbrev pub HasNoPenalty : ExamQuestion → Type 0
HasNoPenalty q = is_negative (weight_of q) ≡ false

-- The marks of the questions that pass a test.
unfoldable pub marks_where : (ExamQuestion → Bool) → List ExamQuestion → ℕ
marks_where p [] = 0
marks_where p (q ∷ qs) = (if p q then magnitude (weight_of q) else 0) + marks_where p qs

abbrev pub any_question : ExamQuestion → Bool
any_question _ = true

abbrev tally_of : ℕ → ℕ → ℕ → Tally
tally_of right earned total = record {
  correct_count = right;
  earned_marks = pos earned;
  total_marks = pos total;
}

score_questions-plus :
    (answers : Answers) (qs : List ExamQuestion) (right earned total : ℕ)
    → All HasNoPenalty qs
    → score_questions answers qs (tally_of right earned total)
      ≡ tally_of
          (right + count (is_right answers) qs)
          (earned + marks_where (is_right answers) qs)
          (total + marks_where any_question qs)
unfolding score_questions score_question marks_where
score_questions-plus answers [] right earned total h = ground arith
score_questions-plus answers (q ∷ qs) right earned total h =
    let w = magnitude (weight_of q) in
    let weight = magnitude_lem (weight_of q) h.0 in
    elim (Bool-cases (is_right answers q)) [
      | inl e ↦
          rw (e, weight)
            (score_questions-plus answers qs (right + 1) (earned + w) (total + w) h.1
              ∙ ground arith)
      | inr e ↦
          rw (e, weight)
            (score_questions-plus answers qs right earned (total + w) h.1 ∙ ground arith)
    ]

-- Where no question takes marks away, the loop counts the questions that are answered right, adds up
-- their marks, and adds up the marks of all questions.
pub score_questions-marks :
    (answers : Answers) (qs : List ExamQuestion)
    → All HasNoPenalty qs
    → score_questions answers qs start_tally ≡ record {
      correct_count = count (is_right answers) qs;
      earned_marks = pos (marks_where (is_right answers) qs);
      total_marks = pos (marks_where any_question qs);
    }
score_questions-marks answers qs h = score_questions-plus answers qs 0 0 0 h ∙ ground arith
