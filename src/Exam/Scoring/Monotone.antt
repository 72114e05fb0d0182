-- ===== src/Exam/Scoring/Monotone.antt =====
-- Scores of two answer sheets to one exam.
use ios_backend.Base.{
  ℕ, pos, not, false, refl, ◌&&◌, ◌≤◌, ◌≡◌, Bool, true, List, [], ◌∷◌, count, length, nat_eq, inl,
  inr, Bool-cases, All, arith,
}
use ios_backend.Exam.Types.{Answers, ExamQuestion, Exam}
use ios_backend.Exam.Platform.{Rounding}
use ios_backend.Exam.Scoring.{score_exam, is_right}
use ios_backend.Exam.Scoring.Marks.{marks_where, any_question, HasNoPenalty}
use ios_backend.Exam.Scoring.Bounds.{percentage_mono, percentage_of, score_exam-marked}

marks_where_mono :
    (p r : ExamQuestion → Bool) (qs : List ExamQuestion)
    → All (λ q. p q ≡ true → r q ≡ true) qs
    → (marks_where p qs ≤ marks_where r qs) × (count p qs ≤ count r qs)
unfolding marks_where
marks_where_mono p r [] h = omega arith
marks_where_mono p r (q ∷ qs) h = ground (arith, h.0, marks_where_mono p r qs h.1)

-- Where no question of the exam takes marks away, answers that are right wherever the others are score
-- at least as much, count at least as many correct questions, and pass if the others pass.
pub score_exam_mono :
    (r : Rounding) (few many : Answers) (exam : Exam)
    → All HasNoPenalty exam.questions
    → All (λ q. is_right few q ≡ true → is_right many q ≡ true) exam.questions
    → let less = score_exam r few exam in
      let more = score_exam r many exam in
      (m : ℕ) × (n : ℕ) × (less.score ≡ pos m)
      × (more.score ≡ pos n)
      × (m ≤ n)
      × (less.correct_count ≤ more.correct_count)
      × (less.passed && not more.passed ≡ false)
score_exam_mono r few many exam plain h = elim (Bool-cases (nat_eq (length exam.questions) 0)) [
  | inl e ↦ unfold score_exam in rw e (0, 0, refl, refl, omega arith, omega arith, refl)
  | inr e ↦
      let (marks, right) = marks_where_mono (is_right few) (is_right many) exam.questions h in
      let score =
        percentage_mono r (marks_where (is_right few) exam.questions)
          (marks_where (is_right many) exam.questions) (marks_where any_question exam.questions)
          marks in
      rw (score_exam-marked r few exam plain e, score_exam-marked r many exam plain e)
        (
          percentage_of r few exam,
          percentage_of r many exam,
          refl,
          refl,
          score,
          right,
          ground (arith, score),
        )
]
