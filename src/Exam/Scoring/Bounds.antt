-- ===== src/Exam/Scoring/Bounds.antt =====
-- The range of a score, its threshold, and the perfect score.
use native.Mathlib.Nat.{mul-le-mul_left}
use ios_backend.Base.{
  ℕ, suc, ◌+◌, ◌*◌, ◌≤◌, ◌<◌, ◌≡◌, ◌≢◌, ◌↔◌, pos, Bool, true, false, List, [], ◌∷◌, count, length,
  inl, inr, Bool-cases, nat_eq, ltb, leb, leb→le, le→leb, lt→ltb, refl, or_else, All, arith,
  if◌then◌else◌,
}
use ios_backend.Exam.Types.{Answers, ExamQuestion, Exam}
use ios_backend.Exam.Platform.{Rounding}
use ios_backend.Exam.Scoring.{percent, score_exam, is_right, ScoreResult, default_passing_score}
use ios_backend.Exam.Scoring.Marks.{marks_where, any_question, score_questions-marks, HasNoPenalty}

-- The rounded percentage of marks that are not negative.
abbrev pub percentage : Rounding → ℕ → ℕ → ℕ
percentage r earned total = if ltb 0 total then r.round earned total else 0

percent-percentage :
    (r : Rounding) (earned total : ℕ)
    → percent r (pos earned) (pos total) ≡ pos (percentage r earned total)
unfolding percent
percent-percentage r earned total = elim (Bool-cases (ltb 0 total)) [
  | inl e ↦ rw e refl
  | inr e ↦ rw e refl
]

pub percentage_mono :
    (r : Rounding) (a b total : ℕ) → a ≤ b → percentage r a total ≤ percentage r b total
percentage_mono r a b total h = elim (Bool-cases (ltb 0 total)) [
  | inl e ↦ rw e (r.round_mono a b total h)
  | inr e ↦ rw e (omega arith)
]

percentage-le :
    (r : Rounding) (earned total : ℕ) → earned ≤ total → percentage r earned total ≤ 10000
percentage-le r earned total h = elim (Bool-cases (ltb 0 total)) [
  | inl e ↦
      rw e (omega (arith, r.round_mono earned total total h, r.round_all total (ground (arith, e))))
  | inr e ↦ rw e (omega arith)
]

marks_where-le :
    (p : ExamQuestion → Bool) (qs : List ExamQuestion)
    → marks_where p qs ≤ marks_where any_question qs
unfolding marks_where
marks_where-le p [] = omega arith
marks_where-le p (q ∷ qs) = ground (arith, marks_where-le p qs)

pub count-le-length {ℓ} : {A : Type ℓ} (p : A → Bool) (xs : List A) → count p xs ≤ length xs
count-le-length p [] = omega arith
count-le-length p (x ∷ xs) = ground (arith, count-le-length p xs)

abbrev pub percentage_of : Rounding → Answers → Exam → ℕ
percentage_of r answers exam =
    percentage r (marks_where (is_right answers) exam.questions)
      (marks_where any_question exam.questions)

-- What `scoreAnswers` returns for an exam with questions, in sums.
abbrev pub marked : Rounding → Answers → Exam → ScoreResult
marked r answers exam = record {
  score = pos (percentage_of r answers exam);
  passed =
      leb (or_else exam.passing_score default_passing_score * 100) (percentage_of r answers exam);
  correct_count = count (is_right answers) exam.questions;
  total_count = length exam.questions;
}

pub score_exam-marked :
    (r : Rounding) (answers : Answers) (exam : Exam)
    → All HasNoPenalty exam.questions
    → nat_eq (length exam.questions) 0 ≡ false
    → score_exam r answers exam ≡ marked r answers exam
unfolding score_exam
score_exam-marked r answers exam plain e =
    rw
      (
        e,
        score_questions-marks answers exam.questions plain,
        percent-percentage r (marks_where (is_right answers) exam.questions)
            (marks_where any_question exam.questions),
      )
      refl

-- Where no question of an exam takes marks away, its score is a percentage, no more answers are
-- correct than there are questions, and all questions are counted.
pub score_exam_bounds :
    (r : Rounding) (answers : Answers) (exam : Exam)
    → All HasNoPenalty exam.questions
    → let result = score_exam r answers exam in
      (n : ℕ) × (result.score ≡ pos n)
      × (n ≤ 10000)
      × (result.correct_count ≤ result.total_count)
      × (result.total_count ≡ length exam.questions)
score_exam_bounds r answers exam plain = elim (Bool-cases (nat_eq (length exam.questions) 0)) [
  | inl e ↦ unfold score_exam in rw e (0, refl, omega arith, omega arith, ground (arith, e))
  | inr e ↦ rw (score_exam-marked r answers exam plain e) (
    percentage_of r answers exam,
    refl,
    percentage-le r _ _ (marks_where-le (is_right answers) exam.questions),
    count-le-length (is_right answers) exam.questions,
    refl,
  )
]

marks_where_nonempty :
    (qs : List ExamQuestion) → 0 < marks_where any_question qs → nat_eq (length qs) 0 ≡ false
unfolding marks_where
marks_where_nonempty [] h = absurd (omega arith)
marks_where_nonempty (q ∷ qs) h = ground arith

percentage_reaches :
    (r : Rounding) (mark earned total : ℕ)
    → 0 < total
    → earned ≤ total
    → total ≤ 100000000000
    → mark * 200 * total ≢ earned * 20000 + total
    → (mark * 100 ≤ percentage r earned total) ↔ (mark * 200 * total ≤ earned * 20000 + total)
percentage_reaches r mark earned total h part small no_tie =
    let p = r.round earned total in
    let (below, above) = r.round_nearest earned total h part small in
    rw (lt→ltb 0 total h) (
      (λ k. omega (arith, below, mul-le-mul_left (2 * total) k)),
      (λ k. elim (Bool-cases (leb (mark * 100) p)) [
        | inl e ↦ leb→le (mark * 100) p e
        | inr e ↦
            let short : suc p ≤ mark * 100 = ground (arith, e) in
            absurd (no_tie (omega (arith, above, k, mul-le-mul_left (2 * total) short)))
      ]),
    )

-- Where no question takes marks away, the marks of the exam are more than 0 and at most 10^11, an exam
-- is passed exactly if the percentage of the marks that were earned reaches the threshold, or misses
-- it by less than half a hundredth. Whether it is passed when it misses it by exactly that is left to
-- the doubles.
pub score_exam-passed_iff :
    (r : Rounding) (answers : Answers) (exam : Exam)
    → All HasNoPenalty exam.questions
    → 0 < marks_where any_question exam.questions
    → marks_where any_question exam.questions ≤ 100000000000
    → or_else exam.passing_score default_passing_score
        * 200
        * marks_where any_question exam.questions
      ≢ marks_where (is_right answers) exam.questions * 20000
        + marks_where any_question exam.questions
    → ((score_exam r answers exam).passed ≡ true) ↔ (
        or_else exam.passing_score default_passing_score
          * 200
          * marks_where any_question exam.questions
        ≤ marks_where (is_right answers) exam.questions * 20000
          + marks_where any_question exam.questions)
score_exam-passed_iff r answers exam plain h small no_tie =
    let reach =
      percentage_reaches r (or_else exam.passing_score default_passing_score)
        (marks_where (is_right answers) exam.questions) (marks_where any_question exam.questions) h
        (marks_where-le (is_right answers) exam.questions) small no_tie in
    rw (score_exam-marked r answers exam plain (marks_where_nonempty exam.questions h))
      ((λ k. reach.0 (leb→le _ _ k)), (λ k. le→leb _ _ (reach.1 k)))

marks_where-All :
    (p : ExamQuestion → Bool) (qs : List ExamQuestion)
    → All (λ q. p q ≡ true) qs
    → marks_where p qs ≡ marks_where any_question qs
unfolding marks_where
marks_where-All p [] h = refl
marks_where-All p (q ∷ qs) h = ground (arith, marks_where-All p qs h.1)

-- Who answers every question right gets 100.00 percent, where the questions carry marks and none takes
-- marks away, and passes if the threshold is a percentage.
pub score_exam_perfect :
    (r : Rounding) (answers : Answers) (exam : Exam)
    → All HasNoPenalty exam.questions
    → 0 < marks_where any_question exam.questions
    → All (λ q. is_right answers q ≡ true) exam.questions
    → or_else exam.passing_score default_passing_score ≤ 100
    → ((score_exam r answers exam).score ≡ pos 10000) × ((score_exam r answers exam).passed ≡ true)
score_exam_perfect r answers exam plain h right threshold =
    rw
      (
        score_exam-marked r answers exam plain (marks_where_nonempty exam.questions h),
        marks_where-All (is_right answers) exam.questions right,
        lt→ltb 0 (marks_where any_question exam.questions) h,
        r.round_all (marks_where any_question exam.questions) h,
      )
      (refl, le→leb _ _ (omega arith))
