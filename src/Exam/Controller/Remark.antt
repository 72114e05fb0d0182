-- ===== src/Exam/Controller/Remark.antt =====
-- An exam of src/modules/exam with another solution: the same questions and options, of which others
-- are right.
use ios_backend.Base.{
  Bool, Option, none, some, String, List, [], ◌∷◌, map, ◌≡◌, refl, ap, ◌∙◌, Bool-cases, inl, inr,
  Result, ok, err, find, sort_by, insert_by, ascending,
}
use ios_backend.Exam.Types.{Exam, ExamQuestion, ExamQuestionOption, Db, exam_has_id}
use ios_backend.Exam.Start.{sorted_questions}
use ios_backend.Exam.Controller.{question_for_client, option_for_client}

-- The same options, of which others are right.
abbrev pub remark_option : (ExamQuestionOption → Bool) → ExamQuestionOption → ExamQuestionOption
remark_option key o = record o { is_correct = key o }

abbrev pub remark_question : (ExamQuestionOption → Bool) → ExamQuestion → ExamQuestion
remark_question key q = record q { options = map (remark_option key) q.options }

abbrev pub remark_exam : (ExamQuestionOption → Bool) → Exam → Exam
remark_exam key e = record e { questions = map (remark_question key) e.questions }

abbrev pub remark : {R : Type 0} → (ExamQuestionOption → Bool) → Db R → Db R
remark key s = record s { exams = map (remark_exam key) s.exams }

abbrev pub map_ok : {A B : Type 0} → (A → B) → Result A → Result B
map_ok f (ok a) = ok (f a)
map_ok f (err e) = err e

abbrev pub remarked : (ExamQuestionOption → Bool) → Option Exam → Option Exam
remarked key none = none
remarked key (some e) = some (remark_exam key e)

pub find_remark :
    (key : ExamQuestionOption → Bool) (exam_id : String) (exams : List Exam) (o : Option Exam)
    → find (exam_has_id exam_id) exams ≡ o
    → find (exam_has_id exam_id) (map (remark_exam key) exams) ≡ remarked key o
find_remark key exam_id [] o h = ap (remarked key) h
find_remark key exam_id (e ∷ es) o h = elim (Bool-cases (exam_has_id exam_id e)) [
  | inl same ↦ rw same (ap (remarked key) (let k : some e ≡ o = rw same at h in k))
  | inr other ↦ rw other (find_remark key exam_id es o (rw other at h))
]

insert_remark :
    (key : ExamQuestionOption → Bool) (q : ExamQuestion) (qs : List ExamQuestion)
    → insert_by (ascending (λ q. q.position)) (remark_question key q) (map (remark_question key) qs)
      ≡ map (remark_question key) (insert_by (ascending (λ q. q.position)) q qs)
insert_remark key q [] = refl
insert_remark key q (r ∷ rs) = elim (Bool-cases (ascending (λ q. q.position) q r)) [
  | inl e ↦ rw e refl
  | inr e ↦ rw e (ap (λ xs. remark_question key r ∷ xs) (insert_remark key q rs))
]

sort_remark :
    (key : ExamQuestionOption → Bool) (qs : List ExamQuestion)
    → sort_by (ascending (λ q. q.position)) (map (remark_question key) qs)
      ≡ map (remark_question key) (sort_by (ascending (λ q. q.position)) qs)
sort_remark key [] = refl
sort_remark key (q ∷ qs) =
    ap (λ xs. insert_by (ascending (λ q. q.position)) (remark_question key q) xs)
      (sort_remark key qs)
    ∙ insert_remark key q (sort_by (ascending (λ q. q.position)) qs)

options_remark :
    (key : ExamQuestionOption → Bool) (os : List ExamQuestionOption)
    → map option_for_client (map (remark_option key) os) ≡ map option_for_client os
options_remark key [] = refl
options_remark key (o ∷ os) = ap (λ xs. option_for_client o ∷ xs) (options_remark key os)

questions_remark :
    (key : ExamQuestionOption → Bool) (qs : List ExamQuestion)
    → map question_for_client (map (remark_question key) qs) ≡ map question_for_client qs
questions_remark key [] = refl
questions_remark key (q ∷ qs) =
    ap (λ xs. question_for_client (remark_question key q) ∷ xs) (questions_remark key qs)
    ∙ ap (λ os. record (question_for_client q) { options = os } ∷ map question_for_client qs)
        (options_remark key q.options)

-- The questions that the answer to a start shows.
pub shown_remark :
    (key : ExamQuestionOption → Bool) (o : Option Exam)
    → map question_for_client (sorted_questions (remarked key o))
      ≡ map question_for_client (sorted_questions o)
shown_remark key none = refl
shown_remark key (some e) =
    ap (map question_for_client) (sort_remark key e.questions)
    ∙ questions_remark key (sort_by (ascending (λ q. q.position)) e.questions)
