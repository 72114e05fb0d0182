-- ===== src/Learning/Retired.antt =====
-- A retired lesson is out of reach of the students.
use ios_backend.Base.{
  ℕ, ◌≡◌, refl, subst, false, Option, none, some, String, List, [], ◌∷◌, find, update, Bool-cases,
  Option-cases, inl, inr, arith, ok, err, not_found,
}
use ios_backend.Learning.Types.{Lesson, LearningDb, lesson_has_id}
use ios_backend.Learning.Platform.{LearningPlatform}
use ios_backend.Learning.Student.{serve_lesson, mark_complete, assert_purchased}
use ios_backend.Learning.Admin.{soft_delete_lesson, retire_lesson}

abbrev RetiredOrNone : Option Lesson → Type 0
RetiredOrNone none = Unit
RetiredOrNone (some l) = l.active ≡ false

find-retired :
    (id : String) (rows : List Lesson)
    → RetiredOrNone (find (lesson_has_id id) (update (lesson_has_id id) retire_lesson rows))
find-retired id [] = tt
find-retired id (l ∷ ls) = elim (Bool-cases (lesson_has_id id l)) [
  | inl same ↦ rw same (rw same refl)
  | inr other ↦ rw other (rw other (find-retired id ls))
]

-- Once an admin has retired a lesson, no student can open it or complete it, enrolled or not: both
-- answer that there is no such lesson, and nothing changes.
pub soft_delete_lesson_hides :
    (env : LearningPlatform) (id user_id : String) (rls_user lang : Option String) (now : ℕ)
    (s t : LearningDb) (deleted : String)
    → soft_delete_lesson id s ≡ (ok deleted, t)
    → (serve_lesson env user_id id rls_user lang t ≡ (err (not_found "Lesson not found"), t))
      × (mark_complete env user_id id rls_user now t ≡ (err (not_found "Lesson not found"), t))
unfolding soft_delete_lesson serve_lesson mark_complete assert_purchased
soft_delete_lesson_hides env id user_id rls_user lang now s t deleted h =
    let rows : update (lesson_has_id id) retire_lesson s.lessons ≡ t.lessons = ground arith in
    let gone =
      subst (λ ls. RetiredOrNone (find (lesson_has_id id) ls)) rows (find-retired id s.lessons) in
    elim (Option-cases (find (lesson_has_id id) t.lessons)) [
      | inl missing ↦ (ground (arith, missing), ground (arith, missing))
      | inr (l, found) ↦
          let inactive : l.active ≡ false = subst RetiredOrNone found gone in
          (ground (arith, found, inactive), ground (arith, found, inactive))
    ]
