-- ===== src/Learning/Student/Progress.antt =====
-- Enrolment and progress: who may open and complete a lesson, and what the summary says.
use ios_backend.Base.{
  ℕ, ◌≤◌, ◌≡◌, refl, true, false, Option, none, some, String, List, [], ◌∷◌, map, length, nat_eq,
  is_empty, find, select, Bool-cases, Option-cases, Outcome-cases, inl, inr, arith, ok, eq_refl,
  if◌then◌else◌, All,
}
use ios_backend.Learning.Types.{
  Lesson, LearningModule, Certificate, StudentPurchase, LearningDb, is_purchase_of,
  purchase_is_visible, is_progress_on, lesson_has_id, module_has_id,
}
use ios_backend.Learning.Platform.{LearningPlatform}
use ios_backend.Learning.Student.{
  assert_purchased, open_lesson, serve_lesson, mark_complete, purchases_of, get_progress_summary,
  progress_row, Completion, CertProgress, LessonData, is_done, is_lesson_in, is_module_of,
  module_id_of, lesson_data, resolve_locale,
}

-- A connection that names no user sees no purchase.
purchases_of_none :
    (user_id cert_id : String) (rows : List StudentPurchase)
    → select (is_purchase_of user_id cert_id) (select (purchase_is_visible none) rows) ≡ []
purchases_of_none user_id cert_id [] = refl
purchases_of_none user_id cert_id (x ∷ xs) = ground (arith, purchases_of_none user_id cert_id xs)

-- A lesson that is open to a student is an active one, in a module of a certificate that the
-- student has bought, as seen through the row level security; nothing is written.
open_lesson-purchased :
    (user_id lesson_id : String) (rls_user : Option String) (s t : LearningDb) (lesson : Lesson)
    → open_lesson user_id lesson_id rls_user s ≡ (ok lesson, t)
    → (t ≡ s)
      × (find (lesson_has_id lesson_id) s.lessons ≡ some lesson)
      × (lesson.active ≡ true)
      × (m : LearningModule) × (find (module_has_id lesson.module_id) s.modules ≡ some m)
      × (is_empty (purchases_of user_id m.cert_id rls_user s) ≡ false)
unfolding assert_purchased
open_lesson-purchased user_id lesson_id rls_user s t lesson h =
    elim (Option-cases (find (lesson_has_id lesson_id) s.lessons)) [
      | inl missing ↦ absurd (ground (arith, missing))
      | inr (row, found) ↦ elim (Bool-cases row.active) [
        | inr inactive ↦ absurd (ground (arith, found, inactive))
        | inl active ↦ elim (Option-cases (find (module_has_id row.module_id) s.modules)) [
          | inl orphan ↦ absurd (ground (arith, found, active, orphan))
          | inr (m, parent) ↦
              elim (Bool-cases (is_empty (purchases_of user_id m.cert_id rls_user s))) [
                | inl unpaid ↦ absurd (ground (arith, found, active, parent, unpaid))
                | inr paid ↦
                    let same : row ≡ lesson = ground (arith, found, active, parent, paid) in
                    (
                      ground (arith, found, active, parent, paid),
                      ground (arith, found, same),
                      ground (arith, same, active),
                      m,
                      ground (arith, parent, same),
                      paid,
                    )
              ]
        ]
      ]
    ]

module _ (env : LearningPlatform) where
  -- A lesson is served only to a student whose purchase of its certificate the request's
  -- connection sees, and only while the lesson is active; what is served is that lesson, with the
  -- student's own progress, in the language of the request.
  pub serve_lesson-purchased :
      (user_id lesson_id : String) (rls_user lang : Option String) (s t : LearningDb)
      (served : LessonData)
      → serve_lesson env user_id lesson_id rls_user lang s ≡ (ok served, t)
      → (lesson : Lesson) × (m : LearningModule) × (find (lesson_has_id lesson_id) s.lessons
          ≡ some lesson)
        × (lesson.active ≡ true)
        × (find (module_has_id lesson.module_id) s.modules ≡ some m)
        × (is_empty (purchases_of user_id m.cert_id rls_user s) ≡ false)
        × (served
            ≡ lesson_data env lesson
                (find (is_progress_on user_id lesson_id) s.progress)
                (resolve_locale lang))
  unfolding serve_lesson
  serve_lesson-purchased user_id lesson_id rls_user lang s t served h =
      elim (Outcome-cases (open_lesson user_id lesson_id rls_user s)) [
        | inr (e, u, bad) ↦ absurd (ground (arith, bad))
        | inl (lesson, u, good) ↦
            let (kept, found, active, m, parent, paid) =
              open_lesson-purchased user_id lesson_id rls_user s u lesson good in
            (lesson, m, found, active, parent, paid, ground (arith, good, kept))
      ]

  -- Completing is idempotent: after a completion that succeeds, another one by the same student,
  -- at any later time, answers the same moment, says that the lesson was already completed, and
  -- changes nothing.
  pub mark_complete_again :
      (user_id lesson_id : String) (rls_user : Option String) (now later : ℕ) (s t : LearningDb)
      (first : Completion)
      → mark_complete env user_id lesson_id rls_user now s ≡ (ok first, t)
      → mark_complete env user_id lesson_id rls_user later t
        ≡ (ok (record first { already_completed = true }), t)
  unfolding mark_complete assert_purchased
  mark_complete_again user_id lesson_id rls_user now later s t first h =
      elim (Outcome-cases (open_lesson user_id lesson_id rls_user s)) [
        | inr (e, u, bad) ↦ absurd (ground (arith, bad))
        | inl (lesson, u, good) ↦
            let (kept, found, active, m, parent, paid) =
              open_lesson-purchased user_id lesson_id rls_user s u lesson good in
            elim (Option-cases (find (is_progress_on user_id lesson_id) s.progress)) [
              | inr (p, done) ↦ ground (arith, good, kept, done)
              | inl fresh ↦ ground (
                arith,
                good,
                kept,
                fresh,
                found,
                active,
                parent,
                paid,
                eq_refl user_id,
                eq_refl lesson_id,
                h,
              )
            ]
      ]

  done_le :
      (completed : List String) (lessons : List Lesson)
      → length (select (is_done completed) lessons) ≤ length lessons
  done_le completed [] = omega arith
  done_le completed (l ∷ ls) = ground (arith, done_le completed ls)

  percent_le :
      (completed : List String) (lessons : List Lesson)
      → let total = length lessons in
        (if nat_eq total 0
          then 0
          else env.percent_of (length (select (is_done completed) lessons)) total)
        ≤ 100
  percent_le completed lessons = elim (Bool-cases (nat_eq (length lessons) 0)) [
    | inl empty ↦ ground (arith, empty)
    | inr some_lessons ↦ ground (
      arith,
      some_lessons,
      env.percent_of_mono (length (select (is_done completed) lessons)) (length lessons)
          (length lessons) (done_le completed lessons) (ground (arith, some_lessons)),
      env.percent_of_all (length lessons) (ground (arith, some_lessons)),
    )
  ]

  -- A row of the summary in order: no more lessons completed than there are, and at most a hundred
  -- percent.
  abbrev pub IsInOrder : CertProgress → Type 0
  IsInOrder row = (row.completed_lessons ≤ row.total_lessons) × (row.percent_complete ≤ 100)

  progress_row-IsInOrder :
      (modules : List LearningModule) (lessons : List Lesson) (completed : List String)
      (locale : String) (cert : Certificate)
      → IsInOrder (progress_row env modules lessons completed locale cert)
  progress_row-IsInOrder modules lessons completed locale cert =
      let cert_lessons =
        select (is_lesson_in (map module_id_of (select (is_module_of cert.id) modules))) lessons in
      (done_le completed cert_lessons, percent_le completed cert_lessons)

  All-IsInOrder :
      (modules : List LearningModule) (lessons : List Lesson) (completed : List String)
      (locale : String) (certs : List Certificate)
      → All IsInOrder (map (progress_row env modules lessons completed locale) certs)
  All-IsInOrder modules lessons completed locale [] = tt
  All-IsInOrder modules lessons completed locale (c ∷ cs) = (
    progress_row-IsInOrder modules lessons completed locale c,
    All-IsInOrder modules lessons completed locale cs,
  )

  -- Every row of a student's summary is in order: it counts no more completed lessons than lessons,
  -- and shows at most a hundred percent, whatever the progress rows say.
  pub get_progress_summary-IsInOrder :
      (user_id : String) (rls_user lang : Option String) (s : LearningDb)
      → All IsInOrder (get_progress_summary env user_id rls_user lang s)
  unfolding get_progress_summary
  get_progress_summary-IsInOrder user_id rls_user lang s = search All-IsInOrder
