-- ===== src/Exam/Codes/Assignment.antt =====
-- Which exam a student is given next.
use ios_backend.Base.{
  All-select_if, ltb, ℕ, ◌≡◌, refl, ◌≤◌, ◌<◌, ◌&&◌, ◌==◌, Bool, true, false, none, some, String,
  List, [], ◌∷◌, find, select, find_holds, find-All, IsAscending, sort_by-IsAscending, All-sort_by,
  All-sort_by_inv, All, All-map, Memᴰ, has, is_some, inl, inr, Bool-cases, Option-cases, ok, err,
  forbidden, arith, eq_iff,
}
use ios_backend.Exam.Types.{Exam, ExamAttempt, Db}
use ios_backend.Exam.Platform.{Platform}
use ios_backend.Exam.Codes.{
  Fresh, NextExam, assign_next_exam, attempted_exam_ids, attempt_is_for, exam_pool, is_published_in,
  not_attempted, new_code,
}

-- An attempt of the student for the exam, towards the certificate.
abbrev pub is_attempt_at : String → String → String → ExamAttempt → Bool
is_attempt_at user_id cert_id exam_id a = attempt_is_for user_id cert_id a && a.exam_id == exam_id

-- Run as the student, the query loses no attempt to row level security: an exam is listed exactly if
-- the table has an attempt of the student at it towards the certificate.
pub has-attempted_exam_ids :
    (user_id cert_id exam_id : String) (rows : List ExamAttempt)
    → has (attempted_exam_ids user_id cert_id rows) exam_id
      ≡ is_some (find (is_attempt_at user_id cert_id exam_id) rows)
unfolding attempted_exam_ids
has-attempted_exam_ids user_id cert_id exam_id [] = refl
has-attempted_exam_ids user_id cert_id exam_id (a ∷ rows) = ground (
  arith,
  has-attempted_exam_ids user_id cert_id exam_id rows,
  eq_iff user_id a.user_id,
  eq_iff a.user_id user_id,
)

-- In a sorted list, what stands before the first hit has failed the test.
find_first :
    (p : Exam → Bool) (xs : List Exam) (x : Exam)
    → IsAscending (λ e. e.exam_order) xs
    → find p xs ≡ some x
    → All (λ y. y.exam_order < x.exam_order → p y ≡ false) xs
find_first p [] x asc e = tt
find_first p (y ∷ ys) x asc e = elim (Bool-cases (p y)) [
  | inl hit ↦
      let same : y ≡ x = ground (arith, hit) in
      (
        (λ lt. ground (arith, same)),
        All-map (λ z. y.exam_order ≤ z.exam_order) _ ys (λ z le lt. ground (arith, same)) asc.0,
      )
  | inr miss ↦ ((λ _. miss), find_first p ys x asc.1 (ground (arith, miss)))
]

find_nothing : (p : Exam → Bool) (xs : List Exam) → find p xs ≡ none → All (λ y. p y ≡ false) xs
find_nothing p [] e = tt
find_nothing p (y ∷ ys) e = elim (Bool-cases (p y)) [
  | inl hit ↦ absurd (ground (arith, hit))
  | inr miss ↦ (miss, find_nothing p ys (ground (arith, miss)))
]

-- What holds of the rows that a test selects.
selected :
    (P : Exam → Type 0) (p : Exam → Bool) (xs : List Exam)
    → All P (select p xs)
    → All (λ x. p x ≡ true → P x) xs
selected P p [] h = tt
selected P p (x ∷ xs) h = elim (Bool-cases (p x)) [
  | inl e ↦ let k : All P (x ∷ select p xs) = rw e at h in ((λ _. k.0), selected P p xs k.1)
  | inr e ↦ let k : All P (select p xs) = rw e at h in ((λ f. cc), selected P p xs k)
]

select_members :
    (p : Exam → Bool) (xs : List Exam) → All (λ x. (p x ≡ true) × Memᴰ x xs) (select p xs)
select_members p [] = tt
select_members p (x ∷ xs) =
    let there =
      All-map (λ y. (p y ≡ true) × Memᴰ y xs) (λ y. (p y ≡ true) × Memᴰ y (x ∷ xs)) (select p xs)
        (λ y m. (m.0, Memᴰ.tail m.1)) (select_members p xs) in
    elim (Bool-cases (p x)) [ inl e ↦ rw e ((e, Memᴰ.head refl), there) | inr e ↦ rw e there ]

-- A published exam of the certificate with a smaller order.
abbrev pub comes_before : String → Exam → Exam → Bool
comes_before cert_id next e = is_published_in cert_id e && ltb e.exam_order next.exam_order

module _ (env : Platform) where
  open env use {redis}

  assign_parts :
      (user_id cert_id : String) (fresh : Fresh) (now : ℕ) (s t : Db redis.Store) (out : NextExam)
      → assign_next_exam env user_id cert_id fresh now s ≡ (ok out, t)
      → (next : Exam) × (find
            (not_attempted env (attempted_exam_ids user_id cert_id s.attempts))
            (exam_pool env cert_id s.exams)
          ≡ some next)
        × (out.issued.exam_id ≡ next.id)
        × (t ≡ record s { codes = new_code env user_id next fresh now ∷ s.codes })
  unfolding assign_next_exam
  assign_parts user_id cert_id fresh now s t out h =
      elim (Option-cases (
        find (not_attempted env (attempted_exam_ids user_id cert_id s.attempts))
          (exam_pool env cert_id s.exams))) [
            | inl exhausted ↦ absurd (ground (arith, exhausted))
            | inr (next, found) ↦ (next, found, ground (arith, found), ground (arith, found))
          ]

  -- The next exam is a published exam of the certificate that the student has not attempted, every
  -- published exam of the certificate with a smaller order has been attempted, and the only change is
  -- a new code of the student for that exam.
  pub assign_next_exam_picks :
      (user_id cert_id : String) (fresh : Fresh) (now : ℕ) (s t : Db redis.Store) (out : NextExam)
      → assign_next_exam env user_id cert_id fresh now s ≡ (ok out, t)
      → (next : Exam) × Memᴰ next s.exams
        × (is_published_in cert_id next ≡ true)
        × (find (is_attempt_at user_id cert_id next.id) s.attempts ≡ none)
        × All
            (λ e. is_some (find (is_attempt_at user_id cert_id e.id) s.attempts) ≡ true)
            (select (comes_before cert_id next) s.exams)
        × (out.issued.exam_id ≡ next.id)
        × (t ≡ record s { codes = new_code env user_id next fresh now ∷ s.codes })
  assign_next_exam_picks user_id cert_id fresh now s t out h =
      let (next, found, same, stored) = assign_parts user_id cert_id fresh now s t out h in
      let ids = attempted_exam_ids user_id cert_id s.attempts in
      let pool = exam_pool env cert_id s.exams in
      let (published, member) =
        find-All (λ e. (is_published_in cert_id e ≡ true) × Memᴰ e s.exams) (not_attempted env ids)
          pool next found (All-sort_by _ _ _ (select_members (is_published_in cert_id) s.exams)) in
      let open_ = find_holds (not_attempted env ids) pool next found in
      let before =
        selected (λ y. y.exam_order < next.exam_order → not_attempted env ids y ≡ false)
          (is_published_in cert_id) s.exams
          (All-sort_by_inv _ _ _ (
            find_first (not_attempted env ids) pool next
              (sort_by-IsAscending (λ e. e.exam_order) (select (is_published_in cert_id) s.exams))
              found)) in
      (
        next,
        member,
        published,
        ground (arith, open_, has-attempted_exam_ids user_id cert_id next.id s.attempts),
        All-select_if _ (comes_before cert_id next) s.exams (
            All-map _ _ s.exams
              (λ e before_e earlier. ground (
                arith,
                earlier,
                before_e (ground (arith, earlier)) (ground (arith, earlier)),
                has-attempted_exam_ids user_id cert_id e.id s.attempts,
              ))
              before),
        same,
        stored,
      )

  -- The student is told that the pool is exhausted only if there is an attempt at every published exam
  -- of the certificate; nothing changes.
  pub assign_next_exam_exhausted :
      (user_id cert_id : String) (fresh : Fresh) (now : ℕ) (s t : Db redis.Store)
      → assign_next_exam env user_id cert_id fresh now s ≡ (
        err (
            forbidden
              "Exam pool exhausted: the student has attempted every published exam for this certificate"),
        t,
      )
      → (t ≡ s)
        × All
            (λ e. is_some (find (is_attempt_at user_id cert_id e.id) s.attempts) ≡ true)
            (select (is_published_in cert_id) s.exams)
  unfolding assign_next_exam
  assign_next_exam_exhausted user_id cert_id fresh now s t h =
      let ids = attempted_exam_ids user_id cert_id s.attempts in
      elim (Option-cases (find (not_attempted env ids) (exam_pool env cert_id s.exams))) [
        | inr (next, found) ↦ absurd (ground (arith, found))
        | inl none_left ↦ (
          ground (arith, none_left),
          All-select_if _ (is_published_in cert_id) s.exams (
              All-map _ _ s.exams
                (λ e gone pub_e.
                  ground
                    (arith, gone pub_e, has-attempted_exam_ids user_id cert_id e.id s.attempts))
                (selected (λ y. not_attempted env ids y ≡ false) (is_published_in cert_id) s.exams
                  (All-sort_by_inv _ _ _ (
                    find_nothing (not_attempted env ids) (exam_pool env cert_id s.exams)
                      none_left)))),
        )
      ]
