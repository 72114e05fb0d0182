-- ===== src/Exam/Codes/Matching.antt =====
-- Which access code a student's text is accepted for.
use ios_backend.Base.{
  ℕ, ◌≡◌, subst, ◌≤◌, inl, inr, true, none, some, String, List, [], ◌∷◌, find, select, ltb,
  Bool-cases, ok, err, Exception, arith, eq_iff, All, All-sort_by, All-sort_by_inv,
}
use ios_backend.Exam.Types.{Exam, ExamAccessCode, Db, is_unused_for, exam_has_id, published}
use ios_backend.Exam.Platform.{Platform}
use ios_backend.Exam.Codes.{find_and_verify_code, match_code, candidates, validate_access}

module _ (env : Platform) where
  open env use {redis, bcrypt}

  -- A code that the text opens at a time.
  abbrev pub Opens : String → ℕ → ExamAccessCode → Type 0
  Opens code now c = (now ≤ c.expires_at) × (bcrypt.compare code c.token_hash ≡ true)

  match_code_sound :
      (P : ExamAccessCode → Type 0) (code : String) (now : ℕ) (cs : List ExamAccessCode)
      (c : ExamAccessCode)
      → match_code env code now cs ≡ some c
      → All P cs
      → P c × Opens code now c
  unfolding match_code
  match_code_sound P code now [] c e h = absurd (cc)
  match_code_sound P code now (x ∷ xs) c e h = elim (Bool-cases (ltb x.expires_at now)) [
    | inl late ↦ match_code_sound P code now xs c (ground arith) h.1
    | inr early ↦ elim (Bool-cases (bcrypt.compare code x.token_hash)) [
      | inl fits ↦
          let same : x ≡ c = ground arith in
          subst (λ y. P y × Opens code now y) same (h.0, (ground arith, fits))
      | inr unfit ↦ match_code_sound P code now xs c (ground arith) h.1
    ]
  ]

  match_code_complete :
      (code : String) (now : ℕ) (cs : List ExamAccessCode)
      → match_code env code now cs ≡ none
      → All (λ c. ¬ Opens code now c) cs
  unfolding match_code
  match_code_complete code now [] e = tt
  match_code_complete code now (x ∷ xs) e = elim (Bool-cases (ltb x.expires_at now)) [
    | inl late ↦ ((λ o. ground arith), match_code_complete code now xs (ground arith))
    | inr early ↦ ((λ o. ground arith), match_code_complete code now xs (ground arith))
  ]

  -- An unused code of the student for the exam.
  abbrev pub IsUnusedCode : String → String → ExamAccessCode → Type 0
  IsUnusedCode user_id exam_id c =
      (c.user_id ≡ user_id) × (c.exam_id ≡ exam_id) × (c.used_at ≡ none)

  unused_code :
      (user_id exam_id : String) (c : ExamAccessCode)
      → is_unused_for user_id exam_id c ≡ true
      → IsUnusedCode user_id exam_id c
  unused_code user_id exam_id c h =
      ground (arith, eq_iff c.user_id user_id, eq_iff c.exam_id exam_id)

  verified_parts :
      (user_id code exam_id : String) (now : ℕ) (s t : Db redis.Store) (c : ExamAccessCode)
      (exam : Exam)
      → find_and_verify_code env user_id code exam_id now s ≡ (ok (c, exam), t)
      → (find (exam_has_id exam_id) s.exams ≡ some exam)
        × (exam.status ≡ published)
        × (match_code env code now (candidates env user_id exam_id s.codes) ≡ some c)
        × (t ≡ s)
  unfolding find_and_verify_code
  verified_parts user_id code exam_id now s t c exam e =
      (ground arith, ground arith, ground arith, ground arith)

  candidates-All :
      (P : ExamAccessCode → Type 0) (user_id exam_id : String) (codes : List ExamAccessCode)
      → All P codes
      → All (λ c. IsUnusedCode user_id exam_id c × P c) (candidates env user_id exam_id codes)
  candidates-All P user_id exam_id codes h = All-sort_by _ _ _ (unused codes h)
    where
      unused :
          (cs : List ExamAccessCode)
          → All P cs
          → All
              (λ c. IsUnusedCode user_id exam_id c × P c)
              (select (is_unused_for user_id exam_id) cs)
      unused [] k = tt
      unused (x ∷ xs) k = elim (Bool-cases (is_unused_for user_id exam_id x)) [
        | inl e ↦ rw e ((unused_code user_id exam_id x e, k.0), unused xs k.1)
        | inr e ↦ rw e (unused xs k.1)
      ]

  -- A code is accepted only for a published exam, and only if it is an unused code of that student for
  -- that exam, has not expired, and its hash fits; and it is one of the rows of the table.
  pub find_and_verify_code_sound :
      (P : ExamAccessCode → Type 0) (user_id code exam_id : String) (now : ℕ) (s t : Db redis.Store)
      (c : ExamAccessCode) (exam : Exam)
      → find_and_verify_code env user_id code exam_id now s ≡ (ok (c, exam), t)
      → All P s.codes
      → (find (exam_has_id exam_id) s.exams ≡ some exam)
        × (exam.status ≡ published)
        × IsUnusedCode user_id exam_id c
        × Opens code now c
        × P c
  find_and_verify_code_sound P user_id code exam_id now s t c exam e h =
      let (found, status, matched, _) = verified_parts user_id code exam_id now s t c exam e in
      let ((unused, held), opens) =
        match_code_sound (λ x. IsUnusedCode user_id exam_id x × P x) code now _ c matched
          (candidates-All P user_id exam_id s.codes h) in
      (found, status, unused, opens, held)

  -- If `validateAccess` refuses a text as a code for a published exam and has changed nothing,
  -- the text opens no unused code that the student has for that exam.
  pub validate_access_refused :
      (user_id code exam_id : String) (now : ℕ) (s : Db redis.Store) (exam : Exam) (x : Exception)
      → find (exam_has_id exam_id) s.exams ≡ some exam
      → exam.status ≡ published
      → validate_access env user_id code exam_id now s ≡ (err x, s)
      → All (λ c. ¬ Opens code now c) (select (is_unused_for user_id exam_id) s.codes)
  unfolding validate_access find_and_verify_code
  validate_access_refused user_id code exam_id now s exam x row status e =
      All-sort_by_inv _ _ _
        (match_code_complete code now (candidates env user_id exam_id s.codes) (ground arith))
