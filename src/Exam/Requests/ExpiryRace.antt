-- ===== src/Exam/Requests/ExpiryRace.antt =====
-- `handleSessionExpiry` reads the session, and then sets its status by id alone. A submit that
-- commits between the two is overwritten.
use ios_backend.Base.{
  ℕ, ◌+◌, ◌≡◌, refl, ap, ◌∙◌, ◌==◌, Bool, true, false, some, String, List, [], ◌∷◌, find, count,
  update, or_else, inl, inr, Bool-cases, arith, eq_refl,
}
use ios_backend.Exam.Types.{
  TestSession, TestSessionStatus, AttemptStatus, Answers, Db, is_active, is_open, session_has_id,
  is_open_with_id,
}
use ios_backend.Exam.Platform.{Platform}
use ios_backend.Exam.Keyspace.{expire_session}
use ios_backend.Exam.Submit.{score_and_persist, close_session, auto_submit_from_snapshot}
use ios_backend.Exam.Submit.Outcome.{score_and_persist_commits}
use ios_backend.Exam.Requests.Rows.{expire_rows}
use ios_backend.Exam.Requests.Accounting.{is_attempt_for}

-- The rows after a submit and the late second half of the expiry.
abbrev overwritten : String → ℕ → Answers → List TestSession → List TestSession
overwritten id now answers xs =
    expire_rows id
      (update (is_open_with_id id) (close_session TestSessionStatus.submitted now answers) xs)

-- The row of an active session after both.
abbrev reopened : ℕ → Answers → TestSession → TestSession
reopened now answers row = record (close_session TestSessionStatus.submitted now answers row) {
  status = TestSessionStatus.expired;
}

expired_none :
    (id : String) (xs : List TestSession)
    → count (session_has_id id) xs ≡ 0
    → count (is_open_with_id id) xs ≡ 0
expired_none id [] h = refl
expired_none id (x ∷ xs) h = ground (arith, expired_none id xs)

overwritten_none :
    (id : String) (now : ℕ) (answers : Answers) (xs : List TestSession)
    → count (session_has_id id) xs ≡ 0
    → count (is_open_with_id id) (overwritten id now answers xs) ≡ 0
overwritten_none id now answers [] h = refl
overwritten_none id now answers (x ∷ xs) h = ground (arith, overwritten_none id now answers xs)

open_once :
    (id : String) (now : ℕ) (answers : Answers) (row : TestSession) (xs : List TestSession)
    → find (session_has_id id) xs ≡ some row
    → is_active row.status ≡ true
    → count (session_has_id id) xs ≡ 1
    → (count (is_open_with_id id) xs ≡ 1)
      × (find (session_has_id id) (overwritten id now answers xs) ≡ some (reopened now answers row))
      × (count (is_open_with_id id) (overwritten id now answers xs) ≡ 1)
open_once id now answers row [] e a one = absurd (cc)
open_once id now answers row (x ∷ xs) e a one = elim (Bool-cases (x.id == id)) [
  | inl same ↦ ground (arith, same, expired_none id xs, overwritten_none id now answers xs)
  | inr other ↦ ground (arith, other, open_once id now answers row xs)
]

module _ (env : Platform) where
  open env use {redis}

  expire_session-rows :
      (row : TestSession) (now : ℕ) (s : Db redis.Store)
      → let t = (expire_session env row now s).1 in
        (t.sessions ≡ expire_rows row.id s.sessions) × (t.attempts ≡ s.attempts)
  unfolding expire_session
  expire_session-rows row now s = (ground arith, ground arith)

  auto_submit-commits :
      (id : String) (row : TestSession) (now : ℕ) (attempt_id : String) (s : Db redis.Store)
      → find (session_has_id id) s.sessions ≡ some row
      → is_open row.status ≡ true
      → (auto_submit_from_snapshot env id now attempt_id s).1
        ≡ (score_and_persist env row
            (or_else row.snapshot [])
            AttemptStatus.auto_submitted
            false
            now
            attempt_id
            s).1
  unfolding auto_submit_from_snapshot
  auto_submit-commits id row now attempt_id s found active = ground (arith, found, active)

  -- A student submits an active session, the only row of its id. The submission commits after
  -- the expiry handler has read the session as active and before it writes; when the grace key
  -- expires, the session is scored again: the student has two new attempts for one session,
  -- whatever Redis answers in between.
  pub expiry_race :
      (row : TestSession) (answers : Answers) (late : Bool) (submitted expired graced : ℕ)
      (first second : String) (s : Db redis.Store)
      → find (session_has_id row.id) s.sessions ≡ some row
      → is_active row.status ≡ true
      → count (session_has_id row.id) s.sessions ≡ 1
      → let s₁ =
          (score_and_persist env row answers AttemptStatus.submitted late submitted first s).1 in
        let s₂ = (expire_session env row expired s₁).1 in
        let s₃ = (auto_submit_from_snapshot env row.id graced second s₂).1 in
        count (is_attempt_for row.user_id row.exam_id) s₃.attempts
        ≡ count (is_attempt_for row.user_id row.exam_id) s.attempts + 2
  expiry_race row answers late submitted expired graced first second s found active one =
      let (opened, reread, again) =
        open_once row.id submitted answers row s.sessions found active one in
      let s₁ =
        (score_and_persist env row answers AttemptStatus.submitted late submitted first s).1 in
      let s₂ = (expire_session env row expired s₁).1 in
      let c₁ =
        score_and_persist_commits env row answers AttemptStatus.submitted late submitted first s
          opened in
      let (rows, attempts) = expire_session-rows row expired s₁ in
      let rows₂ : s₂.sessions ≡ overwritten row.id submitted answers s.sessions =
        rows ∙ ap (λ d. expire_rows row.id d.sessions) c₁.0 in
      let row₂ = reopened submitted answers row in
      let c₂ =
        score_and_persist_commits env row₂ answers AttemptStatus.auto_submitted false graced second
          s₂ (rw rows₂ again) in
      rw (auto_submit-commits row.id row₂ graced second s₂ (rw rows₂ reread) refl) (
        rw (ap (λ d. d.attempts) c₂.0) (
          rw (attempts, ap (λ d. d.attempts) c₁.0)
            (ground (arith, eq_refl row.user_id, eq_refl row.exam_id))))
