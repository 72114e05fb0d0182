-- ===== src/Exam/Requests/Rows.antt =====
-- Which sessions and attempts the handlers write that close no session.
use ios_backend.Base.{
  ℕ, ◌≡◌, refl, ◌⊎◌, inl, inr, true, some, String, List, ◌∷◌, find, count, update, delete_none,
  find_holds, is_some, Bool-cases, Option-cases, Outcome-cases, arith, eq_iff, eq_refl,
}
use ios_backend.Exam.Types.{
  Exam, ExamAccessCode, TestSession, TestSessionStatus, Db, is_active, is_active_for,
  session_has_id,
}
use ios_backend.Exam.Platform.{Platform}
use ios_backend.Exam.Codes.{Fresh, assign_exam, assign_next_exam, find_and_verify_code}
use ios_backend.Exam.Keyspace.{handle_session_expiry}
use ios_backend.Exam.Start.{begin_session, start_exam}
use ios_backend.Exam.Start.Outcome.{begin_session-cases, find_and_verify_code-keeps, started_row}

abbrev pub expire_rows : String → List TestSession → List TestSession
expire_rows id = update (session_has_id id) (λ t. record t { status = TestSessionStatus.expired })

module _ (env : Platform) where
  open env use {redis, start_faults}

  pub assign_exam-rows :
      (user_id exam_id cert_id : String) (fresh : Fresh) (now : ℕ) (s : Db redis.Store)
      → let t = (assign_exam env user_id exam_id cert_id fresh now s).1 in
        (t.sessions ≡ s.sessions) × (t.attempts ≡ s.attempts)
  unfolding assign_exam
  assign_exam-rows user_id exam_id cert_id fresh now s = (ground arith, ground arith)

  pub assign_next_exam-rows :
      (user_id cert_id : String) (fresh : Fresh) (now : ℕ) (s : Db redis.Store)
      → let t = (assign_next_exam env user_id cert_id fresh now s).1 in
        (t.sessions ≡ s.sessions) × (t.attempts ≡ s.attempts)
  unfolding assign_next_exam
  assign_next_exam-rows user_id cert_id fresh now s = (ground arith, ground arith)

  pub handle_session_expiry-rows :
      (id : String) (now : ℕ) (s : Db redis.Store)
      → let t = (handle_session_expiry env id now s).1 in
        (t.attempts ≡ s.attempts)
        × ((t.sessions ≡ s.sessions)
            ⊎ ((row : TestSession) × (find (session_has_id id) s.sessions ≡ some row)
                × (is_active row.status ≡ true)
                × (t.sessions ≡ expire_rows id s.sessions)))
  unfolding handle_session_expiry
  handle_session_expiry-rows id now s = elim (Option-cases (find (session_has_id id) s.sessions)) [
    | inl missing ↦ (ground (arith, missing), inl (ground (arith, missing)))
    | inr (row, found) ↦
        let same : row.id ≡ id =
          (eq_iff row.id id).0 (find_holds (session_has_id id) s.sessions row found) in
        elim (Bool-cases (is_active row.status)) [
          | inl active ↦ (
            ground (arith, found, active),
            inr (row, found, active, ground (arith, found, active, same)),
          )
          | inr other ↦ (ground (arith, found, other), inl (ground (arith, found, other)))
        ]
  ]

  begin_session-rows :
      (user_id exam_id session_id : String) (now : ℕ) (found : ExamAccessCode × Exam)
      (s : Db redis.Store)
      → count (session_has_id session_id) s.sessions ≡ 0
      → let t = (begin_session env user_id exam_id session_id now found s).1 in
        (t.attempts ≡ s.attempts)
        × ((t.sessions ≡ s.sessions)
            ⊎ (t.sessions ≡ started_row env user_id exam_id session_id now found ∷ s.sessions))
  begin_session-rows user_id exam_id session_id now found s fresh =
      elim (begin_session-cases env user_id exam_id session_id now found s) [
        | inl used ↦ rw used (refl, inl refl)
        | inr (inl (r, failed, why)) ↦ elim (Bool-cases (start_faults session_id).compensation) [
          | inl e ↦ (ground (arith, failed, e), inr (ground (arith, failed, e)))
          | inr e ↦ (
            ground (arith, failed, e),
            inl (
                ground (
                  arith,
                  failed,
                  e,
                  eq_refl session_id,
                  delete_none (session_has_id session_id) s.sessions,
                )),
          )
        ]
        | inr (inr (q, accepted, unused, done)) ↦ rw done (refl, inr refl)
      ]

  pub start_exam-rows :
      (user_id code exam_id session_id : String) (now : ℕ) (s : Db redis.Store)
      → count (session_has_id session_id) s.sessions ≡ 0
      → let t = (start_exam env user_id code exam_id session_id now s).1 in
        (t.attempts ≡ s.attempts)
        × ((t.sessions ≡ s.sessions)
            ⊎ ((found : ExamAccessCode × Exam) × (t.sessions
                  ≡ started_row env user_id exam_id session_id now found ∷ s.sessions)))
  unfolding start_exam
  start_exam-rows user_id code exam_id session_id now s fresh =
      let keeps = find_and_verify_code-keeps env user_id code exam_id now s in
      elim (Outcome-cases (find_and_verify_code env user_id code exam_id now s)) [
        | inr (x, u, bad) ↦ (ground (arith, bad, keeps), inl (ground (arith, bad, keeps)))
        | inl (found, u, good) ↦
            elim (Bool-cases (is_some (find (is_active_for user_id exam_id) s.sessions))) [
              | inl active ↦
                  (ground (arith, good, keeps, active), inl (ground (arith, good, keeps, active)))
              | inr idle ↦
                  let (attempts, rows) =
                    begin_session-rows user_id exam_id session_id now found s fresh in
                  (
                    ground (arith, good, keeps, idle, attempts),
                    elim rows [
                      | inl same ↦ inl (ground (arith, good, keeps, idle, same))
                      | inr added ↦ inr (found, ground (arith, good, keeps, idle, added))
                    ],
                  )
            ]
      ]
