-- ===== src/Exam/Start/OneTime.antt =====
-- What a start that succeeds has done, and that its access code starts no other session.
use ios_backend.Base.{
  ℕ, ◌+◌, ◌*◌, ◌≡◌, refl, ◌≢◌, inl, inr, none, some, String, List, [], ◌∷◌, find, count, update,
  Bool-cases, ok, err, Outcome-cases, conflict, arith, eq_refl, sym, ◌∙◌, Memᴰ, All-members,
}
use ios_backend.Redis.Keys.{session_key}
use ios_backend.Exam.Types.{
  Exam, ExamAccessCode, Db, is_active_for, is_unused_with_id, exam_has_id, published,
}
use ios_backend.Exam.Platform.{Platform}
use ios_backend.Exam.Codes.{find_and_verify_code}
use ios_backend.Exam.Codes.Matching.{find_and_verify_code_sound, IsUnusedCode, Opens}
use ios_backend.Exam.Start.{StartedExam, mark_used, begin_session, start_exam}
use ios_backend.Exam.Start.Outcome.{
  begin_session_used, begin_session-cases, find_and_verify_code-keeps, started_row, started_exam,
  used_codes,
}

used_once :
    (now : ℕ) (id : String) (codes : List ExamAccessCode)
    → count (is_unused_with_id id) (update (is_unused_with_id id) (mark_used (some now)) codes) ≡ 0
used_once now id [] = refl
used_once now id (c ∷ cs) = ground (arith, used_once now id cs)

module _ (env : Platform) where
  open env use {redis, session_json, start_faults}

  -- The text that Redis holds for a session that has just begun.
  abbrev first_data : String → String → String → ℕ → ExamAccessCode × Exam → String
  first_data user_id exam_id session_id now found = session_json.stringify (record {
    session_id = session_id;
    user_id = user_id;
    exam_id = exam_id;
    cert_id = found.0.cert_id;
    started_at = now;
    answers = [];
  })

  -- What holds after a session has begun: the row was added, the code was unused and is used up, the
  -- answer describes the row, and Redis has the empty answers until the session's end.
  pub record Begun (user_id exam_id session_id : String) (now : ℕ) (found : ExamAccessCode × Exam)
      (s : Db redis.Store) (out : StartedExam) (t : Db redis.Store) : Type 0 where
    pub answered : out ≡ started_exam env exam_id session_id now found s
    pub stored : t ≡ record s {
      sessions = started_row env user_id exam_id session_id now found ∷ s.sessions;
      codes = used_codes env now found.0.id s.codes;
      redis = t.redis;
    }
    pub was_unused : count (is_unused_with_id found.0.id) s.codes ≢ 0
    pub counts_down :
        redis.entry t.redis (session_key session_id)
        ≡ some (record {
          value = first_data user_id exam_id session_id now found;
          deadline = some (now + found.1.duration_minutes * 60 * 1000);
        })

  pub begin_session-Begun :
      (user_id exam_id session_id : String) (now : ℕ) (found : ExamAccessCode × Exam)
      (s t : Db redis.Store) (out : StartedExam)
      → begin_session env user_id exam_id session_id now found s ≡ (ok out, t)
      → Begun user_id exam_id session_id now found s out t
  begin_session-Begun user_id exam_id session_id now found s t out h =
      elim (begin_session-cases env user_id exam_id session_id now found s) [
        | inl used ↦ absurd (cc (sym used ∙ h))
        | inr (inl (r, failed, why)) ↦ elim (Bool-cases (start_faults session_id).compensation) [
          | inl e ↦ absurd (ground (arith, failed, e, h))
          | inr e ↦ absurd (ground (arith, failed, e, h))
        ]
        | inr (inr (q, accepted, unused, done)) ↦ elim (Bool-cases (start_faults session_id).load) [
          | inl e ↦ absurd (ground (arith, done, e, h))
          | inr e ↦
              let kept =
                redis.entry-set_ex now (session_key session_id) _ _ s.redis q
                  (session_key session_id) accepted in
              record {
                answered = ground (arith, done, e, h);
                stored = ground (arith, done, e, h);
                was_unused = unused;
                counts_down = ground (arith, done, e, h, kept, eq_refl (session_key session_id));
              }
        ]
      ]

  -- A successful `startExam` had a published exam and, in the table, an unused, unexpired code of
  -- that student for it that the text opens, and no active session of the student for the exam. It
  -- has used the code up and added the active row, it answers with the row's id and its end, and the
  -- Redis key holds the empty answers until then.
  pub start_exam_succeeds :
      (user_id code exam_id session_id : String) (now : ℕ) (s t : Db redis.Store)
      (out : StartedExam)
      → start_exam env user_id code exam_id session_id now s ≡ (ok out, t)
      → (c : ExamAccessCode) × (exam : Exam) × (find (exam_has_id exam_id) s.exams ≡ some exam)
        × (exam.status ≡ published)
        × IsUnusedCode env user_id exam_id c
        × Opens env code now c
        × Memᴰ c s.codes
        × (find (is_active_for user_id exam_id) s.sessions ≡ none)
        × Begun user_id exam_id session_id now (c, exam) s out t
  unfolding start_exam
  start_exam_succeeds user_id code exam_id session_id now s t out h =
      elim (Outcome-cases (find_and_verify_code env user_id code exam_id now s)) [
        | inr (x, u, bad) ↦ absurd (ground (arith, bad))
        | inl ((c, exam), u, good) ↦
            let (row, status, unused, opens, member) =
              find_and_verify_code_sound env (λ x. Memᴰ x s.codes) user_id code exam_id now s u c
                exam good (All-members s.codes) in
            let keeps = find_and_verify_code-keeps env user_id code exam_id now s in
            (
              c,
              exam,
              row,
              status,
              unused,
              opens,
              member,
              ground (arith, good, keeps),
              begin_session-Begun user_id exam_id session_id now (c, exam) s t out
                  (ground (arith, good, keeps)),
            )
      ]

  -- Once a session has begun with a code, no request that had verified the same code before can begin
  -- another: it is told that the code is used, and changes nothing.
  pub begin_session_once :
      (user_id exam_id session_id : String) (now : ℕ) (found : ExamAccessCode × Exam)
      (s t : Db redis.Store) (out : StartedExam) (user_id' exam_id' session_id' : String) (now' : ℕ)
      (found' : ExamAccessCode × Exam)
      → begin_session env user_id exam_id session_id now found s ≡ (ok out, t)
      → found'.0.id ≡ found.0.id
      → begin_session env user_id' exam_id' session_id' now' found' t
        ≡ (err (conflict "Access code has already been used"), t)
  begin_session_once user_id exam_id session_id now found s t out user_id' exam_id' session_id' now'
        found' h same =
      let begun = begin_session-Begun user_id exam_id session_id now found s t out h in
      begin_session_used env user_id' exam_id' session_id' now' found' t
        (rw (begun.stored, same) (used_once now found.0.id s.codes))
