-- ===== src/Exam/Start/Outcome.antt =====
-- The branches of `startExam`.
use ios_backend.Base.{
  ℕ, ◌+◌, ◌*◌, ◌≡◌, ◌≢◌, Option, none, some, String, List, [], ◌∷◌, find, count, update, delete, ok,
  err, conflict, failure, arith, Result, if◌then◌else◌, ◌⊎◌, inl, inr, refl, true, false, nat_eq,
  Bool-cases, Option-cases,
}
use ios_backend.Exam.Types.{
  Exam, ExamAccessCode, TestSession, Db, session_has_id, is_unused_with_id, code_has_id,
  exam_has_id,
}
use ios_backend.Exam.Platform.{Platform}
use ios_backend.Exam.Codes.{find_and_verify_code}
use ios_backend.Exam.Start.{StartedExam, mark_used, new_session, begin_session, sorted_questions}
use ios_backend.Redis.Keys.{session_key}

module _ (env : Platform) where
  open env use {redis, session_json, start_faults}

  -- The checks of a code read the tables and change nothing.
  pub find_and_verify_code-keeps :
      (user_id code exam_id : String) (now : ℕ) (s : Db redis.Store)
      → (find_and_verify_code env user_id code exam_id now s).1 ≡ s
  unfolding find_and_verify_code
  find_and_verify_code-keeps user_id code exam_id now s = ground arith

  -- The session row that a start adds.
  abbrev pub started_row : String → String → String → ℕ → ExamAccessCode × Exam → TestSession
  started_row user_id exam_id session_id now found =
      new_session env user_id exam_id found.0 now (found.1.duration_minutes * 60) session_id

  pub begin_session_used :
      (user_id exam_id session_id : String) (now : ℕ) (found : ExamAccessCode × Exam)
      (s : Db redis.Store)
      → count (is_unused_with_id found.0.id) s.codes ≡ 0
      → begin_session env user_id exam_id session_id now found s
        ≡ (err (conflict "Access code has already been used"), s)
  unfolding begin_session
  begin_session_used user_id exam_id session_id now found s used = ground arith

  abbrev pub used_codes : ℕ → String → List ExamAccessCode → List ExamAccessCode
  used_codes now id codes = update (is_unused_with_id id) (mark_used (some now)) codes

  -- The answer of Redis to the key of the new session.
  abbrev pub key_set :
      String → String → String → ℕ → ExamAccessCode × Exam → Db redis.Store → Option redis.Store
  key_set user_id exam_id session_id now found s =
      redis.set_ex now (session_key session_id)
        (session_json.stringify (record {
          session_id = session_id;
          user_id = user_id;
          exam_id = exam_id;
          cert_id = found.0.cert_id;
          started_at = now;
          answers = [];
        }))
        (found.1.duration_minutes * 60) s.redis

  abbrev pub started_exam :
      String → String → ℕ → ExamAccessCode × Exam → Db redis.Store → StartedExam
  started_exam exam_id session_id now found s = record {
    session_id = session_id;
    duration_seconds = found.1.duration_minutes * 60;
    expires_at = now + found.1.duration_minutes * 60 * 1000;
    questions = sorted_questions (find (exam_has_id exam_id) s.exams);
  }

  -- The tables after the transaction of a start.
  abbrev pub started_db :
      String
      → String
      → String
      → ℕ
      → ExamAccessCode × Exam
      → Db redis.Store
      → redis.Store
      → Db redis.Store
  started_db user_id exam_id session_id now found s r = record s {
    sessions = started_row user_id exam_id session_id now found ∷ s.sessions;
    codes = used_codes now found.0.id s.codes;
    redis = r;
  }

  -- A start that is taken back, if that works.
  abbrev pub failed_start :
      String
      → String
      → String
      → ℕ
      → ExamAccessCode × Exam
      → Db redis.Store
      → redis.Store
      → Result StartedExam × Db redis.Store
  failed_start user_id exam_id session_id now found s r =
      if (start_faults session_id).compensation
      then (err (failure "database"), started_db user_id exam_id session_id now found s r)
      else (
        err (failure "redis"),
        record s {
          sessions =
              delete (session_has_id session_id)
                (started_row user_id exam_id session_id now found ∷ s.sessions);
          codes =
              update (code_has_id found.0.id) (mark_used none) (used_codes now found.0.id s.codes);
          redis = r;
        },
      )

  pub begin_session_refused :
      (user_id exam_id session_id : String) (now : ℕ) (found : ExamAccessCode × Exam)
      (s : Db redis.Store)
      → count (is_unused_with_id found.0.id) s.codes ≢ 0
      → key_set user_id exam_id session_id now found s ≡ none
      → begin_session env user_id exam_id session_id now found s
        ≡ failed_start user_id exam_id session_id now found s s.redis
  unfolding begin_session
  begin_session_refused user_id exam_id session_id now found s unused refused = ground arith

  pub begin_session_lost :
      (user_id exam_id session_id : String) (now : ℕ) (found : ExamAccessCode × Exam)
      (s : Db redis.Store) (q : redis.Store)
      → count (is_unused_with_id found.0.id) s.codes ≢ 0
      → key_set user_id exam_id session_id now found s ≡ some q
      → (start_faults session_id).lost_reply ≡ true
      → begin_session env user_id exam_id session_id now found s
        ≡ failed_start user_id exam_id session_id now found s q
  unfolding begin_session
  begin_session_lost user_id exam_id session_id now found s q unused accepted lost = ground arith

  pub begin_session_accepted :
      (user_id exam_id session_id : String) (now : ℕ) (found : ExamAccessCode × Exam)
      (s : Db redis.Store) (q : redis.Store)
      → count (is_unused_with_id found.0.id) s.codes ≢ 0
      → key_set user_id exam_id session_id now found s ≡ some q
      → (start_faults session_id).lost_reply ≡ false
      → begin_session env user_id exam_id session_id now found s ≡ (
        (if (start_faults session_id).load
            then err (failure "database")
            else ok (started_exam exam_id session_id now found s)),
        started_db user_id exam_id session_id now found s q,
      )
  unfolding begin_session
  begin_session_accepted user_id exam_id session_id now found s q unused accepted kept =
      ground arith

  -- The branches of a start whose code was verified.
  pub begin_session-cases :
      (user_id exam_id session_id : String) (now : ℕ) (found : ExamAccessCode × Exam)
      (s : Db redis.Store)
      → (begin_session env user_id exam_id session_id now found s
          ≡ (err (conflict "Access code has already been used"), s))
        ⊎ (((r : redis.Store) × (begin_session env user_id exam_id session_id now found s
                ≡ failed_start user_id exam_id session_id now found s r)
              × ((r ≡ s.redis) ⊎ ((start_faults session_id).lost_reply ≡ true)))
            ⊎ ((q : redis.Store) × (key_set user_id exam_id session_id now found s ≡ some q)
                × (count (is_unused_with_id found.0.id) s.codes ≢ 0)
                × (begin_session env user_id exam_id session_id now found s ≡ (
                  (if (start_faults session_id).load
                      then err (failure "database")
                      else ok (started_exam exam_id session_id now found s)),
                  started_db user_id exam_id session_id now found s q,
                ))))
  begin_session-cases user_id exam_id session_id now found s =
      elim (Bool-cases (nat_eq (count (is_unused_with_id found.0.id) s.codes) 0)) [
        | inl z ↦ inl (begin_session_used user_id exam_id session_id now found s (ground arith))
        | inr p ↦
            let unused : count (is_unused_with_id found.0.id) s.codes ≢ 0 =
              λ e. absurd (ground (arith, e, p)) in
            elim (Option-cases (key_set user_id exam_id session_id now found s)) [
              | inl refused ↦ inr (
                  inl (
                    s.redis,
                    begin_session_refused user_id exam_id session_id now found s unused refused,
                    inl refl,
                  ))
              | inr (q, set) ↦ elim (Bool-cases (start_faults session_id).lost_reply) [
                | inl lost ↦ inr (
                    inl (
                      q,
                      begin_session_lost user_id exam_id session_id now found s q unused set lost,
                      inr lost,
                    ))
                | inr kept ↦ inr (
                    inr (
                      q,
                      set,
                      unused,
                      begin_session_accepted user_id exam_id session_id now found s q unused set
                          kept,
                    ))
              ]
            ]
      ]
