-- ===== src/Exam/Submit/Outcome.antt =====
-- What closing a session does to the tables, however the request came to it.
use ios_backend.Base.{
  ℕ, ◌≡◌, ◌≢◌, Bool, none, String, ◌∷◌, find, count, update, ok, err, pure, ◌>>◌, ◌↔◌, conflict,
  arith, eq_iff,
}
use ios_backend.Exam.Types.{
  Answers, TestSession, AttemptStatus, ExamAttempt, Db, is_open_with_id, exam_has_id,
}
use ios_backend.Exam.Platform.{Platform, on_redis}
use ios_backend.Exam.Scoring.{score_answers, ScoreResult}
use ios_backend.Redis.Keys.{session_key}
use ios_backend.Exam.TestSessions.{delete_session}
use ios_backend.Exam.Submit.{
  persist_attempt, score_and_persist, close_session, closing_status, new_attempt,
}

module _ (env : Platform) where
  open env use {redis}

  -- The tables after a session has been closed.
  abbrev pub closed :
      TestSession → Answers → AttemptStatus → ExamAttempt → ℕ → Db redis.Store → Db redis.Store
  closed session answers status attempt now s = record s {
    sessions =
        update (is_open_with_id session.id) (close_session (closing_status status) now answers)
          s.sessions;
    attempts = attempt ∷ s.attempts;
  }

  pub persist_attempt_open :
      (session : TestSession) (answers : Answers) (status : AttemptStatus) (attempt : ExamAttempt)
      (now : ℕ) (s : Db redis.Store)
      → attempt.user_id ≡ session.user_id
      → count (is_open_with_id session.id) s.sessions ≡ 1
      → persist_attempt env session answers status attempt now s
        ≡ (ok tt, closed session answers status attempt now s)
  unfolding persist_attempt
  persist_attempt_open session answers status attempt now s own one =
      ground (arith, eq_iff session.user_id attempt.user_id)

  pub persist_attempt_closed :
      (session : TestSession) (answers : Answers) (status : AttemptStatus) (attempt : ExamAttempt)
      (now : ℕ) (s : Db redis.Store)
      → count (is_open_with_id session.id) s.sessions ≢ 1
      → persist_attempt env session answers status attempt now s
        ≡ (err (conflict "Session has already been submitted"), s)
  unfolding persist_attempt
  persist_attempt_closed session answers status attempt now s other = ground arith

  -- The scoring of the exam that a session is for, as the tables stand.
  abbrev pub result_for : TestSession → Answers → Db redis.Store → ScoreResult
  result_for session answers s =
      score_answers env.rounding answers (find (exam_has_id session.exam_id) s.exams)

  abbrev pub attempt_for :
      TestSession → Answers → AttemptStatus → Bool → ℕ → String → Db redis.Store → ExamAttempt
  attempt_for session answers status late now attempt_id s =
      new_attempt env session answers status late now attempt_id (result_for session answers s)

  pub score_and_persist_open :
      (session : TestSession) (answers : Answers) (status : AttemptStatus) (late : Bool) (now : ℕ)
      (id : String) (s : Db redis.Store)
      → count (is_open_with_id session.id) s.sessions ≡ 1
      → let closed_db =
          closed session answers status (attempt_for session answers status late now id s) now s in
        score_and_persist env session answers status late now id s
        ≡ (on_redis (delete_session env now session.id) >> pure (result_for session answers s))
            closed_db
  unfolding score_and_persist persist_attempt
  score_and_persist_open session answers status late now id s one =
      ground (arith, eq_iff session.user_id session.user_id)

  pub score_and_persist_closed :
      (session : TestSession) (answers : Answers) (status : AttemptStatus) (late : Bool) (now : ℕ)
      (id : String) (s : Db redis.Store)
      → count (is_open_with_id session.id) s.sessions ≢ 1
      → score_and_persist env session answers status late now id s
        ≡ (err (conflict "Session has already been submitted"), s)
  unfolding score_and_persist persist_attempt
  score_and_persist_closed session answers status late now id s other = ground arith

  pub score_and_persist_commits :
      (session : TestSession) (answers : Answers) (status : AttemptStatus) (late : Bool) (now : ℕ)
      (id : String) (s : Db redis.Store)
      → count (is_open_with_id session.id) s.sessions ≡ 1
      → let (r, t) = score_and_persist env session answers status late now id s in
        let wanted =
          closed session answers status (attempt_for session answers status late now id s) now s in
        (t ≡ record wanted { redis = t.redis })
        × ((r ≡ ok (result_for session answers s))
            ↔ (redis.del (session_key session.id) s.redis ≢ none))
  unfolding delete_session
  score_and_persist_commits session answers status late now id s one =
      rw (score_and_persist_open session answers status late now id s one)
        (ground arith, ((λ k. ground arith), (λ k. ground arith)))
