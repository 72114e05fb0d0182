-- ===== src/Exam/Submit.antt =====
-- Submit, late submit and automatic submit in src/modules/exam/exam.service.ts.
-- `score_and_persist` takes the row that a handler read before, so that what other requests do in
-- between can be put there. The new row's id and the time are arguments; the clock is read once.
pub mod Outcome
pub mod Late
pub mod Automatic
use ios_backend.Base.{
  ℕ, ◌+◌, ◌-◌, ◌/◌, Bool, true, false, not, Option, none, some, String, [], ◌∷◌, nat_eq,
  if◌then◌else◌, or_else, is_empty, find, count, update, Action, pure, gets, modify, raise_if,
  or_raise, transaction, handle, ◌>>=◌, ◌>>◌, conflict, forbidden, failure,
}
use ios_backend.Exam.Types.{
  Answers, TestSession, TestSessionStatus, AttemptStatus, ExamAttempt, Db, is_open, is_active,
  is_expired, session_has_id, is_open_with_id, exam_has_id,
}
use ios_backend.Exam.Platform.{Platform, on_redis}
use ios_backend.Exam.Scoring.{ScoreResult, score_answers}
use ios_backend.Exam.Codes.{attempt_is_visible}
use ios_backend.Exam.Sessions.{get_owned_session}
use ios_backend.Exam.TestSessions.{delete_session, consume_grace}

-- `session.certId ?? session.examId`
pub resolve_cert_id : TestSession → String
resolve_cert_id s = or_else s.cert_id s.exam_id

abbrev pub closing_status : AttemptStatus → TestSessionStatus
closing_status AttemptStatus.auto_submitted = TestSessionStatus.auto_submitted
closing_status AttemptStatus.submitted = TestSessionStatus.submitted

abbrev pub close_session : TestSessionStatus → ℕ → Answers → TestSession → TestSession
close_session status now answers s = record s {
  status = status;
  submitted_at = some now;
  snapshot = some answers;
}

module _ (env : Platform) where
  open env use {redis}

  abbrev Method : Type 0 → Type 0
  Method A = Action (Db redis.Store) A

  abbrev pub new_attempt :
      TestSession → Answers → AttemptStatus → Bool → ℕ → String → ScoreResult → ExamAttempt
  new_attempt session answers status late now attempt_id r = record {
    id = attempt_id;
    user_id = session.user_id;
    exam_id = session.exam_id;
    cert_id = resolve_cert_id session;
    score = r.score;
    passed = r.passed;
    answers = answers;
    duration_seconds = (now - session.started_at + 500) / 1000;
    started_at = session.started_at;
    submitted_at = now;
    status = status;
    late_flag = late;
  }

  -- An INSERT under the policy of `exam_attempts`.
  abbrev insert_attempt : Option String → ExamAttempt → Method (Unit {0})
  insert_attempt current_user attempt = do
    raise_if (not (attempt_is_visible current_user attempt)) (failure "row-level security")
    modify (λ s. record s { attempts = attempt ∷ s.attempts })

  -- The transaction of `scoreAndPersist`: close the session if it is still open, then insert.
  unfoldable pub persist_attempt :
      TestSession → Answers → AttemptStatus → ExamAttempt → ℕ → Method (Unit {0})
  persist_attempt session answers status attempt now = transaction do
    affected ← gets (λ s. count (is_open_with_id session.id) s.sessions)
    modify (λ s. record s {
      sessions =
          update (is_open_with_id session.id) (close_session (closing_status status) now answers)
            s.sessions;
    })
    raise_if (not (nat_eq affected 1)) (conflict "Session has already been submitted")
    insert_attempt (some session.user_id) attempt

  unfoldable pub score_and_persist :
      TestSession → Answers → AttemptStatus → Bool → ℕ → String → Method ScoreResult
  unfolding persist_attempt delete_session resolve_cert_id
  score_and_persist session answers status late now attempt_id = do
    exam ← gets (λ s. find (exam_has_id session.exam_id) s.exams)
    let r = score_answers env.rounding answers exam
    persist_attempt session answers status
        (new_attempt session answers status late now attempt_id r) now
    on_redis (delete_session env now session.id)
    pure r

  unfoldable pub submit_exam : String → String → Answers → ℕ → String → Method ScoreResult
  unfolding get_owned_session score_and_persist
  submit_exam session_id user_id answers now attempt_id = do
    session ← get_owned_session env session_id user_id is_active
    score_and_persist session answers AttemptStatus.submitted false now attempt_id

  -- `Object.keys(answers).length > 0 ? answers : graceSnapshot`
  abbrev pub final_answers : Answers → Answers → Answers
  final_answers answers snapshot = if is_empty answers then snapshot else answers

  unfoldable pub late_submit_exam : String → String → Answers → ℕ → String → Method ScoreResult
  unfolding get_owned_session score_and_persist consume_grace
  late_submit_exam session_id user_id answers now attempt_id = do
    session ← get_owned_session env session_id user_id is_expired
    grace ← on_redis (consume_grace env now session_id)
    snapshot ←
        or_raise grace (forbidden "Grace window has closed; late submission is no longer accepted")
    score_and_persist session (final_answers answers snapshot) AttemptStatus.submitted true now
        attempt_id

  -- The `try` of `autoSubmitFromSnapshot`: a conflict and any other error are only logged.
  unfoldable pub auto_submit_session : TestSession → ℕ → String → Method (Unit {0})
  unfolding score_and_persist
  auto_submit_session session now attempt_id =
      handle
        (score_and_persist session (or_else session.snapshot []) AttemptStatus.auto_submitted false
            now attempt_id
          >> pure tt)
        (λ _. pure tt)

  abbrev auto_submit_row : Option TestSession → ℕ → String → Method (Unit {0})
  auto_submit_row none now attempt_id = pure tt
  auto_submit_row (some session) now attempt_id =
      if is_open session.status then auto_submit_session session now attempt_id else pure tt

  unfoldable pub auto_submit_from_snapshot : String → ℕ → String → Method (Unit {0})
  unfolding auto_submit_session
  auto_submit_from_snapshot session_id now attempt_id = do
    row ← gets (λ s. find (session_has_id session_id) s.sessions)
    auto_submit_row row now attempt_id
