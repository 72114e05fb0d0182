-- ===== src/Exam/Start.antt =====
-- `startExam` of src/modules/exam/exam.service.ts. The id of the new row and the time are
-- arguments.
pub mod Outcome
pub mod Atomic
pub mod OneTime
use ios_backend.Base.{
  ℕ, ◌+◌, ◌*◌, Option, none, some, String, List, [], ◌∷◌, nat_eq, is_some, find, count, update,
  delete, sort_by, ascending, Exception, Action, pure, raise, gets, modify, raise_if, transaction,
  handle, ◌>>=◌, ◌>>◌, conflict, failure,
}
use ios_backend.Exam.Types.{
  ExamQuestion, Exam, ExamAccessCode, TestSession, TestSessionStatus, Db, session_has_id,
  is_active_for, is_unused_with_id, code_has_id, exam_has_id,
}
use ios_backend.Exam.Platform.{Platform, on_redis}
use ios_backend.Exam.Codes.{find_and_verify_code}
use ios_backend.Exam.TestSessions.{start}

pub record StartedExam : Type 0 where
  pub session_id : String
  pub duration_seconds : ℕ
  pub expires_at : ℕ
  pub questions : List ExamQuestion

abbrev pub mark_used : Option ℕ → ExamAccessCode → ExamAccessCode
mark_used at c = record c { used_at = at }

abbrev pub sorted_questions : Option Exam → List ExamQuestion
sorted_questions none = []
sorted_questions (some e) = sort_by (ascending (λ q. q.position)) e.questions

module _ (env : Platform) where
  open env use {redis, start_faults}

  abbrev Method : Type 0 → Type 0
  Method A = Action (Db redis.Store) A

  -- The transaction of `startExam`: the code is used up, and the row is saved.
  abbrev pub new_session : String → String → ExamAccessCode → ℕ → ℕ → String → TestSession
  new_session user_id exam_id access now duration session_id = record {
    id = session_id;
    user_id = user_id;
    exam_id = exam_id;
    cert_id = some access.cert_id;
    session_token = access.id;
    started_at = now;
    duration_seconds = duration;
    expires_at = now + duration * 1000;
    status = TestSessionStatus.active;
    submitted_at = none;
    snapshot = none;
  }

  unfoldable pub consume_code : ExamAccessCode → TestSession → ℕ → Method TestSession
  consume_code access session now = transaction do
    affected ← gets (λ s. count (is_unused_with_id access.id) s.codes)
    modify (λ s. record s {
      codes = update (is_unused_with_id access.id) (mark_used (some now)) s.codes;
    })
    raise_if (nat_eq affected 0) (conflict "Access code has already been used")
    modify (λ s. record s { sessions = session ∷ s.sessions })
    pure session

  -- What `startExam` does when Redis refuses the session key: a transaction, which can fail itself.
  unfoldable pub compensate : String → String → Exception → Method (Unit {0})
  compensate session_id code_id e = do
    raise_if (start_faults session_id).compensation (failure "database")
    modify (λ s. record s {
      sessions = delete (session_has_id session_id) s.sessions;
      codes = update (code_has_id code_id) (mark_used none) s.codes;
    })
    raise e

  -- `startExam` once the code is verified and no session is active.
  unfoldable pub begin_session :
      String → String → String → ℕ → ExamAccessCode × Exam → Method StartedExam
  unfolding consume_code compensate start
  begin_session user_id exam_id session_id now found = do
    let duration = found.1.duration_minutes * 60
    session ← consume_code found.0 (new_session user_id exam_id found.0 now duration session_id) now
    handle
        (do
          on_redis (
              start env now
                (record {
                  session_id = session.id;
                  user_id = user_id;
                  exam_id = exam_id;
                  cert_id = found.0.cert_id;
                  started_at = now;
                })
                duration)
          raise_if (start_faults session_id).lost_reply (failure "redis"))
        (compensate session.id found.0.id)
    raise_if (start_faults session_id).load (failure "database")
    row ← gets (λ s. find (exam_has_id exam_id) s.exams)
    pure (record {
      session_id = session.id;
      duration_seconds = duration;
      expires_at = now + duration * 1000;
      questions = sorted_questions row;
    })

  unfoldable pub start_exam : String → String → String → String → ℕ → Method StartedExam
  unfolding begin_session
  start_exam user_id code exam_id session_id now = do
    found ← find_and_verify_code env user_id code exam_id now
    existing ← gets (λ s. find (is_active_for user_id exam_id) s.sessions)
    raise_if (is_some existing) (conflict "An active session already exists for this exam")
    begin_session user_id exam_id session_id now found
