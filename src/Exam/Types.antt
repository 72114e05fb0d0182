-- ===== src/Exam/Types.antt =====
-- The rows of the exam tables (src/database/entities/exam.entity.ts, exam-access-code.entity.ts,
-- test-session.entity.ts, exam-attempt.entity.ts) with the columns that the services use, and the
-- store that the exam services share. Ids are texts, times are milliseconds, and a score is in
-- hundredths of a percent (`numeric(5, 2)`).
use ios_backend.Base.{ℕ, ℤ, Bool, true, false, Option, String, List, ◌==◌, ◌&&◌, is_none}

pub data ExamStatus : Type 0 where
  draft published : ExamStatus

abbrev pub is_published : ExamStatus → Bool
is_published published = true
is_published draft = false

pub data QuestionType : Type 0 where
  mcq true_false : QuestionType

pub record ExamQuestionOption : Type 0 where
  pub id : String
  pub option_text : String
  pub is_correct : Bool

pub record ExamQuestion : Type 0 where
  pub id : String
  pub question_text : String
  pub question_type : QuestionType
  pub position : ℕ
  pub marks : Option ℤ
  pub options : List ExamQuestionOption

pub record Exam : Type 0 where
  pub id : String
  pub cert_id : String
  pub title : String
  pub exam_order : ℕ
  pub status : ExamStatus
  pub passing_score : Option ℕ
  pub duration_minutes : ℕ
  pub questions : List ExamQuestion

pub record ExamAccessCode : Type 0 where
  pub id : String
  pub user_id : String
  pub exam_id : String
  pub cert_id : String
  pub token_hash : String
  pub expires_at : ℕ
  pub used_at : Option ℕ
  pub created_at : ℕ

-- `Record<string, string>`: question id to option id.
abbrev pub Answers : Type 0
Answers = List (String × String)

pub data TestSessionStatus : Type 0 where
  active submitted expired auto_submitted : TestSessionStatus

-- ACTIVE or EXPIRED: the session has not been scored.
abbrev pub is_open : TestSessionStatus → Bool
is_open active = true
is_open expired = true
is_open submitted = false
is_open auto_submitted = false

abbrev pub is_active : TestSessionStatus → Bool
is_active active = true
is_active submitted = false
is_active expired = false
is_active auto_submitted = false

abbrev pub is_expired : TestSessionStatus → Bool
is_expired expired = true
is_expired active = false
is_expired submitted = false
is_expired auto_submitted = false

pub record TestSession : Type 0 where
  pub id : String
  pub user_id : String
  pub exam_id : String
  pub cert_id : Option String
  pub session_token : String
  pub started_at : ℕ
  pub duration_seconds : ℕ
  pub expires_at : ℕ
  pub status : TestSessionStatus
  pub submitted_at : Option ℕ
  pub snapshot : Option Answers

pub data AttemptStatus : Type 0 where
  submitted auto_submitted : AttemptStatus

pub record ExamAttempt : Type 0 where
  pub id : String
  pub user_id : String
  pub exam_id : String
  pub cert_id : String
  pub score : ℤ
  pub passed : Bool
  pub answers : Answers
  pub duration_seconds : ℕ
  pub started_at : ℕ
  pub submitted_at : ℕ
  pub status : AttemptStatus
  pub late_flag : Bool

-- The tables, the Redis store, and the session_expired events that the gateway has emitted.
pub record Db (R : Type 0) : Type 0 where
  pub exams : List Exam
  pub codes : List ExamAccessCode
  pub sessions : List TestSession
  pub attempts : List ExamAttempt
  pub redis : R
  pub emitted : List String

-- The `where` of the queries on these tables.
abbrev pub session_has_id : String → TestSession → Bool
session_has_id id s = s.id == id

-- `{ userId, examId, status: ACTIVE }`
abbrev pub is_active_for : String → String → TestSession → Bool
is_active_for user_id exam_id s = s.user_id == user_id && s.exam_id == exam_id && is_active s.status

-- `{ id, status: In([ACTIVE, EXPIRED]) }`
abbrev pub is_open_with_id : String → TestSession → Bool
is_open_with_id id s = s.id == id && is_open s.status

abbrev pub is_closed : TestSession → Bool
is_closed s = elim (is_open s.status) [ true ↦ false | false ↦ true ]

-- `{ userId, examId, usedAt: IsNull() }`
abbrev pub is_unused_for : String → String → ExamAccessCode → Bool
is_unused_for user_id exam_id c = c.user_id == user_id && c.exam_id == exam_id && is_none c.used_at

-- `{ id, usedAt: IsNull() }`
abbrev pub is_unused_with_id : String → ExamAccessCode → Bool
is_unused_with_id id c = c.id == id && is_none c.used_at

abbrev pub code_has_id : String → ExamAccessCode → Bool
code_has_id id c = c.id == id

abbrev pub exam_has_id : String → Exam → Bool
exam_has_id id e = e.id == id
