-- ===== src/Exam/Controller.antt =====
-- `ExamController` and `ExamAdminController` of src/modules/exam/exam.controller.ts: what a student
-- is shown of an exam, and which assignment an admin gets. The other handlers return what the
-- methods of the service return.
pub mod Remark
pub mod Secrecy
use ios_backend.Base.{
  ℕ, ◌==◌, Option, none, some, String, List, map, Action, pure, ◌>>=◌, if◌then◌else◌,
}
use ios_backend.Exam.Types.{Exam, ExamQuestion, ExamQuestionOption, QuestionType, Db}
use ios_backend.Exam.Platform.{Platform}
use ios_backend.Exam.Codes.{
  IssuedCode, NextExam, Fresh, validate_access, assign_exam, assign_next_exam,
}
use ios_backend.Exam.Start.{StartedExam, start_exam}

pub record ClientOption : Type 0 where
  pub id : String
  pub option_text : String

pub record ClientQuestion : Type 0 where
  pub id : String
  pub question_text : String
  pub question_type : QuestionType
  pub position : ℕ
  pub options : List ClientOption

abbrev pub option_for_client : ExamQuestionOption → ClientOption
option_for_client o = record { id = o.id; option_text = o.option_text }

abbrev pub question_for_client : ExamQuestion → ClientQuestion
question_for_client q = record {
  id = q.id;
  question_text = q.question_text;
  question_type = q.question_type;
  position = q.position;
  options = map option_for_client q.options;
}

pub record StartResponse : Type 0 where
  pub session_id : String
  pub duration_seconds : ℕ
  pub expires_at : ℕ
  pub questions : List ClientQuestion

abbrev pub start_response : StartedExam → StartResponse
start_response r = record {
  session_id = r.session_id;
  duration_seconds = r.duration_seconds;
  expires_at = r.expires_at;
  questions = map question_for_client r.questions;
}

pub record AccessResponse : Type 0 where
  pub access_code_id : String
  pub exam_id : String
  pub title : String
  pub duration_minutes : ℕ
  pub passing_score : Option ℕ

abbrev pub access_response : Exam × String → AccessResponse
access_response (exam, access_code_id) = record {
  access_code_id = access_code_id;
  exam_id = exam.id;
  title = exam.title;
  duration_minutes = exam.duration_minutes;
  passing_score = exam.passing_score;
}

-- An assignment names its exam, or has found the next one.
pub data Assigned : Type 0 where
  assigned : IssuedCode → Assigned
  assigned_next : NextExam → Assigned

module _ (env : Platform) where
  open env use {redis}

  unfoldable pub handle_validate_access :
      String → String → String → ℕ → Action (Db redis.Store) AccessResponse
  handle_validate_access user_id code exam_id now = do
    found ← validate_access env user_id code exam_id now
    pure (access_response found)

  unfoldable pub handle_start_exam :
      String → String → String → String → ℕ → Action (Db redis.Store) StartResponse
  handle_start_exam user_id code exam_id session_id now = do
    result ← start_exam env user_id code exam_id session_id now
    pure (start_response result)

  abbrev assign_given : String → String → Fresh → ℕ → String → Action (Db redis.Store) Assigned
  assign_given user_id cert_id fresh now exam_id = do
    issued ← assign_exam env user_id exam_id cert_id fresh now
    pure (assigned issued)

  abbrev assign_next : String → String → Fresh → ℕ → Action (Db redis.Store) Assigned
  assign_next user_id cert_id fresh now = do
    next ← assign_next_exam env user_id cert_id fresh now
    pure (assigned_next next)

  -- An empty `examId` counts as none.
  unfoldable pub handle_assign_exam :
      String → Option String → String → Fresh → ℕ → Action (Db redis.Store) Assigned
  handle_assign_exam user_id none cert_id fresh now = assign_next user_id cert_id fresh now
  handle_assign_exam user_id (some exam_id) cert_id fresh now =
      if exam_id == ""
      then assign_next user_id cert_id fresh now
      else assign_given user_id cert_id fresh now exam_id
