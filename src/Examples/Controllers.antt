-- ===== src/Examples/Controllers.antt =====
-- The start of an exam with two solutions, and the token of a student that claims a role.
use ios_backend.Base.{ℕ, Bool, true, false, none, some, ◌==◌, List, [], ◌∷◌, ok, Action, ◌≡◌, refl}
use ios_backend.Auth.Types.{AccountType, AccessTokenPayload, learning_admin, super_admin}
use ios_backend.Auth.Strategies.{user_of, validate_payload}
use ios_backend.Auth.Strategies.Composition.{
  own_variables, effective_role, validate_payload-IsAllOrNothing,
}
use ios_backend.Common.Roles.{can_activate}
use ios_backend.Common.Rls.{RlsVariables, Faults, intercept, IsAllOrNothing}
use ios_backend.Exam.Types.{
  Exam, ExamQuestion, ExamQuestionOption, ExamAccessCode, Db, published, mcq,
}
use ios_backend.Exam.Controller.{handle_start_exam}
use ios_backend.Exam.Controller.Remark.{remark}
use ios_backend.Exam.Controller.Secrecy.{handle_start_exam-remark}
use ios_backend.Examples.Setting.{Server, platform}

abbrev question : ExamQuestion
question = record {
  id = "q1";
  question_text = "Who orders the backlog?";
  question_type = mcq;
  position = 1;
  marks = none;
  options =
      record { id = "o1"; option_text = "The product owner"; is_correct = true }
      ∷ record { id = "o2"; option_text = "The developers"; is_correct = false }
      ∷ [];
}

abbrev exam : Exam
exam = record {
  id = "e1";
  cert_id = "c1";
  title = "Scrum";
  exam_order = 1;
  status = published;
  passing_score = some 50;
  duration_minutes = 60;
  questions = question ∷ [];
}

abbrev access_code : ExamAccessCode
access_code = record {
  id = "k1";
  user_id = "u";
  exam_id = "e1";
  cert_id = "c1";
  token_hash = "SECRET";
  expires_at = 1000000;
  used_at = none;
  created_at = 0;
}

abbrev exam_db : Db Server
exam_db = record {
  exams = exam ∷ [];
  codes = access_code ∷ [];
  sessions = [];
  attempts = [];
  redis = record { up = true; entries = λ k. none };
  emitted = [];
}

abbrev second_is_right : ExamQuestionOption → Bool
second_is_right o = o.id == "o2"

handle_start_exam-remark_example :
    (handle_start_exam platform "u" "SECRET" "e1" "s1" 0 (remark second_is_right exam_db)).0
    ≡ (handle_start_exam platform "u" "SECRET" "e1" "s1" 0 exam_db).0
handle_start_exam-remark_example =
    handle_start_exam-remark platform second_is_right "u" "SECRET" "e1" "s1" 0 exam_db

abbrev claims : AccessTokenPayload
claims = record {
  sub = "u";
  account_type = AccountType.student;
  email = "jane@example.com";
  locale = "en";
  role = some super_admin;
}

abbrev no_faults : Faults
no_faults = record {
  connect = false;
  start_transaction = false;
  set_user = false;
  set_admin = false;
  set_ip = false;
  commit = false;
  rollback = false;
}

abbrev add_row : RlsVariables → Action (List ℕ) ℕ
add_row variables s = (ok 1, 7 ∷ s)

validate_payload-IsAllOrNothing_example :
    IsAllOrNothing add_row
      (own_variables AccountType.student "u" "::1")
      []
      (intercept no_faults (some (user_of AccountType.student claims)) "::1" add_row [])
    × (can_activate (some (learning_admin ∷ [])) none
        ≡ can_activate
            (some (learning_admin ∷ []))
            (effective_role AccountType.student (some super_admin)))
unfolding validate_payload
validate_payload-IsAllOrNothing_example =
    validate_payload-IsAllOrNothing claims (user_of AccountType.student claims) no_faults "::1"
      add_row [] (some (learning_admin ∷ [])) refl refl refl
