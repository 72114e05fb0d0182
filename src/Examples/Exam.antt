-- ===== src/Examples/Exam.antt =====
-- Codes and the start of an exam, on a table with one exam and one code.
use ios_backend.Base.{
  pos, ◌⊎◌, All, Bool, Memᴰ, [], conflict, err, failure, false, find, is_some, none, refl, select,
  some, true, ◌∷◌, ◌≡◌,
}
use ios_backend.Exam.Codes.{
  Fresh, NextExam, access_code_ttl_ms, assign_next_exam, find_and_verify_code, is_published_in,
  match_code, new_code,
}
use ios_backend.Exam.Codes.Assignment.{assign_next_exam_picks, comes_before, is_attempt_at}
use ios_backend.Exam.Codes.Matching.{IsUnusedCode, Opens, find_and_verify_code_sound}
use ios_backend.Exam.Start.{StartedExam, begin_session, start_exam}
use ios_backend.Exam.Start.Atomic.{start_exam_fails}
use ios_backend.Exam.Start.OneTime.{Begun, begin_session_once, start_exam_succeeds}
use ios_backend.Exam.Start.Outcome.{started_exam}
use ios_backend.Exam.Types.{
  AttemptStatus, Db, Exam, ExamAccessCode, ExamAttempt, exam_has_id, is_active_for, published,
}
use ios_backend.Examples.Setting.{Server, platform}

abbrev exam_one : Exam
exam_one = record {
  id = "e1";
  cert_id = "c1";
  title = "Scrum";
  exam_order = 1;
  status = published;
  passing_score = some 50;
  duration_minutes = 60;
  questions = [];
}

abbrev code_one : ExamAccessCode
code_one = record {
  id = "k1";
  user_id = "u";
  exam_id = "e1";
  cert_id = "c1";
  token_hash = "SECRET";
  expires_at = 1000000;
  used_at = none;
  created_at = 0;
}

abbrev IsCodeOne : ExamAccessCode → Type 0
IsCodeOne c = c ≡ code_one

abbrev server : Bool → Server
server up = record { up = up; entries = λ k. none }

abbrev first_db : Bool → Db Server
first_db up = record {
  exams = exam_one ∷ [];
  codes = code_one ∷ [];
  sessions = [];
  attempts = [];
  redis = server up;
  emitted = [];
}

abbrev found_one : ExamAccessCode × Exam
found_one = (code_one, exam_one)

abbrev out_one : StartedExam
out_one = started_exam platform "e1" "s1" 0 found_one (first_db true)

abbrev started_db : Db Server
started_db = (start_exam platform "u" "SECRET" "e1" "s1" 0 (first_db true)).1

abbrev begun_db : Db Server
begun_db = (begin_session platform "u" "e1" "s1" 0 found_one (first_db true)).1

abbrev fresh_one : Fresh
fresh_one = record { id = "k2"; code = "NEXT"; salt = "" }

abbrev next_one : NextExam
next_one = record {
  issued = record { plain_code = "NEXT"; expires_at = access_code_ttl_ms; exam_id = "e1" };
  exam_order = 1;
  exam_title = "Scrum";
}

abbrev new_db : Db Server
new_db = record (first_db true) { codes = [] }

abbrev attempt_one : ExamAttempt
attempt_one = record {
  id = "a1";
  user_id = "u";
  exam_id = "e1";
  cert_id = "c1";
  score = pos 0;
  passed = false;
  answers = [];
  duration_seconds = 1;
  started_at = 0;
  submitted_at = 1;
  status = AttemptStatus.submitted;
  late_flag = false;
}

abbrev attempted_db : Db Server
attempted_db = record new_db { attempts = attempt_one ∷ [] }

abbrev assigned_db : Db Server
assigned_db = (assign_next_exam platform "u" "c1" fresh_one 0 new_db).1

start_exam_succeeds_example :
    (c : ExamAccessCode) × (exam : Exam) × (find (exam_has_id "e1") (first_db true).exams
      ≡ some exam)
    × (exam.status ≡ published)
    × IsUnusedCode platform "u" "e1" c
    × Opens platform "SECRET" 0 c
    × Memᴰ c (first_db true).codes
    × (find (is_active_for "u" "e1") (first_db true).sessions ≡ none)
    × Begun platform "u" "e1" "s1" 0 (c, exam) (first_db true) out_one started_db
unfolding start_exam find_and_verify_code match_code
start_exam_succeeds_example =
    start_exam_succeeds platform "u" "SECRET" "e1" "s1" 0 (first_db true) started_db out_one refl

start_exam_fails_example :
    (first_db false ≡ record (first_db false) { redis = (first_db false).redis })
    × (((first_db false).redis ≡ (first_db false).redis)
        ⊎ ((platform.start_faults "s1").lost_reply ≡ true))
unfolding start_exam find_and_verify_code match_code
start_exam_fails_example =
    start_exam_fails platform "u" "SECRET" "e1" "s1" 0 (first_db false) (first_db false)
      (failure "redis") (refl, tt) refl refl refl refl

begin_session_once_example :
    begin_session platform "u" "e1" "s2" 1 found_one begun_db
    ≡ (err (conflict "Access code has already been used"), begun_db)
unfolding begin_session
begin_session_once_example =
    begin_session_once platform "u" "e1" "s1" 0 found_one (first_db true) begun_db out_one "u" "e1"
      "s2" 1 found_one refl refl

find_and_verify_code_sound_example :
    (find (exam_has_id "e1") (first_db true).exams ≡ some exam_one)
    × (exam_one.status ≡ published)
    × IsUnusedCode platform "u" "e1" code_one
    × Opens platform "SECRET" 0 code_one
    × IsCodeOne code_one
unfolding find_and_verify_code match_code
find_and_verify_code_sound_example =
    find_and_verify_code_sound platform IsCodeOne "u" "SECRET" "e1" 0 (first_db true)
      (first_db true) code_one exam_one refl (refl, tt)

assign_next_exam_picks_example :
    (next : Exam) × Memᴰ next new_db.exams
    × (is_published_in "c1" next ≡ true)
    × (find (is_attempt_at "u" "c1" next.id) new_db.attempts ≡ none)
    × All
        (λ e. is_some (find (is_attempt_at "u" "c1" e.id) new_db.attempts) ≡ true)
        (select (comes_before "c1" next) new_db.exams)
    × (next_one.issued.exam_id ≡ next.id)
    × (assigned_db
        ≡ record new_db { codes = new_code platform "u" next fresh_one 0 ∷ new_db.codes })
unfolding assign_next_exam
assign_next_exam_picks_example =
    assign_next_exam_picks platform "u" "c1" fresh_one 0 new_db assigned_db next_one refl
