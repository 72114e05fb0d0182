-- ===== src/Examples/Requests.antt =====
-- A session that is saved, submitted, expired or submitted late.
use ios_backend.Base.{Memᴰ, [], count, false, none, refl, some, true, ◌+◌, ◌∷◌, ◌≡◌}
use ios_backend.Exam.Keyspace.{expire_session, handle_session_expiry}
use ios_backend.Exam.Requests.{Reach, Step, World, with_db}
use ios_backend.Exam.Requests.Accounting.{IsAccounted, Reach-IsAccounted, is_attempt_for}
use ios_backend.Exam.Requests.ExpiryRace.{expiry_race}
use ios_backend.Exam.Scoring.{ScoreResult, score_answers}
use ios_backend.Exam.Sessions.{autosave_answers}
use ios_backend.Exam.Sessions.Countdown.{autosave_answers-deadline, deadline_at}
use ios_backend.Exam.Submit.{auto_submit_from_snapshot, late_submit_exam, score_and_persist}
use ios_backend.Exam.TestSessions.{start_grace}
use ios_backend.Exam.Types.{
  Answers, AttemptStatus, Db, Exam, TestSession, TestSessionStatus, published,
}
use ios_backend.Examples.Setting.{Server, platform, server_redis}

abbrev exam_one : Exam
exam_one = record {
  id = "e1";
  cert_id = "c1";
  title = "Scrum";
  exam_order = 1;
  status = published;
  passing_score = some 50;
  duration_minutes = 60;
  questions = [];
}

abbrev session_with : TestSessionStatus → TestSession
session_with status = record {
  id = "s1";
  user_id = "u";
  exam_id = "e1";
  cert_id = some "c1";
  session_token = "t";
  started_at = 0;
  duration_seconds = 3600;
  expires_at = 3600000;
  status = status;
  submitted_at = none;
  snapshot = some (("q1", "o1") ∷ []);
}

abbrev active_one : TestSession
active_one = session_with TestSessionStatus.active

abbrev expired_one : TestSession
expired_one = session_with TestSessionStatus.expired

abbrev closed_one : TestSession
closed_one = session_with TestSessionStatus.submitted

abbrev answers_one : Answers
answers_one = ("q1", "o2") ∷ []

abbrev empty_server : Server
empty_server = record { up = true; entries = λ k. none }

-- A Redis whose grace window of the session is open.
abbrev grace_server : Server
grace_server = (start_grace platform 3600000 "s1" (("q1", "o1") ∷ []) empty_server).1

abbrev db_with : TestSession → Server → Db Server
db_with row server = record {
  exams = exam_one ∷ [];
  codes = [];
  sessions = row ∷ [];
  attempts = [];
  redis = server;
  emitted = [];
}

abbrev active_db : Db Server
active_db = db_with active_one empty_server

abbrev grace_db : Db Server
grace_db = db_with expired_one grace_server

abbrev late_db : Db Server
late_db = (late_submit_exam platform "s1" "u" answers_one 3600001 "a1" grace_db).1

abbrev scored : ScoreResult
scored = score_answers platform.rounding answers_one (some exam_one)

-- A request reads the session, submits it, and its key expires after that.
abbrev first_world : World Server
first_world = record { db = active_db; held = [] }

abbrev reading_world : World Server
reading_world = record { db = active_db; held = active_one ∷ [] }

abbrev submitted_world : World Server
submitted_world =
    with_db reading_world
      (score_and_persist platform active_one answers_one AttemptStatus.submitted false 5 "a1"
        active_db).1

abbrev last_world : World Server
last_world =
    with_db submitted_world (handle_session_expiry platform "s1" 3600000 submitted_world.db).1

abbrev three_steps : Reach platform first_world last_world
three_steps =
    Reach.next
      (Reach.next (Reach.next Reach.here (Step.reads "s1" active_one refl))
        (Step.closes active_one answers_one AttemptStatus.submitted false 5 "a1" (Memᴰ.head refl)))
      (Step.expires "s1" 3600000)

abbrev first_accounted : IsAccounted platform "u" "e1" first_world
first_accounted = record { unique = (refl, tt); agree = tt; balance = refl }

Reach-IsAccounted_example : IsAccounted platform "u" "e1" last_world
Reach-IsAccounted_example = Reach-IsAccounted platform "u" "e1" three_steps first_accounted

expiry_race_example :
    let s₁ =
      (score_and_persist platform active_one answers_one AttemptStatus.submitted false 5 "a1"
        active_db).1 in
    let s₂ = (expire_session platform active_one 6 s₁).1 in
    let s₃ = (auto_submit_from_snapshot platform active_one.id 120007 "a2" s₂).1 in
    count (is_attempt_for active_one.user_id active_one.exam_id) s₃.attempts
    ≡ count (is_attempt_for active_one.user_id active_one.exam_id) active_db.attempts + 2
expiry_race_example =
    expiry_race platform active_one answers_one false 5 6 120007 "a1" "a2" active_db refl refl refl

autosave_answers-deadline_example :
    deadline_at (
      server_redis.entry
        (autosave_answers platform "s1" "u" answers_one 7 active_db).1.redis
        "exam:session:s1")
    ≡ deadline_at (server_redis.entry active_db.redis "exam:session:s1")
autosave_answers-deadline_example =
    autosave_answers-deadline platform "s1" "u" answers_one 7 active_db "exam:session:s1"
