-- ===== src/Exam/TestSessions.antt =====
-- `TestSessionService` of src/modules/exam/test-session.service.ts. `now` is the server's time.
use ios_backend.Base.{ℕ, ltb, Bool, false, Option, none, some, String, [], Action, pure, ◌>>=◌}
use ios_backend.Redis.Client.{Pttl, no_key, no_ttl, ms}
use ios_backend.Redis.Service.{set_json, set_json_keep_ttl, get_json, get_del_json, pttl, del}
use ios_backend.Redis.Keys.{session_key, grace_key, grace_window_seconds}
use ios_backend.Exam.Types.{Answers}
use ios_backend.Exam.Platform.{ExamSessionData, GraceData, Platform}

-- `Omit<ExamSessionData, 'answers'>`
pub record SessionStart : Type 0 where
  pub session_id : String
  pub user_id : String
  pub exam_id : String
  pub cert_id : String
  pub started_at : ℕ

abbrev pub is_positive : Pttl → Bool
is_positive no_key = false
is_positive no_ttl = false
is_positive (ms n) = ltb 0 n

module _ (env : Platform) (now : ℕ) where
  open env use {redis, session_json, grace_json}

  abbrev pub initial_data : SessionStart → ExamSessionData
  initial_data data_ = record {
    session_id = data_.session_id;
    user_id = data_.user_id;
    exam_id = data_.exam_id;
    cert_id = data_.cert_id;
    started_at = data_.started_at;
    answers = [];
  }

  unfoldable pub start : SessionStart → ℕ → Action redis.Store (Unit {0})
  unfolding set_json session_key
  start data_ ttl_seconds =
      set_json redis session_json now (session_key data_.session_id) (initial_data data_)
        ttl_seconds

  unfoldable pub autosave : String → Answers → Action redis.Store Bool
  unfolding get_json set_json_keep_ttl session_key
  autosave session_id answers = do
    existing ← get_json redis session_json now (session_key session_id)
    elim existing [
      | none ↦ pure false
      | some d ↦
          set_json_keep_ttl redis session_json now (session_key session_id)
            (record d { answers = answers })
    ]

  unfoldable pub get_session : String → Action redis.Store (Option ExamSessionData × Pttl)
  unfolding get_json pttl session_key
  get_session session_id = do
    found ← get_json redis session_json now (session_key session_id)
    left ← pttl redis now (session_key session_id)
    pure (found, left)

  unfoldable pub delete_session : String → Action redis.Store (Unit {0})
  unfolding del session_key
  delete_session session_id = del redis (session_key session_id)

  unfoldable pub start_grace : String → Answers → Action redis.Store (Unit {0})
  unfolding set_json grace_key
  start_grace session_id snapshot =
      set_json redis grace_json now (grace_key session_id) (record { snapshot = snapshot })
        grace_window_seconds

  abbrev snapshot_of : Option GraceData → Option Answers
  snapshot_of none = none
  snapshot_of (some d) = some d.snapshot

  unfoldable pub consume_grace : String → Action redis.Store (Option Answers)
  unfolding get_del_json grace_key
  consume_grace session_id = do
    pure (snapshot_of (← get_del_json redis grace_json now (grace_key session_id)))

  unfoldable pub has_grace : String → Action redis.Store Bool
  unfolding pttl grace_key
  has_grace session_id = do pure (is_positive (← pttl redis now (grace_key session_id)))
