-- ===== src/Exam/Sessions.antt =====
-- Test sessions in src/modules/exam/exam.service.ts: the guard `getOwnedSession`, the autosave and
-- the status. `mirror_snapshot` is the half of `autosave` that runs after Redis has answered.
pub mod Countdown
use Prim.Native.String
use ios_backend.Base.{
  ℕ, ◌+◌, ◌/◌, Bool, true, not, Option, none, some, String, ◌==◌, [], or_else, find, update, Action,
  pure, gets, modify, raise_if, or_raise, ◌>>=◌, ◌>>◌, forbidden, not_found, unprocessable,
}
use ios_backend.Redis.Client.{Pttl, no_key, no_ttl, ms}
use ios_backend.Exam.Types.{Answers, TestSession, TestSessionStatus, Db, is_active, session_has_id}
use ios_backend.Exam.Platform.{Platform, ExamSessionData, on_redis}
use ios_backend.Exam.TestSessions.{autosave, get_session}

pub record SessionState : Type 0 where
  pub session_id : String
  pub remaining_seconds : ℕ
  pub answers : Answers
  pub status : TestSessionStatus

-- `Math.ceil(pttlMs / 1000)` of a positive `pttlMs`, else 0.
pub remaining_of : Pttl → ℕ
remaining_of no_key = 0
remaining_of no_ttl = 0
remaining_of (ms n) = (n + 999) / 1000

abbrev data_answers : Option ExamSessionData → Option Answers
data_answers none = none
data_answers (some d) = some d.answers

-- `data?.answers ?? session.snapshot ?? {}`
abbrev current_answers : Option ExamSessionData → TestSession → Answers
current_answers found s = or_else (data_answers found) (or_else s.snapshot [])

abbrev status_text : TestSessionStatus → String
status_text TestSessionStatus.active = "active"
status_text TestSessionStatus.submitted = "submitted"
status_text TestSessionStatus.expired = "expired"
status_text TestSessionStatus.auto_submitted = "auto_submitted"

abbrev pub status_refused : TestSessionStatus → String
status_refused status =
    String.◌++◌ "Session is in status '"
      (String.◌++◌ (status_text status) "' which is not allowed for this operation")

module _ (env : Platform) where
  open env use {redis}

  abbrev Method : Type 0 → Type 0
  Method A = Action (Db redis.Store) A

  unfoldable pub get_owned_session :
      String → String → (TestSessionStatus → Bool) → Method TestSession
  get_owned_session session_id user_id allowed = do
    row ← gets (λ s. find (session_has_id session_id) s.sessions)
    session ← or_raise row (not_found "Session not found")
    raise_if (not (session.user_id == user_id)) (forbidden "Session does not belong to this user")
    raise_if (not (allowed session.status)) (unprocessable (status_refused session.status))
    pure session

  abbrev any_status : TestSessionStatus → Bool
  any_status _ = true

  -- The second half of `autosave`, after Redis has taken the answers.
  unfoldable pub mirror_snapshot : TestSession → Answers → Method (Unit {0})
  mirror_snapshot session answers = modify (λ s. record s {
    sessions =
        update (session_has_id session.id) (λ t. record t { snapshot = some answers }) s.sessions;
  })

  unfoldable pub autosave_answers : String → String → Answers → ℕ → Method (Unit {0})
  unfolding get_owned_session mirror_snapshot autosave
  autosave_answers session_id user_id answers now = do
    session ← get_owned_session session_id user_id is_active
    saved ← on_redis (autosave env now session_id answers)
    raise_if (not saved) (unprocessable "Session has expired; autosave rejected")
    mirror_snapshot session answers

  unfoldable pub get_session_status : String → String → ℕ → Method SessionState
  unfolding get_owned_session get_session remaining_of
  get_session_status session_id user_id now = do
    session ← get_owned_session session_id user_id any_status
    found ← on_redis (get_session env now session_id)
    pure (record {
      session_id = session_id;
      remaining_seconds = remaining_of found.1;
      answers = current_answers found.0 session;
      status = session.status;
    })
