-- ===== src/Exam/Keyspace.antt =====
-- `ExamKeyspaceHandler` of src/modules/exam/exam-keyspace.handler.ts, which reacts when a key of
-- an exam expires. `expire_session` is what `handleSessionExpiry` does with the row that it read.
use ios_backend.Base.{
  ℕ, Option, none, some, String, [], ◌∷◌, if◌then◌else◌, or_else, find, update, Action, pure, gets,
  modify, ◌>>=◌, ◌>>◌,
}
use ios_backend.Redis.Keys.{KeyspaceExpired}
use ios_backend.Exam.Types.{TestSession, TestSessionStatus, Db, is_active, session_has_id}
use ios_backend.Exam.Platform.{Platform, on_redis}
use ios_backend.Exam.TestSessions.{start_grace}
use ios_backend.Exam.Submit.{auto_submit_from_snapshot}

module _ (env : Platform) where
  open env use {redis}

  abbrev Method : Type 0 → Type 0
  Method A = Action (Db redis.Store) A

  -- `ExamGateway.emitSessionExpired`
  unfoldable pub emit_session_expired : String → Method (Unit {0})
  emit_session_expired session_id = modify (λ s. record s { emitted = session_id ∷ s.emitted })

  unfoldable pub expire_session : TestSession → ℕ → Method (Unit {0})
  unfolding start_grace emit_session_expired
  expire_session session now = do
    modify (λ s. record s {
      sessions =
          update (session_has_id session.id) (λ t. record t { status = TestSessionStatus.expired })
            s.sessions;
    })
    on_redis (start_grace env now session.id (or_else session.snapshot []))
    emit_session_expired session.id

  abbrev expire_row : Option TestSession → ℕ → Method (Unit {0})
  expire_row none now = pure tt
  expire_row (some session) now =
      if is_active session.status then expire_session session now else pure tt

  unfoldable pub handle_session_expiry : String → ℕ → Method (Unit {0})
  unfolding expire_session
  handle_session_expiry session_id now = do
    row ← gets (λ s. find (session_has_id session_id) s.sessions)
    expire_row row now

  unfoldable pub handle_expiry : KeyspaceExpired → ℕ → String → Method (Unit {0})
  unfolding handle_session_expiry auto_submit_from_snapshot
  handle_expiry (KeyspaceExpired.session session_id) now attempt_id =
      handle_session_expiry session_id now
  handle_expiry (KeyspaceExpired.grace session_id) now attempt_id =
      auto_submit_from_snapshot env session_id now attempt_id
