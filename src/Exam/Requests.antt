-- ===== src/Exam/Requests.antt =====
-- Requests of many students on one database, between the awaits of src/modules/exam/exam.service.ts
-- and src/modules/exam/exam-keyspace.handler.ts. A request that has read a session row holds it, and
-- acts on it later, after any steps of others; a conditional UPDATE, an INSERT in the same
-- transaction, and one call of Redis are single steps. The expiry handler reads and writes in one
-- step here; `Requests.ExpiryRace` is about what happens when it does not.
pub mod Rows
pub mod Accounting
pub mod ExpiryRace
use ios_backend.Base.{ℕ, ◌≡◌, Bool, false, some, String, List, ◌∷◌, ◌==◌, Memᴰ, All, count, find}
use ios_backend.Exam.Types.{TestSession, Answers, AttemptStatus, Db, session_has_id}
use ios_backend.Exam.Platform.{Platform}
use ios_backend.Exam.Codes.{Fresh, assign_exam, assign_next_exam}
use ios_backend.Exam.Sessions.{mirror_snapshot}
use ios_backend.Exam.Start.{start_exam}
use ios_backend.Exam.Submit.{score_and_persist}
use ios_backend.Exam.Keyspace.{handle_session_expiry}

-- The store, and the session rows that requests have read and may still act on.
pub record World (R : Type 0) : Type 0 where
  pub db : Db R
  pub held : List TestSession

abbrev pub with_db : {R : Type 0} → World R → Db R → World R
with_db w s = record w { db = s }

module _ (env : Platform) where
  open env use {redis}

  pub data Step (w : World redis.Store) : World redis.Store → Type 0 where
    -- a guard reads a session
    reads :
        (id : String) (row : TestSession)
        → find (session_has_id id) w.db.sessions ≡ some row
        → Step w (record w { held = row ∷ w.held })
    -- a submit, late submit or automatic submit scores the row that it has read
    closes :
        (row : TestSession) (answers : Answers) (status : AttemptStatus) (late : Bool) (now : ℕ)
        (attempt_id : String)
        → Memᴰ row w.held
        → Step w (with_db w (score_and_persist env row answers status late now attempt_id w.db).1)
    -- an autosave writes its snapshot
    mirrors :
        (row : TestSession) (answers : Answers)
        → Memᴰ row w.held
        → Step w (with_db w (mirror_snapshot env row answers w.db).1)
    -- a start, under an id that no row has had
    starts :
        (user_id code exam_id session_id : String) (now : ℕ)
        → count (session_has_id session_id) w.db.sessions ≡ 0
        → All (λ row. (row.id == session_id) ≡ false) w.held
        → Step w (with_db w (start_exam env user_id code exam_id session_id now w.db).1)
    -- the key of a session expires
    expires :
        (session_id : String) (now : ℕ)
        → Step w (with_db w (handle_session_expiry env session_id now w.db).1)
    assigns :
        (user_id exam_id cert_id : String) (fresh : Fresh) (now : ℕ)
        → Step w (with_db w (assign_exam env user_id exam_id cert_id fresh now w.db).1)
    assigns_next :
        (user_id cert_id : String) (fresh : Fresh) (now : ℕ)
        → Step w (with_db w (assign_next_exam env user_id cert_id fresh now w.db).1)
    -- any call of Redis, and the passing of time there
    redis_moves : (t : redis.Store) → Step w (with_db w (record w.db { redis = t }))

  pub data Reach (w : World redis.Store) : World redis.Store → Type 0 where
    here : Reach w w
    next : {v u : World redis.Store} → Reach w v → Step v u → Reach w u
