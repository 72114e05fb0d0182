-- ===== src/Exam/Submit/Automatic.antt =====
-- The automatic submit, which no request waits for.
use ios_backend.Base.{ℕ, ◌≡◌, false, some, String, ok, find, arith}
use ios_backend.Exam.Types.{TestSession, Db, session_has_id, is_open}
use ios_backend.Exam.Platform.{Platform}
use ios_backend.Exam.Submit.{auto_submit_from_snapshot}

module _ (env : Platform) where
  open env use {redis}

  -- The automatic submit of a session that is closed changes nothing.
  pub auto_submit_closed :
      (id : String) (now : ℕ) (attempt_id : String) (s : Db redis.Store) (row : TestSession)
      → find (session_has_id id) s.sessions ≡ some row
      → is_open row.status ≡ false
      → auto_submit_from_snapshot env id now attempt_id s ≡ (ok tt, s)
  unfolding auto_submit_from_snapshot
  auto_submit_closed id now attempt_id s row found closed_ = ground (arith, found, closed_)
