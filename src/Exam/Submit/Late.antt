-- ===== src/Exam/Submit/Late.antt =====
-- Late submits: who may consume a grace window, and how often.
use ios_backend.Base.{
  ℕ, ◌≡◌, ◌≢◌, sym, ap, ◌∙◌, ◌&&◌, ◌==◌, Bool, true, false, none, some, String, ok, err,
  if◌then◌else◌, Option-cases, Outcome-cases, Bool-cases, inl, inr, nat_eq, find, find_holds, count,
  ◌∷◌, arith, eq_refl, eq_iff, forbidden, unprocessable,
}
use ios_backend.Redis.Keys.{session_key, grace_key}
use ios_backend.Redis.Keys.Names.{session_key-eq_grace_key}
use ios_backend.Exam.Types.{
  Answers, TestSession, AttemptStatus, Db, session_has_id, is_expired, is_open_with_id,
}
use ios_backend.Exam.Platform.{Platform}
use ios_backend.Exam.TestSessions.{consume_grace, delete_session}
use ios_backend.Exam.Scoring.{ScoreResult}
use ios_backend.Exam.Sessions.{status_refused}
use ios_backend.Exam.Submit.{late_submit_exam, score_and_persist, final_answers}
use ios_backend.Exam.Submit.Outcome.{
  score_and_persist_commits, score_and_persist_closed, score_and_persist_open, attempt_for,
}

module _ (env : Platform) where
  open env use {redis}

  -- A late submit by another student, or of a session that has not expired, is refused before the
  -- grace window is touched: nothing changes, in Redis neither.
  pub late_submit_refused :
      (id user_id : String) (answers : Answers) (now : ℕ) (attempt_id : String) (s : Db redis.Store)
      (row : TestSession)
      → find (session_has_id id) s.sessions ≡ some row
      → (row.user_id == user_id) && is_expired row.status ≡ false
      → late_submit_exam env id user_id answers now attempt_id s ≡ (
        err (
            if row.user_id == user_id
            then unprocessable (status_refused row.status)
            else forbidden "Session does not belong to this user"),
        s,
      )
  unfolding late_submit_exam
  late_submit_refused id user_id answers now attempt_id s row found bad = ground (arith, found)

  consume_grace-entry :
      (now : ℕ) (id : String) (s : redis.Store) (snapshot : Answers)
      → (consume_grace env now id s).0 ≡ ok (some snapshot)
      → (redis.entry s (grace_key id) ≢ none)
        × (redis.entry (consume_grace env now id s).1 (grace_key id) ≡ none)
  unfolding consume_grace
  consume_grace-entry now id s snapshot h =
      elim (Option-cases (redis.getdel now (grace_key id) s)) [
        | inl rejected ↦ absurd (ground (arith, rejected))
        | inr ((r, t), done) ↦
            let (read, gone) = redis.entry-getdel now (grace_key id) r s t (grace_key id) done in
            (
              (λ e. ground (arith, done, read, e)),
              ground (arith, done, gone, eq_refl (grace_key id)),
            )
      ]

  delete_session-grace :
      (now : ℕ) (id : String) (s : redis.Store)
      → redis.entry (delete_session env now id s).1 (grace_key id) ≡ redis.entry s (grace_key id)
  unfolding delete_session
  delete_session-grace now id s = elim (Option-cases (redis.del (session_key id) s)) [
    | inl rejected ↦ ground (arith, rejected)
    | inr (t, done) ↦ ground (
      arith,
      done,
      redis.entry-del (session_key id) s t (grace_key id) done,
      session_key-eq_grace_key id id,
    )
  ]

  score_and_persist-grace :
      (row : TestSession) (answers : Answers) (status : AttemptStatus) (late : Bool) (now : ℕ)
      (attempt_id : String) (s : Db redis.Store)
      → redis.entry
          (score_and_persist env row answers status late now attempt_id s).1.redis
          (grace_key row.id)
        ≡ redis.entry s.redis (grace_key row.id)
  score_and_persist-grace row answers status late now attempt_id s =
      elim (Bool-cases (nat_eq (count (is_open_with_id row.id) s.sessions) 1)) [
        | inl one ↦
            rw (score_and_persist_open env row answers status late now attempt_id s (ground arith))
              (ground (arith, delete_session-grace now row.id s.redis))
        | inr other ↦
            rw
              (score_and_persist_closed env row answers status late now attempt_id s (ground arith))
      ]

  pub late_submit_succeeds :
      (id user_id : String) (answers : Answers) (now : ℕ) (attempt_id : String)
      (s t : Db redis.Store) (r : ScoreResult)
      → late_submit_exam env id user_id answers now attempt_id s ≡ (ok r, t)
      → (row : TestSession) × (snapshot : Answers) × (find (session_has_id id) s.sessions
          ≡ some row)
        × (row.user_id ≡ user_id)
        × (is_expired row.status ≡ true)
        × (t.attempts
            ≡ attempt_for env row
                (final_answers env answers snapshot)
                AttemptStatus.submitted
                true
                now
                attempt_id
                s
              ∷ s.attempts)
        × (redis.entry s.redis (grace_key id) ≢ none)
        × (redis.entry t.redis (grace_key id) ≡ none)
  unfolding late_submit_exam
  late_submit_succeeds id user_id answers now attempt_id s t r h =
      elim (Outcome-cases (consume_grace env now id s.redis)) [
        | inr (x, u, bad) ↦ absurd (ground (arith, bad))
        | inl (none, u, empty) ↦ absurd (ground (arith, empty))
        | inl (some snapshot, u, good) ↦ elim (Option-cases (find (session_has_id id) s.sessions)) [
          | inl missing ↦ absurd (ground (arith, missing))
          | inr (row, found) ↦
              let (was, gone) = consume_grace-entry now id s.redis snapshot (ap (λ o. o.0) good) in
              let same : row.id ≡ id =
                (eq_iff row.id id).0 (find_holds (session_has_id id) s.sessions row found) in
              let rest : score_and_persist env row (final_answers env answers snapshot)
                    AttemptStatus.submitted true now attempt_id (record s { redis = u })
                  ≡ (ok r, t) =
                ground (arith, found, good, h) in
              let one : count (is_open_with_id row.id) s.sessions ≡ 1 = ground (
                arith,
                rest,
                score_and_persist_closed env row (final_answers env answers snapshot)
                    AttemptStatus.submitted true now attempt_id (record s { redis = u }),
              ) in
              (
                row,
                snapshot,
                found,
                ground (arith, found, good, h, eq_iff row.user_id user_id),
                ground (arith, found, good, h),
                sym (ap (λ o. o.1.attempts) rest)
                    ∙ ap (λ d. d.attempts)
                        (score_and_persist_commits env row (final_answers env answers snapshot)
                          AttemptStatus.submitted true now attempt_id (record s { redis = u })
                          one).0,
                was,
                ground (
                  arith,
                  same,
                  gone,
                  good,
                  ap (λ o. redis.entry o.1.redis (grace_key row.id)) rest,
                  score_and_persist-grace row (final_answers env answers snapshot)
                      AttemptStatus.submitted true now attempt_id (record s { redis = u }),
                ),
              )
        ]
      ]

  -- Of one session, at most one late submit is accepted: after one that was, no other one, whoever
  -- makes it and whenever, is accepted on the database that it left.
  pub late_submit_once :
      (id user_id other_id : String) (answers other_answers : Answers) (now later : ℕ)
      (first second : String) (s t u : Db redis.Store) (r q : ScoreResult)
      → late_submit_exam env id user_id answers now first s ≡ (ok r, t)
      → late_submit_exam env id other_id other_answers later second t ≢ (ok q, u)
  late_submit_once id user_id other_id answers other_answers now later first second s t u r q h
        again =
      let (_, _, _, _, _, _, _, gone) = late_submit_succeeds id user_id answers now first s t r h in
      let (_, _, _, _, _, _, was, _) =
        late_submit_succeeds id other_id other_answers later second t u q again in
      was gone
