-- ===== src/Exam/Sessions/Countdown.antt =====
-- The countdown of a session in Redis is never reset by an autosave.
use ios_backend.Base.{
  ℕ, ◌≡◌, ◌≢◌, true, false, Option, none, some, String, ok, Option-cases, inl, inr, arith,
  Outcome-cases,
}
use ios_backend.Redis.Client.{Entry, is_live}
use ios_backend.Redis.Keys.{session_key}
use ios_backend.Redis.Service.{set_json_keep_ttl, get_json}
use ios_backend.Exam.Types.{Answers, Db}
use ios_backend.Exam.Platform.{Platform, ExamSessionData}
use ios_backend.Exam.TestSessions.{autosave}
use ios_backend.Exam.Sessions.{autosave_answers}

-- The deadline of a key that is there.
abbrev pub deadline_at : Option Entry → Option (Option ℕ)
deadline_at none = none
deadline_at (some e) = some e.deadline

module _ (env : Platform) where
  open env use {redis, session_json}

  keep_ttl-deadline :
      (now : ℕ) (k : String) (v : ExamSessionData) (s : redis.Store) (j : String)
      → deadline_at (redis.entry (set_json_keep_ttl redis session_json now k v s).1 j)
        ≡ deadline_at (redis.entry s j)
  unfolding set_json_keep_ttl
  keep_ttl-deadline now k v s j =
      elim (Option-cases (redis.set_keepttl_xx now k (session_json.stringify v) s)) [
        | inl rejected ↦ ground (arith, rejected)
        | inr ((b, t), done) ↦
            ground (
              arith,
              done,
              redis.entry-set_keepttl_xx now k (session_json.stringify v) b s t j done,
            )
      ]

  get_json-keeps :
      (now : ℕ) (k : String) (s : redis.Store) → (get_json redis session_json now k s).1 ≡ s
  unfolding get_json
  get_json-keeps now k s = ground arith

  autosave-deadline :
      (now : ℕ) (id : String) (answers : Answers) (s : redis.Store) (j : String)
      → deadline_at (redis.entry (autosave env now id answers s).1 j)
        ≡ deadline_at (redis.entry s j)
  unfolding autosave
  autosave-deadline now id answers s j =
      let keeps = get_json-keeps now (session_key id) s in
      elim (Outcome-cases (get_json redis session_json now (session_key id) s)) [
        | inr (x, u, bad) ↦ ground (arith, bad, keeps)
        | inl (none, u, good) ↦ ground (arith, good, keeps)
        | inl (some d, u, good) ↦ ground (
          arith,
          good,
          keeps,
          keep_ttl-deadline now (session_key id) (record d { answers = answers }) s j,
        )
      ]

  -- Whatever an autosave answers, each key of Redis is there exactly if it was there before, and with
  -- the same deadline: an autosave neither resets the countdown nor brings an expired session back.
  pub autosave_answers-deadline :
      (id user_id : String) (answers : Answers) (now : ℕ) (s : Db redis.Store) (j : String)
      → deadline_at (redis.entry (autosave_answers env id user_id answers now s).1.redis j)
        ≡ deadline_at (redis.entry s.redis j)
  unfolding autosave_answers
  autosave_answers-deadline id user_id answers now s j =
      ground (arith, autosave-deadline now id answers s.redis j)

  autosave_expired :
      (now : ℕ) (id : String) (answers : Answers) (s : redis.Store)
      → is_live now (redis.entry s (session_key id)) ≡ false
      → (autosave env now id answers s).0 ≢ ok true
  unfolding autosave get_json
  autosave_expired now id answers s gone = elim (Option-cases (redis.get now (session_key id) s)) [
    | inl rejected ↦ ground (arith, rejected)
    | inr (r, found) ↦ ground (arith, found, redis.get_lem now (session_key id) s r found)
  ]

  -- Once the key of a session has expired, an autosave throws and writes no session.
  pub autosave_answers_expired :
      (id user_id : String) (answers : Answers) (now : ℕ) (s : Db redis.Store)
      → is_live now (redis.entry s.redis (session_key id)) ≡ false
      → let (r, t) = autosave_answers env id user_id answers now s in
        (r ≢ ok tt) × (t.sessions ≡ s.sessions)
  unfolding autosave_answers
  autosave_answers_expired id user_id answers now s gone =
      let expired = autosave_expired now id answers s.redis gone in
      ((λ k. ground (arith, expired)), ground (arith, expired))
