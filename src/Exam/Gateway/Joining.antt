-- ===== src/Exam/Gateway/Joining.antt =====
-- Who may join the room of a session of src/modules/exam/exam.gateway.ts, and what a student who
-- joins is told.
use ios_backend.Base.{
  ℕ, ◌+◌, ◌-◌, ◌*◌, ◌<◌, true, Option, none, some, String, ◌==◌, ◌≡◌, refl, sym, ◌∙◌, ap, subst,
  Bool-cases, Option-cases, inl, inr, arith, ltb, if◌then◌else◌, Result, ok, err, eq_iff, eq_refl,
}
use ios_backend.Redis.Client.{Pttl, ms}
use ios_backend.Redis.Keys.{session_key}
use ios_backend.Redis.Service.{set_json, get_json, pttl}
use ios_backend.Exam.Platform.{Platform, ExamSessionData}
use ios_backend.Exam.TestSessions.{SessionStart, start, get_session, initial_data}
use ios_backend.Exam.Gateway.{
  GatewayState, Socket, SessionRead, Joined, is_running, join_session, ensure_timer, enter_room,
  start_timer, handle_join_session, seconds_left, ceil_seconds, not_owner,
}

ensure_timer-runs :
    (session_id : String) (g : GatewayState)
    → is_running session_id (ensure_timer session_id g) ≡ true
unfolding ensure_timer start_timer
ensure_timer-runs session_id g = elim (Bool-cases (is_running session_id g)) [
  | inl e ↦ rw e e
  | inr e ↦ rw (e, eq_refl session_id) refl
]

-- Only the owner joins: a socket that is let in belongs to the user whose session Redis holds, it
-- is told the time that is left, and then a timer of the session runs.
pub join_session-owner :
    (socket : Socket) (session_id : String) (read : SessionRead) (g h : GatewayState)
    (reply : Joined)
    → join_session socket session_id read g ≡ (ok reply, h)
    → (d : ExamSessionData) × (left : Pttl) × (read ≡ ok (some d, left))
      × (d.user_id ≡ socket.user_id)
      × (reply.remaining_seconds ≡ seconds_left left)
      × (is_running session_id h ≡ true)
unfolding join_session
join_session-owner socket session_id (err e) g h reply joins = absurd (cc)
join_session-owner socket session_id (ok (none, left)) g h reply joins = absurd (cc)
join_session-owner socket session_id (ok (some d, left)) g h reply joins =
    elim (Bool-cases (d.user_id == socket.user_id)) [
      | inr e ↦ absurd (ground (arith, e))
      | inl e ↦
          let after = ensure_timer session_id (enter_room session_id socket g) in
          let same : d.user_id ≡ socket.user_id =
            ground (arith, e, eq_iff d.user_id socket.user_id) in
          let told : Joined = record { joined = true; remaining_seconds = seconds_left left } in
          let answer : (ok told, after) ≡ (ok reply, h) = rw e at joins in
          (
            d,
            left,
            refl,
            same,
            ap reply_seconds (sym (ap (λ o. o.0) answer)),
            subst (λ k. is_running session_id k ≡ true) (ap (λ o. o.1) answer)
                (ensure_timer-runs session_id (enter_room session_id socket g)),
          )
    ]
  where
    reply_seconds : Result Joined → ℕ
    reply_seconds (ok r) = r.remaining_seconds
    reply_seconds (err e) = 0

module _ (env : Platform) where
  open env use {redis, session_json}

  -- What a started session is read as, until its deadline.
  get_session-start :
      (now later ttl : ℕ) (begun : SessionStart) (s t : redis.Store) (found : Option String)
      (left : Pttl)
      → start env now begun ttl s ≡ (ok tt, t)
      → redis.get later (session_key begun.session_id) t ≡ some found
      → redis.pttl later (session_key begun.session_id) t ≡ some left
      → later < now + ttl * 1000
      → get_session env later begun.session_id t
        ≡ (ok (some (initial_data env now begun), ms (now + ttl * 1000 - later)), t)
  unfolding start set_json get_session get_json pttl
  get_session-start now later ttl begun s t found left started answers counts early =
      let key = session_key begun.session_id in
      let text = session_json.stringify (initial_data env now begun) in
      elim (Option-cases (redis.set_ex now key text ttl s)) [
        | inl rejected ↦ absurd (ground (arith, rejected))
        | inr (u, stored) ↦
            let same : u ≡ t = ground (arith, stored) in
            let done : redis.set_ex now key text ttl s ≡ some t = stored ∙ ap some same in
            let entry = redis.entry-set_ex now key text ttl s t key done in
            ground (
              arith,
              answers,
              counts,
              entry,
              eq_refl key,
              redis.get_lem later key t found answers,
              redis.pttl_lem later key t left counts,
              session_json.parse-stringify (initial_data env now begun),
            )
      ]

-- From the start of a session to its countdown: until the deadline, the student who has started it
-- joins and is told the time that is left, rounded up to seconds, and any other user is refused,
-- given that Redis answers.
pub start-handle_join_session :
    (env : Platform) (now later ttl : ℕ) (begun : SessionStart) (socket : Socket)
    (s t : env.redis.Store) (g : GatewayState) (found : Option String) (left : Pttl)
    → start env now begun ttl s ≡ (ok tt, t)
    → env.redis.get later (session_key begun.session_id) t ≡ some found
    → env.redis.pttl later (session_key begun.session_id) t ≡ some left
    → later < now + ttl * 1000
    → (handle_join_session env later socket begun.session_id t g).0 ≡ (
        if begun.user_id == socket.user_id
        then ok
            (record { joined = true; remaining_seconds = ceil_seconds (now + ttl * 1000 - later) })
        else err not_owner)
unfolding handle_join_session join_session
start-handle_join_session env now later ttl begun socket s t g found left started answers counts
      early =
    let read =
      get_session-start env now later ttl begun s t found left started answers counts early in
    let some_left : ltb 0 (now + ttl * 1000 - later) ≡ true = ground arith in
    ap (λ o. (join_session socket begun.session_id o.0 g).0) read
    ∙ elim (Bool-cases (begun.user_id == socket.user_id)) [
      | inl e ↦ rw (e, some_left) refl
      | inr e ↦ rw e refl
    ]
