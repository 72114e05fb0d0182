-- ===== src/Exam/Gateway/Silence.antt =====
-- What the gateway of src/modules/exam/exam.gateway.ts emits of a session that has expired, and
-- what it must emit while one runs.
use ios_backend.Base.{
  ℕ, ◌+◌, ◌*◌, ◌≤◌, Option, ap, if◌then◌else◌, Bool, true, false, not, ◌&&◌, none, some, String,
  ◌==◌, List, [], ◌∷◌, ◌≡◌, refl, ◌∙◌, Bool-cases, inl, inr, arith, ltb, leb, All, count, ok, err,
  eq_iff, eq_refl,
}
use ios_backend.Redis.Client.{Pttl, no_key, no_ttl, ms}
use ios_backend.Exam.Gateway.{
  GatewayState, GatewayEvent, timer_tick, warning, session_expired, Socket, SessionRead, is_running,
  start_timer, clear_timer, warn, warn_all, tick, tick_left, emit, fire_interval, join_session,
  ensure_timer, broadcast_session_expired, clear_session_timer, has_warned, warning_thresholds,
  ceil_seconds, TimerEntry, has_nat, warn_late, announce_late, late_read, answer_late, closure_at,
}
use ios_backend.Exam.Gateway.Timers.{
  GatewayStep, joins, fires, late, expires, submitted, step, steps,
}
use ios_backend.Exam.Gateway.Table.{find-delete, is_running-warn}

-- A tick or a warning of the session.
abbrev pub is_countdown : String → GatewayEvent → Bool
is_countdown session_id (timer_tick s r) = s == session_id
is_countdown session_id (warning s r t) = s == session_id
is_countdown session_id (session_expired s) = false

-- A step that is no join of the session.
abbrev pub IsNoJoin : String → GatewayStep → Type 0
IsNoJoin session_id (joins socket j read) = (j == session_id) ≡ false
IsNoJoin session_id (fires j read) = Unit
IsNoJoin session_id (late place read) = Unit
IsNoJoin session_id (expires j) = Unit
IsNoJoin session_id (submitted j) = Unit

module _ (session_id : String) where
  abbrev pub countdowns : GatewayState → ℕ
  countdowns g = count (is_countdown session_id) g.events

  -- Nothing runs for the session, and no more than so much has been emitted of it.
  abbrev IsQuiet : ℕ → GatewayState → Type 0
  IsQuiet n g = (is_running session_id g ≡ false) × (countdowns g ≤ n)

  weaken-IsQuiet : (n m : ℕ) (g : GatewayState) → IsQuiet n g → IsQuiet (n + 3 * m) g
  weaken-IsQuiet n m g (idle, few) = (idle, omega (arith, few))

  warn-IsQuiet :
      (n : ℕ) (j : String) (remaining t : ℕ) (g : GatewayState)
      → (j == session_id) ≡ false
      → IsQuiet n g
      → IsQuiet n (warn j remaining t g)
  unfolding warn
  warn-IsQuiet n j remaining t g other (idle, same) = (
    is_running-warn session_id j remaining t g ∙ idle,
    elim (Bool-cases (leb remaining t && not (has_warned j t g))) [
      | inl e ↦ rw (e, other) same
      | inr e ↦ rw e same
    ],
  )

  warn_all-IsQuiet :
      (n : ℕ) (j : String) (remaining : ℕ) (ts : List ℕ) (g : GatewayState)
      → (j == session_id) ≡ false
      → IsQuiet n g
      → IsQuiet n (warn_all j remaining ts g)
  warn_all-IsQuiet n j remaining [] g other quiet = quiet
  warn_all-IsQuiet n j remaining (t ∷ ts) g other quiet =
      warn_all-IsQuiet n j remaining ts (warn j remaining t g) other
        (warn-IsQuiet n j remaining t g other quiet)

  clear-IsQuiet :
      (n : ℕ) (j : String) (g : GatewayState) → IsQuiet n g → IsQuiet n (clear_timer j g)
  unfolding clear_timer
  clear-IsQuiet n j g (idle, same) = (ground (arith, idle, find-delete session_id j g.timers), same)

  tick_left-IsQuiet :
      (n : ℕ) (j : String) (pttl : Pttl) (g : GatewayState)
      → (j == session_id) ≡ false
      → IsQuiet n g
      → IsQuiet n (tick_left j pttl g)
  tick_left-IsQuiet n j no_key g other quiet = clear-IsQuiet n j g quiet
  tick_left-IsQuiet n j no_ttl g other quiet = clear-IsQuiet n j g quiet
  tick_left-IsQuiet n j (ms left) g other quiet = elim (Bool-cases (ltb 0 left)) [
    | inl e ↦ rw e (
        warn_all-IsQuiet n j (ceil_seconds left) warning_thresholds
          (emit (timer_tick j (ceil_seconds left)) g) other (quiet.0, rw other quiet.1))
    | inr e ↦ rw e (clear-IsQuiet n j g quiet)
  ]

  fires-IsQuiet :
      (n : ℕ) (j : String) (read : SessionRead) (g : GatewayState)
      → IsQuiet n g
      → IsQuiet n (fire_interval j read g)
  unfolding fire_interval tick
  fires-IsQuiet n j (err x) g quiet = elim (Bool-cases (is_running j g)) [
    | inl e ↦ rw e quiet
    | inr e ↦ rw e quiet
  ]
  fires-IsQuiet n j (ok (d, pttl)) g quiet = elim (Bool-cases (is_running j g)) [
    | inr e ↦ rw e quiet
    | inl e ↦ elim (Bool-cases (j == session_id)) [
      | inr other ↦ rw e (tick_left-IsQuiet n j pttl g other quiet)
      | inl same ↦
          let own : j ≡ session_id = ground (arith, same, eq_iff j session_id) in
          let runs : is_running session_id g ≡ true = rw own at e in
          absurd (ground (arith, runs, quiet.0))
    ]
  ]

  joins-IsQuiet :
      (n : ℕ) (socket : Socket) (j : String) (read : SessionRead) (g : GatewayState)
      → (j == session_id) ≡ false
      → IsQuiet n g
      → IsQuiet n (join_session socket j read g).1
  unfolding join_session ensure_timer start_timer
  joins-IsQuiet n socket j (err e) g other quiet = quiet
  joins-IsQuiet n socket j (ok (none, pttl)) g other quiet = quiet
  joins-IsQuiet n socket j (ok (some d, pttl)) g other quiet =
      elim (Bool-cases (d.user_id == socket.user_id)) [
        | inr e ↦ rw e quiet
        | inl e ↦ elim (Bool-cases (is_running j g)) [
          | inl runs ↦ rw (e, runs) quiet
          | inr idle ↦ rw (e, idle) (rw other quiet.0, quiet.1)
        ]
      ]

  -- Whether a closure is one of the session.
  abbrev pub own_closure : Option TimerEntry → ℕ
  own_closure none = 0
  own_closure (some t) = if t.session_id == session_id then 1 else 0

  warn_late-count :
      (remaining t : ℕ) (entry : TimerEntry) (events : List GatewayEvent)
      → let w = warn_late remaining t (entry, events) in
        (w.0.session_id ≡ entry.session_id)
        × (count (is_countdown session_id) w.1
            ≤ count (is_countdown session_id) events + own_closure (some entry))
  warn_late-count remaining t entry events =
      elim (Bool-cases (leb remaining t && not (has_nat entry.warned_thresholds t))) [
        | inl e ↦ rw e (refl, ground arith)
        | inr e ↦ rw e (refl, omega arith)
      ]

  announce_late-count :
      (remaining : ℕ) (t : TimerEntry) (events : List GatewayEvent)
      → count (is_countdown session_id) (announce_late remaining t events).1
        ≤ count (is_countdown session_id) events + 3 * own_closure (some t)
  announce_late-count remaining t events =
      let ticked = timer_tick t.session_id remaining ∷ events in
      let w = warn_late remaining 600 (t, ticked) in
      let first = warn_late-count remaining 600 t ticked in
      let second = warn_late-count remaining 300 w.0 w.1 in
      let own : own_closure (some w.0) ≡ own_closure (some t) =
        ap (λ k. if k == session_id then 1 else 0) first.0 in
      let tick : count (is_countdown session_id) ticked
          ≤ count (is_countdown session_id) events + own_closure (some t) =
        ground arith in
      omega (arith, first.1, second.1, own, tick)

  late-IsQuiet :
      (n place : ℕ) (t : Option TimerEntry) (read : SessionRead) (g : GatewayState)
      → IsQuiet n g
      → IsQuiet (n + 3 * own_closure t) (late_read place t read g)
  late-IsQuiet n place none read g (idle, few) = (idle, omega (arith, few))
  late-IsQuiet n place (some t) (err e) g quiet = weaken-IsQuiet n (own_closure (some t)) g quiet
  late-IsQuiet n place (some t) (ok (d, no_key)) g quiet =
      clear-IsQuiet (n + 3 * own_closure (some t)) t.session_id g
        (weaken-IsQuiet n (own_closure (some t)) g quiet)
  late-IsQuiet n place (some t) (ok (d, no_ttl)) g quiet =
      clear-IsQuiet (n + 3 * own_closure (some t)) t.session_id g
        (weaken-IsQuiet n (own_closure (some t)) g quiet)
  late-IsQuiet n place (some t) (ok (d, ms left)) g quiet = elim (Bool-cases (ltb 0 left)) [
    | inl e ↦
        rw e (quiet.0, omega (arith, quiet.1, announce_late-count (ceil_seconds left) t g.events))
    | inr e ↦ rw e (
        clear-IsQuiet (n + 3 * own_closure (some t)) t.session_id g
          (weaken-IsQuiet n (own_closure (some t)) g quiet))
  ]

  -- Whether a step is a late answer to a callback of the session.
  abbrev pub late_for : GatewayStep → GatewayState → ℕ
  late_for (joins socket j read) g = 0
  late_for (fires j read) g = 0
  late_for (late place read) g = own_closure (closure_at place g.closures)
  late_for (expires j) g = 0
  late_for (submitted j) g = 0

  abbrev pub late_answers : List GatewayStep → GatewayState → ℕ
  late_answers [] g = 0
  late_answers (s ∷ ss) g = late_for s g + late_answers ss (step s g)

  step-IsQuiet :
      (n : ℕ) (s : GatewayStep) (g : GatewayState)
      → IsNoJoin session_id s
      → IsQuiet n g
      → IsQuiet (n + 3 * late_for s g) (step s g)
  unfolding step answer_late broadcast_session_expired clear_session_timer
  step-IsQuiet n (joins socket j read) g away quiet =
      weaken-IsQuiet n 0 (join_session socket j read g).1
        (joins-IsQuiet n socket j read g away quiet)
  step-IsQuiet n (fires j read) g away quiet =
      weaken-IsQuiet n 0 (fire_interval j read g) (fires-IsQuiet n j read g quiet)
  step-IsQuiet n (late place read) g away quiet =
      late-IsQuiet n place (closure_at place g.closures) read g quiet
  step-IsQuiet n (expires j) g away quiet =
      weaken-IsQuiet n 0 (clear_timer j (emit (session_expired j) g))
        (clear-IsQuiet n j (emit (session_expired j) g) quiet)
  step-IsQuiet n (submitted j) g away quiet =
      weaken-IsQuiet n 0 (clear_timer j g) (clear-IsQuiet n j g quiet)

  steps-IsQuiet :
      (n : ℕ) (ss : List GatewayStep) (g : GatewayState)
      → All (IsNoJoin session_id) ss
      → IsQuiet n g
      → IsQuiet (n + 3 * late_answers ss g) (steps ss g)
  steps-IsQuiet n [] g away quiet = weaken-IsQuiet n 0 g quiet
  steps-IsQuiet n (s ∷ ss) g away quiet =
      let (idle, few) =
        steps-IsQuiet (n + 3 * late_for s g) ss (step s g) away.1
          (step-IsQuiet n s g away.0 quiet) in
      (idle, omega (arith, few))

-- After a session has been announced as expired, and until somebody joins it again, no timer of it
-- runs and no interval emits a tick or a warning of it, whatever else happens, but for the callbacks
-- that had been waiting for Redis when their timer was cleared: each answer to such a callback can
-- still emit one tick and the two warnings.
pub broadcast_session_expired-quiet :
    (session_id : String) (ss : List GatewayStep) (g : GatewayState)
    → All (IsNoJoin session_id) ss
    → let expired = broadcast_session_expired session_id g in
      (is_running session_id (steps ss expired) ≡ false)
      × (countdowns session_id (steps ss expired)
          ≤ countdowns session_id g + 3 * late_answers session_id ss expired)
unfolding broadcast_session_expired clear_timer
broadcast_session_expired-quiet session_id ss g away =
    steps-IsQuiet session_id (countdowns session_id g) ss (broadcast_session_expired session_id g)
      away
      (ground (arith, eq_refl session_id, find-delete session_id session_id g.timers), omega arith)
