-- ===== src/Exam/Gateway/Timers.antt =====
-- The steps that the gateway of src/modules/exam/exam.gateway.ts takes, in any order, and the table
-- of its timers along them.
use ios_backend.Base.{
  ℕ, false, not, ◌&&◌, Option, none, some, String, ◌==◌, List, [], ◌∷◌, ◌≡◌, refl, Bool-cases, inl,
  inr, arith, ltb, leb, find, count, delete, is_some, ok, err, HasUniqueKeys, has_key,
  update-HasUniqueKeys,
}
use ios_backend.Redis.Client.{Pttl, no_key, no_ttl, ms}
use ios_backend.Exam.Gateway.{
  GatewayState, TimerEntry, Socket, SessionRead, timer_of, is_running, start_timer, clear_timer,
  warn, warn_all, tick, tick_left, emit, fire_interval, answer_late, late_read, closure_at,
  join_session, ensure_timer, enter_room, broadcast_session_expired, clear_session_timer,
  add_warned, has_warned, warning_thresholds, session_expired,
}

-- What can happen next: a socket asks to join, an interval is answered while its timer stands or after
-- it has been cleared, a session expires or is submitted.
pub data GatewayStep : Type 0 where
  joins : Socket → String → SessionRead → GatewayStep
  fires : String → SessionRead → GatewayStep
  late : ℕ → SessionRead → GatewayStep
  expires : String → GatewayStep
  submitted : String → GatewayStep

unfoldable pub step : GatewayStep → GatewayState → GatewayState
unfolding join_session fire_interval answer_late broadcast_session_expired clear_session_timer
step (joins socket session_id read) g = (join_session socket session_id read g).1
step (fires session_id read) g = fire_interval session_id read g
step (late place read) g = answer_late place read g
step (expires session_id) g = broadcast_session_expired session_id g
step (submitted session_id) g = clear_session_timer session_id g

abbrev pub steps : List GatewayStep → GatewayState → GatewayState
steps [] g = g
steps (s ∷ ss) g = steps ss (step s g)

abbrev pub session_of : TimerEntry → String
session_of t = t.session_id

-- A session has at most one timer.
abbrev pub HasOneTimerEach : GatewayState → Type 0
HasOneTimerEach g = HasUniqueKeys session_of g.timers

count-delete :
    (k j : String) (ts : List TimerEntry)
    → count (has_key session_of k) ts ≡ 0
    → count (has_key session_of k) (delete (timer_of j) ts) ≡ 0
count-delete k j [] h = refl
count-delete k j (t ∷ ts) h = ground (arith, count-delete k j ts)

delete-HasUniqueKeys :
    (j : String) (ts : List TimerEntry)
    → HasUniqueKeys session_of ts
    → HasUniqueKeys session_of (delete (timer_of j) ts)
delete-HasUniqueKeys j [] h = tt
delete-HasUniqueKeys j (t ∷ ts) h = elim (Bool-cases (timer_of j t)) [
  | inl e ↦ rw e (delete-HasUniqueKeys j ts h.1)
  | inr e ↦ rw e (count-delete t.session_id j ts h.0, delete-HasUniqueKeys j ts h.1)
]

absent-count :
    (k : String) (ts : List TimerEntry)
    → is_some (find (timer_of k) ts) ≡ false
    → count (has_key session_of k) ts ≡ 0
absent-count k [] h = refl
absent-count k (t ∷ ts) h = ground (arith, absent-count k ts)

warn-HasOneTimerEach :
    (session_id : String) (remaining threshold : ℕ) (g : GatewayState)
    → HasOneTimerEach g
    → HasOneTimerEach (warn session_id remaining threshold g)
unfolding warn
warn-HasOneTimerEach session_id remaining threshold g u =
    elim (Bool-cases (leb remaining threshold && not (has_warned session_id threshold g))) [
      | inl e ↦ rw e (
          update-HasUniqueKeys session_of (timer_of session_id) (add_warned threshold) g.timers
            (λ t. refl) u)
      | inr e ↦ rw e u
    ]

warn_all-HasOneTimerEach :
    (session_id : String) (remaining : ℕ) (ts : List ℕ) (g : GatewayState)
    → HasOneTimerEach g
    → HasOneTimerEach (warn_all session_id remaining ts g)
warn_all-HasOneTimerEach session_id remaining [] g u = u
warn_all-HasOneTimerEach session_id remaining (t ∷ ts) g u =
    warn_all-HasOneTimerEach session_id remaining ts (warn session_id remaining t g)
      (warn-HasOneTimerEach session_id remaining t g u)

clear-HasOneTimerEach :
    (session_id : String) (g : GatewayState)
    → HasOneTimerEach g
    → HasOneTimerEach (clear_timer session_id g)
unfolding clear_timer
clear-HasOneTimerEach session_id g u = delete-HasUniqueKeys session_id g.timers u

tick_left-HasOneTimerEach :
    (session_id : String) (pttl : Pttl) (g : GatewayState)
    → HasOneTimerEach g
    → HasOneTimerEach (tick_left session_id pttl g)
tick_left-HasOneTimerEach session_id no_key g u = clear-HasOneTimerEach session_id g u
tick_left-HasOneTimerEach session_id no_ttl g u = clear-HasOneTimerEach session_id g u
tick_left-HasOneTimerEach session_id (ms n) g u = elim (Bool-cases (ltb 0 n)) [
  | inl e ↦ rw e (warn_all-HasOneTimerEach session_id _ warning_thresholds (emit _ g) u)
  | inr e ↦ rw e (clear-HasOneTimerEach session_id g u)
]

fires-HasOneTimerEach :
    (session_id : String) (read : SessionRead) (g : GatewayState)
    → HasOneTimerEach g
    → HasOneTimerEach (fire_interval session_id read g)
unfolding fire_interval tick
fires-HasOneTimerEach session_id (err x) g u = elim (Bool-cases (is_running session_id g)) [
  | inl e ↦ rw e u
  | inr e ↦ rw e u
]
fires-HasOneTimerEach session_id (ok (d, pttl)) g u = elim (Bool-cases (is_running session_id g)) [
  | inl e ↦ rw e (tick_left-HasOneTimerEach session_id pttl g u)
  | inr e ↦ rw e u
]

late-HasOneTimerEach :
    (place : ℕ) (t : Option TimerEntry) (read : SessionRead) (g : GatewayState)
    → HasOneTimerEach g
    → HasOneTimerEach (late_read place t read g)
late-HasOneTimerEach place none read g u = u
late-HasOneTimerEach place (some t) (err e) g u = u
late-HasOneTimerEach place (some t) (ok (d, no_key)) g u = clear-HasOneTimerEach t.session_id g u
late-HasOneTimerEach place (some t) (ok (d, no_ttl)) g u = clear-HasOneTimerEach t.session_id g u
late-HasOneTimerEach place (some t) (ok (d, ms n)) g u = elim (Bool-cases (ltb 0 n)) [
  | inl e ↦ rw e u
  | inr e ↦ rw e (clear-HasOneTimerEach t.session_id g u)
]

ensure-HasOneTimerEach :
    (session_id : String) (g : GatewayState)
    → HasOneTimerEach g
    → HasOneTimerEach (ensure_timer session_id g)
unfolding start_timer
ensure-HasOneTimerEach session_id g u = elim (Bool-cases (is_running session_id g)) [
  | inl e ↦ rw e u
  | inr e ↦ rw e (absent-count session_id g.timers e, u)
]

joins-HasOneTimerEach :
    (socket : Socket) (session_id : String) (read : SessionRead) (g : GatewayState)
    → HasOneTimerEach g
    → HasOneTimerEach (join_session socket session_id read g).1
unfolding join_session
joins-HasOneTimerEach socket session_id (err e) g u = u
joins-HasOneTimerEach socket session_id (ok (none, pttl)) g u = u
joins-HasOneTimerEach socket session_id (ok (some d, pttl)) g u =
    elim (Bool-cases (d.user_id == socket.user_id)) [
      | inl e ↦ rw e (ensure-HasOneTimerEach session_id (enter_room session_id socket g) u)
      | inr e ↦ rw e u
    ]

step-HasOneTimerEach :
    (s : GatewayStep) (g : GatewayState) → HasOneTimerEach g → HasOneTimerEach (step s g)
unfolding step answer_late
step-HasOneTimerEach (joins socket session_id read) g u =
    joins-HasOneTimerEach socket session_id read g u
step-HasOneTimerEach (fires session_id read) g u = fires-HasOneTimerEach session_id read g u
step-HasOneTimerEach (late place read) g u =
    late-HasOneTimerEach place (closure_at place g.closures) read g u
step-HasOneTimerEach (expires session_id) g u =
    clear-HasOneTimerEach session_id (emit (session_expired session_id) g) u
step-HasOneTimerEach (submitted session_id) g u = clear-HasOneTimerEach session_id g u

-- However joins, intervals, expiries and submissions follow one another, no session ever has two
-- timers.
pub steps-HasOneTimerEach :
    (ss : List GatewayStep) (g : GatewayState) → HasOneTimerEach g → HasOneTimerEach (steps ss g)
steps-HasOneTimerEach [] g u = u
steps-HasOneTimerEach (s ∷ ss) g u =
    steps-HasOneTimerEach ss (step s g) (step-HasOneTimerEach s g u)
