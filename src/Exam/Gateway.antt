-- ===== src/Exam/Gateway.antt =====
-- `ExamGateway` of src/modules/exam/exam.gateway.ts: the rooms and the countdown timers of the exam
-- sessions. What a handler reads from Redis comes in as an argument, since other requests run while
-- it waits for the answer. `fire_interval` is a callback of an interval whose timer still stands when
-- its answer arrives, and `answer_late` one whose timer has been cleared while it waited: it goes on
-- with the set of thresholds that it has closed over.
pub mod Timers
pub mod Table
pub mod Warnings
pub mod Silence
pub mod Due
pub mod Joining
use ios_backend.Base.{
  ℕ, zero, suc, ◌+◌, ◌/◌, Bool, true, false, not, ◌&&◌, ◌||◌, Option, none, some, String, ◌==◌,
  List, [], ◌∷◌, ltb, leb, nat_eq, if◌then◌else◌, find, count, update, delete, is_some, Result, ok,
  err, Exception, failure, Action,
}
use ios_backend.Redis.Client.{Pttl, no_key, no_ttl, ms}
use ios_backend.Exam.Platform.{ExamSessionData, Platform}
use ios_backend.Exam.TestSessions.{get_session}

-- `WARNING_THRESHOLDS`.
abbrev pub warning_thresholds : List ℕ
warning_thresholds = 600 ∷ 300 ∷ []

-- `TimerEntry` at its session; the interval runs as long as the entry is there.
pub record TimerEntry : Type 0 where
  pub session_id : String
  pub warned_thresholds : List ℕ

-- What the server emits to the room of a session.
pub data GatewayEvent : Type 0 where
  timer_tick : String → ℕ → GatewayEvent
  warning : String → ℕ → ℕ → GatewayEvent
  session_expired : String → GatewayEvent

-- A socket in the room of a session.
pub record RoomMember : Type 0 where
  pub session_id : String
  pub socket_id : String
  pub user_id : String

-- `Socket`, with the `data.userId` that the authentication has attached.
pub record Socket : Type 0 where
  pub id : String
  pub user_id : String

-- `closures` are the intervals that have been cleared, with their sets: callbacks of theirs may still
-- wait for Redis.
pub record GatewayState : Type 0 where
  pub timers : List TimerEntry
  pub closures : List TimerEntry
  pub rooms : List RoomMember
  pub events : List GatewayEvent

pub record Joined : Type 0 where
  pub joined : Bool
  pub remaining_seconds : ℕ

-- `getSession`: the data and the time left, or what was thrown.
abbrev pub SessionRead : Type 0
SessionRead = Result (Option ExamSessionData × Pttl)

abbrev pub timer_of : String → TimerEntry → Bool
timer_of session_id t = t.session_id == session_id

-- `this.timers.has(sessionId)`.
abbrev pub is_running : String → GatewayState → Bool
is_running session_id g = is_some (find (timer_of session_id) g.timers)

abbrev pub emit : GatewayEvent → GatewayState → GatewayState
emit e g = record g { events = e ∷ g.events }

unfoldable pub start_timer : String → GatewayState → GatewayState
start_timer session_id g = record g {
  timers = record { session_id = session_id; warned_thresholds = [] } ∷ g.timers;
}

abbrev pub with_closure : Option TimerEntry → List TimerEntry → List TimerEntry
with_closure none closures = closures
with_closure (some t) closures = t ∷ closures

unfoldable pub clear_timer : String → GatewayState → GatewayState
clear_timer session_id g = record g {
  timers = delete (timer_of session_id) g.timers;
  closures = with_closure (find (timer_of session_id) g.timers) g.closures;
}

-- `Math.ceil(pttlMs / 1000)`.
abbrev pub ceil_seconds : ℕ → ℕ
ceil_seconds n = (n + 999) / 1000

-- The set `warnedThresholds` as the list of its elements.
abbrev pub has_nat : List ℕ → ℕ → Bool
has_nat [] n = false
has_nat (m ∷ rest) n = nat_eq m n || has_nat rest n

abbrev pub warned_of : Option TimerEntry → List ℕ
warned_of none = []
warned_of (some t) = t.warned_thresholds

abbrev pub has_warned : String → ℕ → GatewayState → Bool
has_warned session_id threshold g =
    has_nat (warned_of (find (timer_of session_id) g.timers)) threshold

abbrev pub add_warned : ℕ → TimerEntry → TimerEntry
add_warned threshold t = record t { warned_thresholds = threshold ∷ t.warned_thresholds }

unfoldable pub warn : String → ℕ → ℕ → GatewayState → GatewayState
warn session_id remaining threshold g =
    if leb remaining threshold && not (has_warned session_id threshold g)
    then record g {
      timers = update (timer_of session_id) (add_warned threshold) g.timers;
      events = warning session_id remaining threshold ∷ g.events;
    }
    else g

-- The loop over the thresholds.
abbrev pub warn_all : String → ℕ → List ℕ → GatewayState → GatewayState
warn_all session_id remaining [] g = g
warn_all session_id remaining (t ∷ ts) g =
    warn_all session_id remaining ts (warn session_id remaining t g)

abbrev pub announce : String → ℕ → GatewayState → GatewayState
announce session_id remaining g =
    warn_all session_id remaining warning_thresholds (emit (timer_tick session_id remaining) g)

abbrev pub tick_left : String → Pttl → GatewayState → GatewayState
tick_left session_id no_key g = clear_timer session_id g
tick_left session_id no_ttl g = clear_timer session_id g
tick_left session_id (ms n) g =
    if ltb 0 n then announce session_id (ceil_seconds n) g else clear_timer session_id g

-- The interval's callback once it has its answer; what it throws is only logged.
unfoldable pub tick : String → SessionRead → GatewayState → GatewayState
unfolding clear_timer warn
tick session_id (err e) g = g
tick session_id (ok (session_data, pttl)) g = tick_left session_id pttl g

-- The interval of a session, if one is set.
unfoldable pub fire_interval : String → SessionRead → GatewayState → GatewayState
unfolding tick
fire_interval session_id read g = if is_running session_id g then tick session_id read g else g

-- A threshold, for a callback with its own set.
abbrev pub warn_late : ℕ → ℕ → TimerEntry × List GatewayEvent → TimerEntry × List GatewayEvent
warn_late remaining threshold (t, events) =
    if leb remaining threshold && not (has_nat t.warned_thresholds threshold)
    then (add_warned threshold t, warning t.session_id remaining threshold ∷ events)
    else (t, events)

abbrev pub warn_late_all :
    ℕ → List ℕ → TimerEntry × List GatewayEvent → TimerEntry × List GatewayEvent
warn_late_all remaining [] w = w
warn_late_all remaining (t ∷ ts) w = warn_late_all remaining ts (warn_late remaining t w)

abbrev pub announce_late : ℕ → TimerEntry → List GatewayEvent → TimerEntry × List GatewayEvent
announce_late remaining t events =
    warn_late_all remaining warning_thresholds (t, timer_tick t.session_id remaining ∷ events)

-- The closure at a place, and the list with another in its place.
abbrev pub closure_at : ℕ → List TimerEntry → Option TimerEntry
closure_at n [] = none
closure_at zero (t ∷ ts) = some t
closure_at (suc n) (t ∷ ts) = closure_at n ts

abbrev pub replace_at : ℕ → TimerEntry → List TimerEntry → List TimerEntry
replace_at n u [] = []
replace_at zero u (t ∷ ts) = u ∷ ts
replace_at (suc n) u (t ∷ ts) = t ∷ replace_at n u ts

abbrev pub put_late : ℕ → TimerEntry × List GatewayEvent → GatewayState → GatewayState
put_late place (t, events) g = record g {
  closures = replace_at place t g.closures;
  events = events;
}

-- A key that is gone clears the timer that the session has by now.
abbrev pub late_left : ℕ → TimerEntry → Pttl → GatewayState → GatewayState
late_left place t no_key g = clear_timer t.session_id g
late_left place t no_ttl g = clear_timer t.session_id g
late_left place t (ms n) g =
    if ltb 0 n
    then put_late place (announce_late (ceil_seconds n) t g.events) g
    else clear_timer t.session_id g

abbrev pub late_read : ℕ → Option TimerEntry → SessionRead → GatewayState → GatewayState
late_read place none read g = g
late_read place (some t) (err e) g = g
late_read place (some t) (ok (session_data, pttl)) g = late_left place t pttl g

unfoldable pub answer_late : ℕ → SessionRead → GatewayState → GatewayState
unfolding clear_timer
answer_late place read g = late_read place (closure_at place g.closures) read g

abbrev pub seconds_left : Pttl → ℕ
seconds_left no_key = 0
seconds_left no_ttl = 0
seconds_left (ms n) = if ltb 0 n then ceil_seconds n else 0

abbrev pub enter_room : String → Socket → GatewayState → GatewayState
enter_room session_id socket g = record g {
  rooms =
      record { session_id = session_id; socket_id = socket.id; user_id = socket.user_id } ∷ g.rooms;
}

abbrev pub ensure_timer : String → GatewayState → GatewayState
unfolding start_timer
ensure_timer session_id g = if is_running session_id g then g else start_timer session_id g

abbrev pub not_owner : Exception
not_owner = failure "Session not found or does not belong to this user"

-- `handleJoinSession` once it has its answer.
unfoldable pub join_session :
    Socket → String → SessionRead → GatewayState → Result Joined × GatewayState
unfolding ensure_timer
join_session socket session_id (err e) g = (err e, g)
join_session socket session_id (ok (none, pttl)) g = (err not_owner, g)
join_session socket session_id (ok (some d, pttl)) g =
    if d.user_id == socket.user_id
    then (
      ok (record { joined = true; remaining_seconds = seconds_left pttl }),
      ensure_timer session_id (enter_room session_id socket g),
    )
    else (err not_owner, g)

unfoldable pub broadcast_session_expired : String → GatewayState → GatewayState
unfolding clear_timer
broadcast_session_expired session_id g =
    clear_timer session_id (emit (session_expired session_id) g)

unfoldable pub clear_session_timer : String → GatewayState → GatewayState
unfolding clear_timer
clear_session_timer session_id g = clear_timer session_id g

-- `handleJoinSession` against a Redis store, which it only reads.
unfoldable pub handle_join_session :
    (env : Platform) (now : ℕ)
    → Socket
    → String
    → env.redis.Store
    → GatewayState
    → Result Joined × GatewayState
unfolding join_session get_session
handle_join_session env now socket session_id store g =
    join_session socket session_id (get_session env now session_id store).0 g
