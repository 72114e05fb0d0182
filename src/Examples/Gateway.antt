-- ===== src/Examples/Gateway.antt =====
-- A session that is watched by its student.
use ios_backend.Base.{
  count, List, Memᴰ, [], arith, err, false, if◌then◌else◌, none, ok, refl, suc, true, ◌*◌, ◌+◌, ◌-◌,
  ◌==◌, ◌∷◌, ◌≡◌, ◌≤◌,
}
use ios_backend.Exam.Gateway.{
  GatewayState, Socket, broadcast_session_expired, ceil_seconds, fire_interval, handle_join_session,
  is_running, not_owner, start_timer, timer_of,
}
use ios_backend.Exam.Gateway.Due.{fire_interval-warns}
use ios_backend.Exam.Gateway.Joining.{start-handle_join_session}
use ios_backend.Exam.Gateway.Silence.{broadcast_session_expired-quiet, countdowns, late_answers}
use ios_backend.Exam.Gateway.Timers.{GatewayStep, fires, late, joins, steps}
use ios_backend.Exam.Gateway.Warnings.{steps-warnings, timers_started, warnings}
use ios_backend.Exam.TestSessions.{SessionStart, start}
use ios_backend.Examples.Setting.{Server, platform}
use ios_backend.Redis.Client.{live_value, ms, no_key}
use ios_backend.Redis.Keys.{session_key}
use ios_backend.Redis.Service.{set_json}

abbrev empty_gateway : GatewayState
empty_gateway = record { timers = []; closures = []; rooms = []; events = [] }

abbrev owner : Socket
owner = record { id = "k"; user_id = "u" }

-- The timer of one session, of which nothing has been warned.
abbrev running : GatewayState
running = start_timer "s" empty_gateway

abbrev later_steps : List GatewayStep
later_steps =
    fires "s" (ok (none, ms 200000))
    ∷ late 0 (ok (none, ms 100))
    ∷ joins owner "t" (ok (none, no_key))
    ∷ []

abbrev begun : SessionStart
begun = record { session_id = "s"; user_id = "u"; exam_id = "e"; cert_id = "c"; started_at = 0 }

abbrev fresh_server : Server
fresh_server = record { up = true; entries = λ j. none }

abbrev begun_server : Server
begun_server = (start platform 0 begun 60 fresh_server).1

steps-warnings_example :
    warnings "s" 300 (steps later_steps running)
    ≤ warnings "s" 300 running
      + timers_started "s" 300 later_steps running
      + (if is_running "s" running then 1 else 0)
      + count (timer_of "s") running.closures
steps-warnings_example = steps-warnings "s" 300 later_steps running

broadcast_session_expired-quiet_example :
    let expired = broadcast_session_expired "s" running in
    (is_running "s" (steps later_steps expired) ≡ false)
    × (countdowns "s" (steps later_steps expired)
        ≤ countdowns "s" running + 3 * late_answers "s" later_steps expired)
broadcast_session_expired-quiet_example =
    broadcast_session_expired-quiet "s" later_steps running (tt, (tt, (refl, tt)))

fire_interval-warns_example :
    warnings "s" 600 (fire_interval "s" (ok (none, ms 500000)) running)
    ≡ suc (warnings "s" 600 running)
unfolding start_timer
fire_interval-warns_example =
    fire_interval-warns "s" 600 500000 none running (Memᴰ.head refl) (omega arith) (omega arith)
      refl refl

start-handle_join_session_example :
    (handle_join_session platform 1000 owner begun.session_id begun_server empty_gateway).0 ≡ (
      if begun.user_id == owner.user_id
      then ok (record { joined = true; remaining_seconds = ceil_seconds (0 + 60 * 1000 - 1000) })
      else err not_owner)
unfolding start set_json session_key
start-handle_join_session_example =
    start-handle_join_session platform 0 1000 60 begun owner fresh_server begun_server empty_gateway
      (live_value 1000 (begun_server.entries (session_key "s"))) (ms 59000) refl refl refl
      (omega arith)
