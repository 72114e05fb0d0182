-- ===== src/Exam/Gateway/Warnings.antt =====
-- How often the gateway of src/modules/exam/exam.gateway.ts warns of a threshold.
use ios_backend.Base.{
  ℕ, zero, suc, refl, find_holds, ◌+◌, ◌≤◌, Bool, true, false, not, ◌&&◌, Option, none, some,
  String, ◌==◌, List, [], ◌∷◌, ◌≡◌, sym, ◌∙◌, subst, Bool-cases, Option-cases, inl, inr, arith,
  eq_refl, ltb, leb, nat_eq, if◌then◌else◌, find, count, ok, err, eq_iff,
}
use ios_backend.Redis.Client.{Pttl, no_key, no_ttl, ms}
use ios_backend.Exam.Gateway.{
  GatewayState, GatewayEvent, timer_tick, warning, session_expired, TimerEntry, Socket, SessionRead,
  timer_of, is_running, start_timer, clear_timer, warn, warn_all, tick, tick_left, emit,
  fire_interval, answer_late, late_read, closure_at, replace_at, warn_late, warn_late_all,
  announce_late, join_session, ensure_timer, enter_room, has_warned, has_nat, ceil_seconds,
  warning_thresholds,
}
use ios_backend.Exam.Gateway.Timers.{
  GatewayStep, joins, fires, late, expires, submitted, step, steps,
}
use ios_backend.Exam.Gateway.Table.{add_to, find-delete, find-update_warned, is_running-warn}

abbrev pub is_warning : String → ℕ → GatewayEvent → Bool
is_warning session_id threshold (timer_tick s r) = false
is_warning session_id threshold (warning s r t) = s == session_id && nat_eq t threshold
is_warning session_id threshold (session_expired s) = false

module _ (session_id : String) (threshold : ℕ) where
  -- The warnings of the threshold that the session has had.
  abbrev pub warnings : GatewayState → ℕ
  warnings g = count (is_warning session_id threshold) g.events

  -- What its timer may still add.
  abbrev left_of : Option TimerEntry → ℕ
  left_of none = 0
  left_of (some t) = if has_nat t.warned_thresholds threshold then 0 else 1

  -- What a cleared interval of the session may still add, while a callback of it waits.
  abbrev late_left_of : TimerEntry → ℕ
  late_left_of t = if t.session_id == session_id then left_of (some t) else 0

  abbrev late_budget : List TimerEntry → ℕ
  late_budget [] = 0
  late_budget (t ∷ ts) = late_left_of t + late_budget ts

  abbrev budget : GatewayState → ℕ
  budget g = warnings g + left_of (find (timer_of session_id) g.timers) + late_budget g.closures

  -- The timers of the session that a run starts.
  abbrev pub started_by : GatewayStep → GatewayState → ℕ
  started_by s g =
      if not (is_running session_id g) && is_running session_id (step s g) then 1 else 0

  abbrev pub timers_started : List GatewayStep → GatewayState → ℕ
  timers_started [] g = 0
  timers_started (s ∷ ss) g = started_by s g + timers_started ss (step s g)

  add-left_of :
      (t : ℕ) (entry : TimerEntry)
      → has_nat entry.warned_thresholds t ≡ false
      → (if nat_eq t threshold then 1 else 0) + left_of (add_to t (some entry))
        ≤ left_of (some entry)
  add-left_of t entry fresh = elim (Bool-cases (nat_eq t threshold)) [
    | inl e ↦
        let same : t ≡ threshold = ground (arith, e) in
        let still : has_nat entry.warned_thresholds threshold ≡ false = rw same at fresh in
        rw (e, still) (omega arith)
    | inr e ↦ rw e (ground (arith, e))
  ]

  -- A warning to this session spends what the threshold has left.
  warn-budget_own :
      (remaining t : ℕ) (g : GatewayState)
      → is_running session_id g ≡ true
      → budget (warn session_id remaining t g) ≤ budget g
  unfolding warn
  warn-budget_own remaining t g running =
      elim (Bool-cases (leb remaining t && not (has_warned session_id t g))) [
        | inr e ↦ rw e (omega arith)
        | inl e ↦ elim (Option-cases (find (timer_of session_id) g.timers)) [
          | inl none_yet ↦ absurd (ground (arith, none_yet, running))
          | inr (entry, found) ↦
              let fresh : has_nat entry.warned_thresholds t ≡ false = ground (arith, e, found) in
              rw e (
                ground (
                  arith,
                  found,
                  eq_refl session_id,
                  add-left_of t entry fresh,
                  find-update_warned session_id session_id t g.timers,
                ))
        ]
      ]

  warn-budget :
      (j : String) (remaining t : ℕ) (g : GatewayState)
      → is_running j g ≡ true
      → budget (warn j remaining t g) ≤ budget g
  unfolding warn
  warn-budget j remaining t g running = elim (Bool-cases (j == session_id)) [
    | inl same ↦
        let own : j ≡ session_id = ground (arith, same, eq_iff j session_id) in
        subst (λ k. budget (warn k remaining t g) ≤ budget g) (sym own)
          (warn-budget_own remaining t g (subst (λ k. is_running k g ≡ true) own running))
    | inr other ↦ elim (Bool-cases (leb remaining t && not (has_warned j t g))) [
      | inl e ↦ rw e (ground (arith, other, find-update_warned session_id j t g.timers))
      | inr e ↦ rw e (omega arith)
    ]
  ]

  warn_all-budget :
      (j : String) (remaining : ℕ) (ts : List ℕ) (g : GatewayState)
      → is_running j g ≡ true
      → budget (warn_all j remaining ts g) ≤ budget g
  warn_all-budget j remaining [] g running = omega arith
  warn_all-budget j remaining (t ∷ ts) g running =
      let first = warn-budget j remaining t g running in
      let still : is_running j (warn j remaining t g) ≡ true =
        is_running-warn j j remaining t g ∙ running in
      let others = warn_all-budget j remaining ts (warn j remaining t g) still in
      omega (arith, first, others)

  clear-budget : (j : String) (g : GatewayState) → budget (clear_timer j g) ≤ budget g
  unfolding clear_timer
  clear-budget j g = elim (Bool-cases (j == session_id)) [
    | inl e ↦
        let own : j ≡ session_id = ground (arith, e, eq_iff j session_id) in
        elim (Option-cases (find (timer_of j) g.timers)) [
          | inl idle ↦ ground (arith, e, idle, own, find-delete session_id j g.timers)
          | inr (t, found) ↦
              let named = find_holds (timer_of j) g.timers t found in
              ground (arith, e, found, own, named, find-delete session_id j g.timers)
        ]
    | inr e ↦ elim (Option-cases (find (timer_of j) g.timers)) [
      | inl idle ↦ ground (arith, e, idle, find-delete session_id j g.timers)
      | inr (t, found) ↦
          let named = find_holds (timer_of j) g.timers t found in
          ground (
            arith,
            e,
            found,
            named,
            eq_iff t.session_id j,
            eq_iff t.session_id session_id,
            eq_iff j session_id,
            find-delete session_id j g.timers,
          )
    ]
  ]

  late_budget-le : (ts : List TimerEntry) → late_budget ts ≤ count (timer_of session_id) ts
  late_budget-le [] = omega arith
  late_budget-le (t ∷ ts) = ground (arith, late_budget-le ts)

  -- A late callback spends what its own set has left.
  late_warnings : TimerEntry × List GatewayEvent → ℕ
  late_warnings (t, events) = count (is_warning session_id threshold) events + late_left_of t

  warn_late-budget :
      (remaining t : ℕ) (w : TimerEntry × List GatewayEvent)
      → late_warnings (warn_late remaining t w) ≤ late_warnings w
  unfolding late_warnings
  warn_late-budget remaining t (entry, events) =
      elim (Bool-cases (leb remaining t && not (has_nat entry.warned_thresholds t))) [
        | inr e ↦ rw e (omega arith)
        | inl e ↦
            let fresh : has_nat entry.warned_thresholds t ≡ false = ground (arith, e) in
            rw e (ground (arith, add-left_of t entry fresh))
      ]

  warn_late_all-budget :
      (remaining : ℕ) (ts : List ℕ) (w : TimerEntry × List GatewayEvent)
      → late_warnings (warn_late_all remaining ts w) ≤ late_warnings w
  warn_late_all-budget remaining [] w = omega arith
  warn_late_all-budget remaining (t ∷ ts) w = omega (
    arith,
    warn_late-budget remaining t w,
    warn_late_all-budget remaining ts (warn_late remaining t w),
  )

  late_budget-replace_at :
      (place : ℕ) (t u : TimerEntry) (ts : List TimerEntry)
      → closure_at place ts ≡ some t
      → late_budget (replace_at place u ts) + late_left_of t ≡ late_budget ts + late_left_of u
  late_budget-replace_at place t u [] h = absurd (cc h)
  late_budget-replace_at zero t u (x ∷ ts) h =
      let same : x ≡ t = cc h in
      subst
        (λ y.
          late_left_of u + late_budget ts + late_left_of y
          ≡ late_left_of x + late_budget ts + late_left_of u)
        same (omega arith)
  late_budget-replace_at (suc place) t u (x ∷ ts) h =
      omega (arith, late_budget-replace_at place t u ts h)

  late-budget :
      (place : ℕ) (t : Option TimerEntry) (read : SessionRead) (g : GatewayState)
      → closure_at place g.closures ≡ t
      → budget (late_read place t read g) ≤ budget g
  unfolding late_warnings
  late-budget place none read g h = omega arith
  late-budget place (some t) (err e) g h = omega arith
  late-budget place (some t) (ok (d, no_key)) g h = clear-budget t.session_id g
  late-budget place (some t) (ok (d, no_ttl)) g h = clear-budget t.session_id g
  late-budget place (some t) (ok (d, ms n)) g h = elim (Bool-cases (ltb 0 n)) [
    | inr e ↦ rw e (clear-budget t.session_id g)
    | inl e ↦
        let w = announce_late (ceil_seconds n) t g.events in
        let spent =
          warn_late_all-budget (ceil_seconds n) warning_thresholds
            (t, timer_tick t.session_id (ceil_seconds n) ∷ g.events) in
        let replaced = late_budget-replace_at place t w.0 g.closures h in
        rw e (omega (arith, spent, replaced))
  ]

  tick_left-budget :
      (j : String) (pttl : Pttl) (g : GatewayState)
      → is_running j g ≡ true
      → budget (tick_left j pttl g) ≤ budget g
  tick_left-budget j no_key g running = clear-budget j g
  tick_left-budget j no_ttl g running = clear-budget j g
  tick_left-budget j (ms n) g running = elim (Bool-cases (ltb 0 n)) [
    | inl e ↦ rw e (
        warn_all-budget j (ceil_seconds n) warning_thresholds
          (emit (timer_tick j (ceil_seconds n)) g) running)
    | inr e ↦ rw e (clear-budget j g)
  ]

  tick-budget :
      (j : String) (read : SessionRead) (g : GatewayState)
      → is_running j g ≡ true
      → budget (tick j read g) ≤ budget g
  unfolding tick
  tick-budget j (err x) g running = omega arith
  tick-budget j (ok (d, pttl)) g running = tick_left-budget j pttl g running

  fires-budget :
      (j : String) (read : SessionRead) (g : GatewayState)
      → budget (fire_interval j read g) ≤ budget g
  unfolding fire_interval
  fires-budget j read g = elim (Bool-cases (is_running j g)) [
    | inl e ↦ rw e (tick-budget j read g e)
    | inr e ↦ rw e (omega arith)
  ]

  -- A timer that is started may warn once more.
  ensure-budget :
      (j : String) (g : GatewayState)
      → budget (ensure_timer j g)
        ≤ budget g
          + (if not (is_running session_id g) && is_running session_id (ensure_timer j g)
              then 1
              else 0)
  unfolding ensure_timer start_timer
  ensure-budget j g = elim (Bool-cases (is_running j g)) [
    | inl e ↦ rw e (omega arith)
    | inr e ↦ elim (Bool-cases (j == session_id)) [
      | inl same ↦
          let own : j ≡ session_id = ground (arith, same, eq_iff j session_id) in
          let idle : is_running session_id g ≡ false = rw own at e in
          rw (e, same, idle) (omega arith)
      | inr other ↦ rw (e, other) (omega arith)
    ]
  ]

  joins-budget :
      (socket : Socket) (j : String) (read : SessionRead) (g : GatewayState)
      → budget (join_session socket j read g).1
        ≤ budget g
          + (if not (is_running session_id g)
                && is_running session_id (join_session socket j read g).1
              then 1
              else 0)
  unfolding join_session
  joins-budget socket j (err e) g = omega arith
  joins-budget socket j (ok (none, pttl)) g = omega arith
  joins-budget socket j (ok (some d, pttl)) g = elim (Bool-cases (d.user_id == socket.user_id)) [
    | inl e ↦ rw e (ensure-budget j (enter_room j socket g))
    | inr e ↦ rw e (omega arith)
  ]

  -- No step adds more than the timer that it starts.
  step-budget : (s : GatewayStep) (g : GatewayState) → budget (step s g) ≤ budget g + started_by s g
  unfolding step answer_late
  step-budget (fires j read) g = omega (arith, fires-budget j read g)
  step-budget (late place read) g =
      omega (arith, late-budget place (closure_at place g.closures) read g refl)
  step-budget (expires j) g = omega (arith, clear-budget j (emit (session_expired j) g))
  step-budget (submitted j) g = omega (arith, clear-budget j g)
  step-budget (joins socket j read) g = joins-budget socket j read g

  steps-budget :
      (ss : List GatewayStep) (g : GatewayState)
      → budget (steps ss g) ≤ budget g + timers_started ss g
  steps-budget [] g = omega arith
  steps-budget (s ∷ ss) g = omega (arith, step-budget s g, steps-budget ss (step s g))

-- A threshold is warned of at most once per timer: along any steps, in any order, with callbacks that
-- are answered after their timer is gone, and for any answers of Redis, the warnings of a threshold
-- to a session grow by no more than the timers that were started for it, with one more if a timer was
-- already running, and one for each interval of the session that was cleared before.
pub steps-warnings :
    (session_id : String) (threshold : ℕ) (ss : List GatewayStep) (g : GatewayState)
    → warnings session_id threshold (steps ss g)
      ≤ warnings session_id threshold g
        + timers_started session_id threshold ss g
        + (if is_running session_id g then 1 else 0)
        + count (timer_of session_id) g.closures
steps-warnings session_id threshold ss g =
    let old = late_budget-le session_id threshold g.closures in
    elim (Option-cases (find (timer_of session_id) g.timers)) [
      | inl none_yet ↦ ground (arith, none_yet, old, steps-budget session_id threshold ss g)
      | inr (entry, found) ↦ ground (arith, found, old, steps-budget session_id threshold ss g)
    ]
