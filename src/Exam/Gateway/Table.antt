-- ===== src/Exam/Gateway/Table.antt =====
-- The timer of a session after another has changed or gone, in the table of the gateway of
-- src/modules/exam/exam.gateway.ts.
use ios_backend.Base.{
  ℕ, not, ◌&&◌, Option, none, some, String, ◌==◌, List, [], ◌∷◌, ◌≡◌, refl, Bool-cases, inl, inr,
  arith, leb, if◌then◌else◌, find, update, delete, is_some, eq_iff,
}
use ios_backend.Exam.Gateway.{
  GatewayState, TimerEntry, timer_of, is_running, warn, add_warned, has_warned,
}

abbrev pub add_to : ℕ → Option TimerEntry → Option TimerEntry
add_to threshold none = none
add_to threshold (some t) = some (add_warned threshold t)

pub find-delete :
    (k j : String) (ts : List TimerEntry)
    → find (timer_of k) (delete (timer_of j) ts) ≡ (if j == k then none else find (timer_of k) ts)
find-delete k j [] = ground arith
find-delete k j (t ∷ ts) =
    ground (arith, eq_iff t.session_id j, eq_iff t.session_id k, eq_iff j k, find-delete k j ts)

pub find-update_warned :
    (k j : String) (threshold : ℕ) (ts : List TimerEntry)
    → find (timer_of k) (update (timer_of j) (add_warned threshold) ts)
      ≡ (if j == k then add_to threshold (find (timer_of k) ts) else find (timer_of k) ts)
find-update_warned k j threshold [] = ground arith
find-update_warned k j threshold (t ∷ ts) = ground (
  arith,
  eq_iff t.session_id j,
  eq_iff t.session_id k,
  eq_iff j k,
  find-update_warned k j threshold ts,
)

is_some-add_to : (threshold : ℕ) (o : Option TimerEntry) → is_some (add_to threshold o) ≡ is_some o
is_some-add_to threshold none = refl
is_some-add_to threshold (some t) = refl

-- A warning stops no timer.
pub is_running-warn :
    (k j : String) (remaining threshold : ℕ) (g : GatewayState)
    → is_running k (warn j remaining threshold g) ≡ is_running k g
unfolding warn
is_running-warn k j remaining threshold g =
    elim (Bool-cases (leb remaining threshold && not (has_warned j threshold g))) [
      | inl e ↦ rw e (
          ground (
            arith,
            find-update_warned k j threshold g.timers,
            is_some-add_to threshold (find (timer_of k) g.timers),
          ))
      | inr e ↦ rw e refl
    ]
