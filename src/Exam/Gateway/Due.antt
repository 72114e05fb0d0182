-- ===== src/Exam/Gateway/Due.antt =====
-- The warnings that a tick of src/modules/exam/exam.gateway.ts owes.
use ios_backend.Base.{
  ℕ, suc, ◌≤◌, ◌<◌, true, false, not, ◌&&◌, Option, String, ◌≡◌, refl, sym, ◌∙◌, ap, subst,
  Bool-cases, Option-cases, inl, inr, arith, ltb, leb, nat_eq, Memᴰ, find, ok, eq_refl,
}
use ios_backend.Redis.Client.{ms}
use ios_backend.Exam.Platform.{ExamSessionData}
use ios_backend.Exam.Gateway.{
  GatewayState, timer_of, is_running, warn, tick, announce, emit, fire_interval, has_warned,
  warning_thresholds, ceil_seconds, timer_tick,
}
use ios_backend.Exam.Gateway.Table.{find-update_warned}
use ios_backend.Exam.Gateway.Warnings.{warnings}

module _ (session_id : String) (remaining : ℕ) where
  -- Another threshold leaves this one alone.
  warn_other :
      (threshold t : ℕ) (g : GatewayState)
      → nat_eq t threshold ≡ false
      → (warnings session_id threshold (warn session_id remaining t g)
          ≡ warnings session_id threshold g)
        × (has_warned session_id threshold (warn session_id remaining t g)
            ≡ has_warned session_id threshold g)
  unfolding warn
  warn_other threshold t g other =
      elim (Bool-cases (leb remaining t && not (has_warned session_id t g))) [
        | inr e ↦ rw e (refl, refl)
        | inl e ↦ elim (Option-cases (find (timer_of session_id) g.timers)) [
          | inl idle ↦ rw e (
            ground (arith, other),
            ground (
              arith,
              other,
              idle,
              eq_refl session_id,
              find-update_warned session_id session_id t g.timers,
            ),
          )
          | inr (entry, found) ↦ rw e (
            ground (arith, other),
            ground (
              arith,
              other,
              found,
              eq_refl session_id,
              find-update_warned session_id session_id t g.timers,
            ),
          )
        ]
      ]

  warn_due :
      (threshold : ℕ) (g : GatewayState)
      → remaining ≤ threshold
      → has_warned session_id threshold g ≡ false
      → warnings session_id threshold (warn session_id remaining threshold g)
        ≡ suc (warnings session_id threshold g)
  unfolding warn
  warn_due threshold g due fresh =
      let below : leb remaining threshold ≡ true = ground arith in
      rw (below, fresh) (ground (arith, eq_refl session_id))

  announce_due :
      (threshold : ℕ) (g : GatewayState)
      → Memᴰ threshold warning_thresholds
      → remaining ≤ threshold
      → has_warned session_id threshold g ≡ false
      → warnings session_id threshold (announce session_id remaining g)
        ≡ suc (warnings session_id threshold g)
  announce_due threshold g (Memᴰ.head e) due fresh =
      let g1 = emit (timer_tick session_id remaining) g in
      subst
        (λ t.
          warnings session_id t (announce session_id remaining g) ≡ suc (warnings session_id t g))
        (sym e)
        ((warn_other 600 300 (warn session_id remaining 600 g1) refl).0
          ∙ warn_due 600 g1 (subst (λ t. remaining ≤ t) e due)
              (subst (λ t. has_warned session_id t g ≡ false) e fresh))
  announce_due threshold g (Memᴰ.tail (Memᴰ.head e)) due fresh =
      let g1 = emit (timer_tick session_id remaining) g in
      let other = warn_other 300 600 g1 refl in
      subst
        (λ t.
          warnings session_id t (announce session_id remaining g) ≡ suc (warnings session_id t g))
        (sym e)
        (warn_due 300 (warn session_id remaining 600 g1) (subst (λ t. remaining ≤ t) e due)
            (other.1 ∙ subst (λ t. has_warned session_id t g ≡ false) e fresh)
          ∙ ap suc other.0)
  announce_due threshold g (Memᴰ.tail (Memᴰ.tail m)) due fresh = elim m [ ]

-- No warning is lost: if the timer of a session runs and a threshold has not been warned of, the
-- first tick that finds no more than the threshold left, however much earlier thresholds are
-- skipped, warns of it, once.
pub fire_interval-warns :
    (session_id : String) (threshold n : ℕ) (d : Option ExamSessionData) (g : GatewayState)
    → Memᴰ threshold warning_thresholds
    → 0 < n
    → ceil_seconds n ≤ threshold
    → is_running session_id g ≡ true
    → has_warned session_id threshold g ≡ false
    → warnings session_id threshold (fire_interval session_id (ok (d, ms n)) g)
      ≡ suc (warnings session_id threshold g)
unfolding fire_interval tick
fire_interval-warns session_id threshold n d g m positive due runs fresh =
    let some_left : ltb 0 n ≡ true = ground arith in
    rw (runs, some_left) (announce_due session_id (ceil_seconds n) threshold g m due fresh)
