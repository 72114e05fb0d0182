-- ===== src/Examples/Rounding.antt =====
-- A rounding as `Rounding` describes it: the quotient to the nearest hundredth, a tie upwards.
use native.Mathlib.Nat.{
  mul-div-le, lt-mul-div-succ, div-mul-le_self, le-div_iff_mul-le, div-eq_of_lt-le,
}
use ios_backend.Base.{
  ℕ, ◌+◌, ◌*◌, ◌/◌, ◌≤◌, ◌<◌, ◌≡◌, Bool-cases, ltb, inl, inr, if◌then◌else◌, arith,
}
use ios_backend.Exam.Platform.{Rounding}

unfoldable pub nearest : ℕ → ℕ → ℕ
nearest earned total = if ltb 0 total then (earned * 20000 + total) / (2 * total) else 0

pub nearest_mono : (a b total : ℕ) → a ≤ b → nearest a total ≤ nearest b total
unfolding nearest
nearest_mono a b total h = elim (Bool-cases (ltb 0 total)) [
  | inl e ↦
      let positive : 0 < 2 * total = ground arith in
      rw e (
        (le-div_iff_mul-le positive).1
          (omega (arith, div-mul-le_self (a * 20000 + total) (2 * total))))
  | inr e ↦ rw e (omega arith)
]

pub nearest_all : (total : ℕ) → 0 < total → nearest total total ≡ 10000
unfolding nearest
nearest_all total h =
    let e : (total * 20000 + total) / (2 * total) ≡ 10000 =
      div-eq_of_lt-le {k = 10000} (2 * total) (omega arith) (omega arith) in
    ground arith

pub nearest_lem :
    (earned total : ℕ)
    → 0 < total
    → earned ≤ total
    → total ≤ 100000000000
    → (2 * total * nearest earned total ≤ earned * 20000 + total)
      × (earned * 20000 ≤ 2 * total * nearest earned total + total)
unfolding nearest
nearest_lem earned total h part small = ground (
  arith,
  mul-div-le (earned * 20000 + total) (2 * total),
  lt-mul-div-succ (earned * 20000 + total) {b = 2 * total},
)

abbrev pub rounding : Rounding
rounding = record {
  round = nearest;
  round_mono = nearest_mono;
  round_all = nearest_all;
  round_nearest = nearest_lem;
}
