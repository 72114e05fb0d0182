-- ===== src/Base/Sorting.antt =====
-- `order: { key: 'ASC' }` and `'DESC'`: a stable insertion sort by a numeric key.
use Prim.Native.Nat.{ℕ, ◌≤◌}
use mathlib.Core.Logic.{inl, inr}
use mathlib.Core.Bool.{Bool}
use mathlib.Core.List.{List, [], ◌∷◌}
use native.Mathlib.Omega.{arith}
use ios_backend.Base.Tests.{leb, leb→le, if◌then◌else◌, Bool-cases}
use ios_backend.Base.Lists.{All}

module _ {ℓ} {A : Type ℓ} where
  -- `before x y` says that `x` may stand before `y`.
  abbrev pub insert_by : (A → A → Bool) → A → List A → List A
  insert_by before x [] = x ∷ []
  insert_by before x (y ∷ ys) = if before x y then x ∷ y ∷ ys else y ∷ insert_by before x ys

  abbrev pub sort_by : (A → A → Bool) → List A → List A
  sort_by before [] = []
  sort_by before (x ∷ xs) = insert_by before x (sort_by before xs)

  abbrev pub ascending : (A → ℕ) → A → A → Bool
  ascending key x y = leb (key x) (key y)

  abbrev pub descending : (A → ℕ) → A → A → Bool
  descending key x y = leb (key y) (key x)

  pub All-insert_by {κ} :
      (P : A → Type κ) (before : A → A → Bool) (x : A) (xs : List A)
      → P x
      → All P xs
      → All P (insert_by before x xs)
  All-insert_by P before x [] h hs = (h, tt)
  All-insert_by P before x (y ∷ ys) h hs = elim (Bool-cases (before x y)) [
    | inl e ↦ rw e (h, hs)
    | inr e ↦ rw e (hs.0, All-insert_by P before x ys h hs.1)
  ]

  pub All-sort_by {κ} :
      (P : A → Type κ) (before : A → A → Bool) (xs : List A) → All P xs → All P (sort_by before xs)
  All-sort_by P before [] h = tt
  All-sort_by P before (x ∷ xs) h =
      All-insert_by P before x (sort_by before xs) h.0 (All-sort_by P before xs h.1)

  All-insert_by_inv {κ} :
      (P : A → Type κ) (before : A → A → Bool) (x : A) (xs : List A)
      → All P (insert_by before x xs)
      → P x × All P xs
  All-insert_by_inv P before x [] h = h
  All-insert_by_inv P before x (y ∷ ys) h = elim (Bool-cases (before x y)) [
    | inl e ↦ let k : All P (x ∷ y ∷ ys) = rw e at h in k
    | inr e ↦
        let k : All P (y ∷ insert_by before x ys) = rw e at h in
        let (here, there) = All-insert_by_inv P before x ys k.1 in (here, (k.0, there))
  ]

  -- What holds of every row after the sort held before it: none is lost.
  pub All-sort_by_inv {κ} :
      (P : A → Type κ) (before : A → A → Bool) (xs : List A) → All P (sort_by before xs) → All P xs
  All-sort_by_inv P before [] h = tt
  All-sort_by_inv P before (x ∷ xs) h =
      let (here, there) = All-insert_by_inv P before x (sort_by before xs) h in
      (here, All-sort_by_inv P before xs there)

  module _ (key : A → ℕ) where
    abbrev pub IsAscending : List A → Type 0
    IsAscending [] = Unit
    IsAscending (x ∷ xs) = All (λ y. key x ≤ key y) xs × IsAscending xs

    All-le_trans :
        (x y : A) (xs : List A)
        → key x ≤ key y
        → All (λ z. key y ≤ key z) xs
        → All (λ z. key x ≤ key z) xs
    All-le_trans x y [] h hs = tt
    All-le_trans x y (z ∷ zs) h hs = (omega arith, All-le_trans x y zs h hs.1)

    insert_by-IsAscending :
        (x : A) (xs : List A) → IsAscending xs → IsAscending (insert_by (ascending key) x xs)
    insert_by-IsAscending x [] h = (tt, tt)
    insert_by-IsAscending x (y ∷ ys) h = elim (Bool-cases (ascending key x y)) [
      | inl e ↦
          rw e ((leb→le (key x) (key y) e, All-le_trans x y ys (leb→le (key x) (key y) e) h.0), h)
      | inr e ↦ rw e (
        All-insert_by (λ z. key y ≤ key z) (ascending key) x ys (ground arith) h.0,
        insert_by-IsAscending x ys h.1,
      )
    ]

    pub sort_by-IsAscending : (xs : List A) → IsAscending (sort_by (ascending key) xs)
    sort_by-IsAscending [] = tt
    sort_by-IsAscending (x ∷ xs) = insert_by-IsAscending x _ (sort_by-IsAscending xs)
