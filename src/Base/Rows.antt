-- ===== src/Base/Rows.antt =====
-- A table as the list of its rows, and what the repositories do to it: `select` is
-- `find({ where })`, `find` is `findOne({ where })`, `update` and `delete` are the conditional
-- writes, whose `affected` is the `count` of the rows that match.
use Prim.Native.Nat.{ℕ, suc, ◌+◌}
use mathlib.Core.Path.{◌≡◌, refl, subst, ap}
use mathlib.Core.Logic.{inl, inr}
use mathlib.Core.Bool.{Bool, true, false}
use mathlib.Core.Option.{Option, none, some}
use mathlib.Core.List.{List, [], ◌∷◌, ◌++◌}
use native.Mathlib.Omega.{arith}
use ios_backend.Base.Tests.{if◌then◌else◌, Bool-cases}
use ios_backend.Base.Lists.{All}

module _ {ℓ} {A : Type ℓ} where
  abbrev pub find : (A → Bool) → List A → Option A
  find p [] = none
  find p (x ∷ xs) = if p x then some x else find p xs

  abbrev pub select : (A → Bool) → List A → List A
  select p [] = []
  select p (x ∷ xs) = if p x then x ∷ select p xs else select p xs

  abbrev pub count : (A → Bool) → List A → ℕ
  count p [] = 0
  count p (x ∷ xs) = if p x then suc (count p xs) else count p xs

  abbrev pub update : (A → Bool) → (A → A) → List A → List A
  update p f [] = []
  update p f (x ∷ xs) = (if p x then f x else x) ∷ update p f xs

  abbrev pub delete : (A → Bool) → List A → List A
  delete p [] = []
  delete p (x ∷ xs) = if p x then delete p xs else x ∷ delete p xs

  pub find_holds : (p : A → Bool) (xs : List A) (x : A) → find p xs ≡ some x → p x ≡ true
  find_holds p [] x h = cc
  find_holds p (y ∷ ys) x h = elim (Bool-cases (p y)) [
    | inl e ↦ ground arith
    | inr e ↦ find_holds p ys x (ground arith)
  ]

  pub find-All {κ} :
      (P : A → Type κ) (p : A → Bool) (xs : List A) (x : A) → find p xs ≡ some x → All P xs → P x
  find-All P p [] x h a = absurd (cc)
  find-All P p (y ∷ ys) x h (here, there) = elim (Bool-cases (p y)) [
    | inl e ↦ let same : y ≡ x = ground arith in subst P same here
    | inr e ↦ find-All P p ys x (ground arith) there
  ]

  -- The row that is found, after an update of the rows that the same test picks.
  pub find-update :
      (p : A → Bool) (f : A → A) (xs : List A) (c : A)
      → ((x : A) → p (f x) ≡ p x)
      → find p xs ≡ some c
      → find p (update p f xs) ≡ some (f c)
  find-update p f [] c same h = absurd (cc)
  find-update p f (x ∷ xs) c same h = elim (Bool-cases (p x)) [
    | inl e ↦
        let first : x ≡ c = ground (arith, e) in
        let still : p (f x) ≡ true = ground (arith, e, same x) in
        rw (e, still) (ap (λ y. some (f y)) first)
    | inr e ↦ rw (e, e) (find-update p f xs c same (ground (arith, e)))
  ]

  -- An update that no row matches changes nothing.
  pub update_none : (p : A → Bool) (f : A → A) (xs : List A) → count p xs ≡ 0 → update p f xs ≡ xs
  update_none p f [] h = refl
  update_none p f (x ∷ xs) h = ground (arith, update_none p f xs)

  pub delete_none : (p : A → Bool) (xs : List A) → count p xs ≡ 0 → delete p xs ≡ xs
  delete_none p [] h = refl
  delete_none p (x ∷ xs) h = ground (arith, delete_none p xs)

  pub count-update :
      (p q : A → Bool) (f : A → A) (xs : List A)
      → ((x : A) → q (f x) ≡ q x)
      → count q (update p f xs) ≡ count q xs
  count-update p q f [] h = refl
  count-update p q f (x ∷ xs) h = ground (arith, h x, count-update p q f xs h)

  pub count-append : (p : A → Bool) (xs ys : List A) → count p (xs ++ ys) ≡ count p xs + count p ys
  count-append p [] ys = omega arith
  count-append p (x ∷ xs) ys = ground (arith, count-append p xs ys)

  -- An update that turns matching rows, all outside `q`, into rows of `q` adds their number.
  pub count-update_into :
      (p q : A → Bool) (f : A → A) (xs : List A)
      → ((x : A) → p x ≡ true → q x ≡ false)
      → ((x : A) → q (f x) ≡ true)
      → count q (update p f xs) ≡ count q xs + count p xs
  count-update_into p q f [] out into = omega arith
  count-update_into p q f (x ∷ xs) out into =
      ground (arith, out x, into x, count-update_into p q f xs out into)

  pub All-select {κ} :
      (P : A → Type κ) (p : A → Bool) (xs : List A) → All P xs → All P (select p xs)
  All-select P p [] h = tt
  All-select P p (x ∷ xs) h = ground (arith, All-select P p xs h.1)

  pub select_holds : (p : A → Bool) (xs : List A) → All (λ x. p x ≡ true) (select p xs)
  select_holds p [] = tt
  select_holds p (x ∷ xs) = elim (Bool-cases (p x)) [
    | inl e ↦ rw e (e, select_holds p xs)
    | inr e ↦ rw e (select_holds p xs)
  ]

  pub All-update {κ} :
      (P : A → Type κ) (p : A → Bool) (f : A → A) (xs : List A)
      → ((x : A) → p x ≡ true → P x → P (f x))
      → All P xs
      → All P (update p f xs)
  All-update P p f [] k h = tt
  All-update P p f (x ∷ xs) k h = elim (Bool-cases (p x)) [
    | inl e ↦ rw e (k x e h.0, All-update P p f xs k h.1)
    | inr e ↦ rw e (h.0, All-update P p f xs k h.1)
  ]

  -- What holds of each row that passes a test holds of all the selected rows.
  pub All-select_if {κ} :
      (P : A → Type κ) (p : A → Bool) (xs : List A)
      → All (λ x. p x ≡ true → P x) xs
      → All P (select p xs)
  All-select_if P p [] h = tt
  All-select_if P p (x ∷ xs) h = elim (Bool-cases (p x)) [
    | inl e ↦ rw e (h.0 e, All-select_if P p xs h.1)
    | inr e ↦ rw e (All-select_if P p xs h.1)
  ]
