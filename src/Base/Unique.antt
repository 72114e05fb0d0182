-- ===== src/Base/Unique.antt =====
-- Rows with distinct keys, such as the ids of a table.
use Prim.Native.String.{String}
use mathlib.Core.Path.{◌≡◌, refl}
use mathlib.Core.Bool.{Bool, false, ◌&&◌}
use mathlib.Core.List.{List, [], ◌∷◌}
use native.Mathlib.Omega.{arith}
use text.Mathlib.Text.{◌==◌}
use text.Mathlib.TextEquality.{eq_iff}
use ios_backend.Base.Lists.{All}
use ios_backend.Base.Rows.{count, update}

module _ {A : Type 0} (key : A → String) where
  abbrev pub has_key : String → A → Bool
  has_key k x = key x == k

  -- No two rows have the same key.
  abbrev pub HasUniqueKeys : List A → Type 0
  HasUniqueKeys [] = Unit
  HasUniqueKeys (x ∷ xs) = (count (has_key (key x)) xs ≡ 0) × HasUniqueKeys xs

  count-update_key :
      (p : A → Bool) (f : A → A) (k : String) (xs : List A)
      → ((x : A) → key (f x) ≡ key x)
      → count (has_key k) (update p f xs) ≡ count (has_key k) xs
  count-update_key p f k [] h = refl
  count-update_key p f k (x ∷ xs) h =
      ground (arith, h x, eq_iff (key x) k, eq_iff (key (f x)) k, count-update_key p f k xs h)

  -- An update that leaves the keys alone keeps them distinct.
  pub update-HasUniqueKeys :
      (p : A → Bool) (f : A → A) (xs : List A)
      → ((x : A) → key (f x) ≡ key x)
      → HasUniqueKeys xs
      → HasUniqueKeys (update p f xs)
  update-HasUniqueKeys p f [] h u = tt
  update-HasUniqueKeys p f (x ∷ xs) h u =
      ground (arith, h x, count-update_key p f (key x) xs h, update-HasUniqueKeys p f xs h u.1)

  -- Where no row has the key, each row's key is another one.
  pub All-absent :
      (k : String) (xs : List A) → count (has_key k) xs ≡ 0 → All (λ x. (key x == k) ≡ false) xs
  All-absent k [] h = tt
  All-absent k (x ∷ xs) h = ground (arith, All-absent k xs)

  -- A test that a row's key decides fails wherever the key is absent.
  pub count_absent :
      (k : String) (p : A → Bool) (xs : List A)
      → count (has_key k) xs ≡ 0
      → count (λ x. key x == k && p x) xs ≡ 0
  count_absent k p [] h = refl
  count_absent k p (x ∷ xs) h = ground (arith, count_absent k p xs)

  -- With distinct keys, a test that fails at one row fails at all rows of its key.
  pub All-alone :
      (p : A → Bool) (xs : List A)
      → HasUniqueKeys xs
      → All (λ x. p x ≡ false → count (λ y. key y == key x && p y) xs ≡ 0) xs
  All-alone p [] u = tt
  All-alone p (x ∷ xs) u = (
    (λ e. ground (arith, count_absent (key x) p xs u.0)),
    extend xs (All-alone p xs u.1) (All-absent (key x) xs u.0),
  )
    where
      extend :
          (ys : List A)
          → All (λ y. p y ≡ false → count (λ z. key z == key y && p z) xs ≡ 0) ys
          → All (λ y. (key y == key x) ≡ false) ys
          → All (λ y. p y ≡ false → count (λ z. key z == key y && p z) (x ∷ xs) ≡ 0) ys
      extend [] h d = tt
      extend (y ∷ ys) h d = (
        (λ e. ground (arith, h.0 e, eq_iff (key y) (key x), eq_iff (key x) (key y))),
        extend ys h.1 d.1,
      )
