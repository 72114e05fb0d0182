-- ===== src/Base/Rekeyed.antt =====
-- Writing a key into one row of a table, where no other row has it.
use Prim.Native.String.{String}
use mathlib.Core.Path.{◌≡◌, refl}
use mathlib.Core.Logic.{inl, inr}
use mathlib.Core.Bool.{Bool, true, false, not, ◌&&◌}
use mathlib.Core.Option.{none, some}
use mathlib.Core.List.{List, [], ◌∷◌}
use native.Mathlib.Omega.{arith}
use text.Mathlib.Text.{◌==◌}
use text.Mathlib.TextEquality.{eq_iff}
use ios_backend.Base.Tests.{Bool-cases}
use ios_backend.Base.Lists.{All}
use ios_backend.Base.Rows.{find, count, update, find-All, update_none}
use ios_backend.Base.Unique.{has_key, HasUniqueKeys, All-absent}

module _ {A : Type 0} (key : A → String) where
  -- Whoever has the key passes the test.
  abbrev pub HeldBy : String → (A → Bool) → List A → Type 0
  HeldBy k p xs = All (λ x. (key x == k && not (p x)) ≡ false) xs

  All-held :
      (k : String) (p : A → Bool) (xs : List A) → All (λ x. (key x == k) ≡ false) xs → HeldBy k p xs
  All-held k p [] h = tt
  All-held k p (x ∷ xs) h = (ground (arith, h.0), All-held k p xs h.1)

  -- The key that is found nowhere.
  pub unheld :
      (k : String) (p : A → Bool) (xs : List A) → find (has_key key k) xs ≡ none → HeldBy k p xs
  unheld k p [] h = tt
  unheld k p (x ∷ xs) h = elim (Bool-cases (key x == k)) [
    | inl e ↦ absurd (ground (arith, e))
    | inr e ↦ (ground (arith, e), unheld k p xs (ground (arith, e)))
  ]

  -- With distinct keys, the row that is found is the only one with its key.
  pub sole_holder :
      (k : String) (p q : A → Bool) (xs : List A) (c : A)
      → HasUniqueKeys key xs
      → find q xs ≡ some c
      → (key c == k) ≡ true
      → p c ≡ true
      → HeldBy k p xs
  sole_holder k p q [] c u h same here = tt
  sole_holder k p q (x ∷ xs) c u h same here = elim (Bool-cases (q x)) [
    | inl e ↦
        let first : x ≡ c = ground (arith, e) in
        let id : key x ≡ k = ground (arith, first, same, eq_iff (key c) k) in
        (ground (arith, first, here), All-held k p xs (All-absent key k xs (rw id at u.0)))
    | inr e ↦
        let found : find q xs ≡ some c = ground (arith, e) in
        let apart = find-All _ q xs c found (All-absent key (key x) xs u.0) in
        (
          ground (arith, apart, same, eq_iff (key c) k, eq_iff (key x) k, eq_iff (key c) (key x)),
          sole_holder k p q xs c u.1 found same here,
        )
  ]

  count-update_other :
      (k j : String) (p : A → Bool) (f : A → A) (xs : List A)
      → ((x : A) → (key (f x) == k) ≡ true)
      → (k == j) ≡ false
      → count (has_key key j) xs ≡ 0
      → count (has_key key j) (update p f xs) ≡ 0
  count-update_other k j p f [] h apart none_yet = refl
  count-update_other k j p f (x ∷ xs) h apart none_yet = ground (
    arith,
    h x,
    eq_iff (key (f x)) k,
    eq_iff (key (f x)) j,
    eq_iff k j,
    count-update_other k j p f xs h apart,
  )

  count-held :
      (k : String) (p : A → Bool) (xs : List A)
      → HeldBy k p xs
      → count p xs ≡ 0
      → count (has_key key k) xs ≡ 0
  count-held k p [] h none_here = refl
  count-held k p (x ∷ xs) h none_here = ground (arith, h.0, count-held k p xs h.1)

module _ {A : Type 0} (id key : A → String) where
  -- Giving the row of an id a key that no other row has keeps the keys distinct.
  pub rekeyed-HasUniqueKeys :
      (row_id k : String) (f : A → A) (xs : List A)
      → ((x : A) → (key (f x) == k) ≡ true)
      → HasUniqueKeys id xs
      → HasUniqueKeys key xs
      → HeldBy key k (has_key id row_id) xs
      → HasUniqueKeys key (update (has_key id row_id) f xs)
  rekeyed-HasUniqueKeys row_id k f [] h v u held = tt
  rekeyed-HasUniqueKeys row_id k f (x ∷ xs) h v u held = elim (Bool-cases (id x == row_id)) [
    | inl e ↦
        let own : id x ≡ row_id = ground (arith, e, eq_iff (id x) row_id) in
        let others : count (has_key id row_id) xs ≡ 0 = rw own at v.0 in
        let new : key (f x) ≡ k = ground (arith, h x, eq_iff (key (f x)) k) in
        rw (e, update_none (has_key id row_id) f xs others, new)
          (count-held key k (has_key id row_id) xs held.1 others, u.1)
    | inr e ↦
        let apart : (k == key x) ≡ false =
          ground (arith, e, held.0, eq_iff k (key x), eq_iff (key x) k) in
        rw e (
          count-update_other key k (key x) (has_key id row_id) f xs h apart u.0,
          rekeyed-HasUniqueKeys row_id k f xs h v.1 u.1 held.1,
        )
  ]
