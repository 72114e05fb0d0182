-- ===== src/Catalog/Listing/Keyset.antt =====
-- Pages of a sorted list by the last row that was seen, for any strict order: filtering and sorting
-- commute, and the rows past one row of a sorted list are those that follow it.
use ios_backend.Base.{
  ℕ, suc, zero, ◌<◌, ◌≤◌, Bool, true, false, ◌||◌, ◌&&◌, some, List, [], ◌∷◌, ◌++◌, ◌≡◌, refl,
  Bool-cases, inl, inr, arith, All, select, insert_by, sort_by, All-select, All-insert_by, length,
  take, last_of, ap, if◌then◌else◌,
}

pub All-middle :
    {A : Type 0} (P : A → Type 0) (xs : List A) (x : A) (ys : List A) → All P (xs ++ x ∷ ys) → P x
All-middle P [] x ys h = h.0
All-middle P (z ∷ zs) x ys h = All-middle P zs x ys h.1

pub select_all :
    {A : Type 0} (p : A → Bool) (xs : List A) → All (λ y. p y ≡ true) xs → select p xs ≡ xs
select_all p [] h = refl
select_all p (x ∷ xs) h = rw (h.0, select_all p xs h.1) refl

module _ {A : Type 0} (lt : A → A → Bool) where
  -- Each row stands before all that follow it.
  abbrev pub IsSorted : List A → Type 0
  IsSorted [] = Unit
  IsSorted (x ∷ xs) = All (λ y. lt x y ≡ true) xs × IsSorted xs

  -- Any two rows stand in the one order or the other.
  abbrev pub IsLinear : List A → Type 0
  IsLinear [] = Unit
  IsLinear (x ∷ xs) = All (λ y. (lt x y || lt y x) ≡ true) xs × IsLinear xs

  pub select-IsLinear : (p : A → Bool) (xs : List A) → IsLinear xs → IsLinear (select p xs)
  select-IsLinear p [] h = tt
  select-IsLinear p (x ∷ xs) h = elim (Bool-cases (p x)) [
    | inl e ↦ rw e (All-select (λ y. (lt x y || lt y x) ≡ true) p xs h.0, select-IsLinear p xs h.1)
    | inr e ↦ rw e (select-IsLinear p xs h.1)
  ]

  insert_first : (x : A) (xs : List A) → All (λ y. lt x y ≡ true) xs → insert_by lt x xs ≡ x ∷ xs
  insert_first x [] h = refl
  insert_first x (y ∷ ys) h = rw h.0 refl

  module _ (lt_trans : (x y z : A) → lt x y ≡ true → lt y z ≡ true → lt x z ≡ true) where
    All-lt_trans :
        (x y : A) (xs : List A)
        → lt x y ≡ true
        → All (λ z. lt y z ≡ true) xs
        → All (λ z. lt x z ≡ true) xs
    All-lt_trans x y [] h hs = tt
    All-lt_trans x y (z ∷ zs) h hs = (lt_trans x y z h hs.0, All-lt_trans x y zs h hs.1)

    select-insert_by :
        (p : A → Bool) (x : A) (xs : List A)
        → IsSorted xs
        → select p (insert_by lt x xs) ≡ (if p x then insert_by lt x (select p xs) else select p xs)
    select-insert_by p x [] h = ground arith
    select-insert_by p x (y ∷ ys) h = elim (Bool-cases (lt x y)) [
      | inl e ↦
          let first =
            insert_first x (select p (y ∷ ys))
              (All-select (λ z. lt x z ≡ true) p (y ∷ ys) (e, All-lt_trans x y ys e h.0)) in
          rw (e, first) refl
      | inr e ↦ elim (Bool-cases (p y)) [
        | inl q ↦ ground (arith, select-insert_by p x ys h.1)
        | inr q ↦ ground (arith, select-insert_by p x ys h.1)
      ]
    ]

    insert_by-IsSorted :
        (x : A) (xs : List A)
        → All (λ y. (lt x y || lt y x) ≡ true) xs
        → IsSorted xs
        → IsSorted (insert_by lt x xs)
    insert_by-IsSorted x [] l h = (tt, tt)
    insert_by-IsSorted x (y ∷ ys) l h = elim (Bool-cases (lt x y)) [
      | inl e ↦ rw e ((e, All-lt_trans x y ys e h.0), h)
      | inr e ↦ rw e (
        All-insert_by (λ z. lt y z ≡ true) lt x ys (ground (arith, l.0)) h.0,
        insert_by-IsSorted x ys l.1 h.1,
      )
    ]

    All-sort_by_lt : (P : A → Type 0) (xs : List A) → All P xs → All P (sort_by lt xs)
    All-sort_by_lt P [] h = tt
    All-sort_by_lt P (x ∷ xs) h = All-insert_by P lt x (sort_by lt xs) h.0 (All-sort_by_lt P xs h.1)

    pub sort_by-IsSorted : (xs : List A) → IsLinear xs → IsSorted (sort_by lt xs)
    sort_by-IsSorted [] l = tt
    sort_by-IsSorted (x ∷ xs) l =
        insert_by-IsSorted x (sort_by lt xs) (All-sort_by_lt _ xs l.0) (sort_by-IsSorted xs l.1)

    -- Filtering and sorting commute.
    pub select-sort_by :
        (p : A → Bool) (xs : List A)
        → IsLinear xs
        → select p (sort_by lt xs) ≡ sort_by lt (select p xs)
    select-sort_by p [] l = refl
    select-sort_by p (x ∷ xs) l = elim (Bool-cases (p x)) [
      | inl e ↦
          rw
            (
              select-insert_by p x (sort_by lt xs) (sort_by-IsSorted xs l.1),
              e,
              select-sort_by p xs l.1,
            )
            refl
      | inr e ↦
          rw
            (
              select-insert_by p x (sort_by lt xs) (sort_by-IsSorted xs l.1),
              e,
              select-sort_by p xs l.1,
            )
            refl
    ]

    module _ (lt_irrefl : (x : A) → lt x x ≡ false) where
      lt_asym : (x y : A) → lt x y ≡ true → lt y x ≡ false
      lt_asym x y h = elim (Bool-cases (lt y x)) [
        | inl e ↦ ground (arith, lt_trans x y x h e, lt_irrefl x)
        | inr e ↦ e
      ]

      -- In a sorted list, the rows past one row are those that follow it.
      pub select_past :
          (xs : List A) (x : A) (ys : List A)
          → IsSorted (xs ++ x ∷ ys)
          → select (lt x) (xs ++ x ∷ ys) ≡ ys
      select_past [] x ys h = rw (lt_irrefl x, select_all (lt x) ys h.0) refl
      select_past (z ∷ zs) x ys h =
          let before = All-middle (λ y. lt z y ≡ true) zs x ys h.0 in
          rw (lt_asym z x before, select_past zs x ys h.1) refl

module _ {A : Type 0} where
  pub select-select :
      (p q : A → Bool) (xs : List A) → select (λ x. p x && q x) xs ≡ select p (select q xs)
  select-select p q [] = refl
  select-select p q (x ∷ xs) = ground (arith, select-select p q xs)

  pub take_all : (n : ℕ) (xs : List A) → length xs ≤ n → take n xs ≡ xs
  take_all zero [] h = refl
  take_all zero (x ∷ xs) h = absurd (omega arith)
  take_all (suc n) [] h = refl
  take_all (suc n) (x ∷ xs) h = ap (λ zs. x ∷ zs) (take_all n xs (omega arith))

  pub take-take : (n : ℕ) (xs : List A) → take n (take (suc n) xs) ≡ take n xs
  take-take zero xs = refl
  take-take (suc n) [] = refl
  take-take (suc n) (x ∷ xs) = ap (λ zs. x ∷ zs) (take-take n xs)

  pub length-take : (n : ℕ) (xs : List A) → n ≤ length xs → length (take n xs) ≡ n
  length-take zero xs h = refl
  length-take (suc n) [] h = omega arith
  length-take (suc n) (x ∷ xs) h = ap suc (length-take n xs (omega arith))

  pub last-append : (xs : List A) (x : A) → last_of (xs ++ x ∷ []) ≡ some x
  last-append [] x = refl
  last-append (y ∷ []) x = refl
  last-append (y ∷ z ∷ zs) x = last-append (z ∷ zs) x

  -- A page that does not reach the end: its last row, and what follows.
  abbrev pub Turn : ℕ → List A → Type 0
  Turn n xs =
      (begin : List A) × (x : A) × (rest : List A) × (xs ≡ begin ++ x ∷ rest)
      × (take n xs ≡ begin ++ x ∷ [])
      × (length rest < length xs)

  pub take-Turn : (n : ℕ) (xs : List A) → 0 < n → n < length xs → Turn n xs
  take-Turn n [] pos h = absurd (omega arith)
  take-Turn zero (x ∷ xs) pos h = absurd (omega arith)
  take-Turn (suc zero) (x ∷ xs) pos h = ([], x, xs, refl, refl, omega arith)
  take-Turn (suc (suc n)) (x ∷ xs) pos h =
      let (begin, y, rest, whole, page, less) = take-Turn (suc n) xs (omega arith) (omega arith) in
      (x ∷ begin, y, rest, ap (λ zs. x ∷ zs) whole, ap (λ zs. x ∷ zs) page, omega (arith, less))
