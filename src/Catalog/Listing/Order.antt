-- ===== src/Catalog/Listing/Order.antt =====
-- The order of the list of src/modules/catalog/catalog.service.ts, creation time and then id, is a
-- strict order of rows with distinct ids.
use ios_backend.Base.{
  ℕ, true, false, ◌||◌, String, ◌==◌, List, [], ◌∷◌, ◌≡◌, Bool-cases, inl, inr, arith, All, count,
  HasUniqueKeys,
}
use ios_backend.Catalog.Types.{Cert, CatalogPlatform, SortOrder, newest_first, oldest_first}
use ios_backend.Catalog.Listing.{pair_before, in_order}
use ios_backend.Catalog.Listing.Keyset.{IsLinear}

module _ (env : CatalogPlatform) where
  pair_before_trans :
      (t : ℕ) (a : String) (u : ℕ) (b : String) (v : ℕ) (c : String)
      → pair_before env t a u b ≡ true
      → pair_before env u b v c ≡ true
      → pair_before env t a v c ≡ true
  pair_before_trans t a u b v c h k = ground (arith, env.id_before_trans a b c)

  pub in_order_trans :
      (order : SortOrder) (x y z : Cert)
      → in_order env order x y ≡ true
      → in_order env order y z ≡ true
      → in_order env order x z ≡ true
  in_order_trans newest_first x y z h k =
      pair_before_trans z.created_at z.id y.created_at y.id x.created_at x.id k h
  in_order_trans oldest_first x y z h k =
      pair_before_trans x.created_at x.id y.created_at y.id z.created_at z.id h k

  pub in_order_irrefl : (order : SortOrder) (x : Cert) → in_order env order x x ≡ false
  in_order_irrefl newest_first x = ground (arith, env.id_before_irrefl x.id)
  in_order_irrefl oldest_first x = ground (arith, env.id_before_irrefl x.id)

  in_order_total :
      (order : SortOrder) (x y : Cert)
      → (y.id == x.id) ≡ false
      → (in_order env order x y || in_order env order y x) ≡ true
  in_order_total newest_first x y h = ground (arith, env.id_before_total y.id x.id h)
  in_order_total oldest_first x y h = ground (arith, env.id_before_total y.id x.id h)

  All-in_order_total :
      (order : SortOrder) (x : Cert) (rows : List Cert)
      → count (λ y. y.id == x.id) rows ≡ 0
      → All (λ y. (in_order env order x y || in_order env order y x) ≡ true) rows
  All-in_order_total order x [] h = tt
  All-in_order_total order x (y ∷ ys) h = elim (Bool-cases (y.id == x.id)) [
    | inl e ↦ absurd (ground (arith, e))
    | inr e ↦ (in_order_total order x y e, All-in_order_total order x ys (ground (arith, e)))
  ]

  pub in_order-IsLinear :
      (order : SortOrder) (rows : List Cert)
      → HasUniqueKeys (λ c. c.id) rows
      → IsLinear (in_order env order) rows
  in_order-IsLinear order [] u = tt
  in_order-IsLinear order (x ∷ xs) u =
      (All-in_order_total order x xs u.0, in_order-IsLinear order xs u.1)
