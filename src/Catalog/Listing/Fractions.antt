-- ===== src/Catalog/Listing/Fractions.antt =====
-- Creation times that are no whole milliseconds, which Postgres keeps and a cursor of
-- src/modules/catalog/catalog.service.ts drops.
use ios_backend.Base.{
  ℕ, zero, suc, Bool-cases, Option-cases, inl, inr, All-sort_by_inv, ◌*◌, ◌<◌, Bool, true, false,
  Option, some, String, ◌==◌, List, [], ◌∷◌, ◌≡◌, refl, sym, ap, subst, ◌∙◌, arith, All, All-map,
  select, sort_by, HasUniqueKeys, bind_ok, bind_err, pure, ok, err, failure,
}
use ios_backend.Common.I18n.{non_empty}
use ios_backend.Catalog.Types.{Cert, CatalogQuery, Cursor, oldest_first, CatalogPlatform}
use ios_backend.Catalog.Rows.{item_of, catalog_locale, millis_of}
use ios_backend.Catalog.Listing.{
  list_certificates, in_order, is_past, is_wanted, is_selected, sort_of, cursor_position,
  encode_cursor, decode_cursor,
}
use ios_backend.Catalog.Listing.Keyset.{IsSorted, select-IsLinear, sort_by-IsSorted}
use ios_backend.Catalog.Listing.Order.{in_order_trans, in_order-IsLinear}
use ios_backend.Catalog.Listing.Paging.{wanted_rows, read_all, with_rest, list_lem, page_turn}

module _ (env : CatalogPlatform) where
  truncated_position :
      (x : Cert) (s : List Cert)
      → (x.id == "") ≡ false
      → cursor_position env (non_empty (some (encode_cursor env x))) s
        ≡ (ok (some (millis_of x.created_at * 1000, x.id)), s)
  unfolding decode_cursor
  truncated_position x s named =
      let c : Cursor = record { ts = env.iso_text (millis_of x.created_at); id = x.id } in
      ground (
        arith,
        named,
        env.write_cursor_full c,
        env.read-write_cursor c,
        env.timestamp-iso_text (millis_of x.created_at),
        env.iso_text_full (millis_of x.created_at),
      )

  -- Every row from `x` on is past the truncated time of `x`.
  past_truncated :
      (x : Cert) (rest : List Cert)
      → millis_of x.created_at * 1000 < x.created_at
      → IsSorted (in_order env oldest_first) (x ∷ rest)
      → All
          (λ c. is_past env oldest_first (some (millis_of x.created_at * 1000, x.id)) c ≡ true)
          (x ∷ rest)
  past_truncated x rest part h = (
    ground arith,
    All-map (λ c. in_order env oldest_first x c ≡ true) _ rest (λ c k. ground arith) h.0,
  )

  -- A row past the place is selected there if it is wanted, and no other row ever is.
  selected_past :
      (query : CatalogQuery) (admin_view : Bool) (position : Option (ℕ × String)) (c : Cert)
      → is_past env (sort_of query) position c ≡ true
      → is_selected env query admin_view position c ≡ is_wanted env query admin_view c
  selected_past query admin_view position c past = elim (Option-cases (non_empty query.search)) [
    | inl e ↦ rw (e, past) refl
    | inr (w, e) ↦ rw (e, past) refl
  ]

  selected_unwanted :
      (query : CatalogQuery) (admin_view : Bool) (position : Option (ℕ × String)) (c : Cert)
      → is_wanted env query admin_view c ≡ false
      → is_selected env query admin_view position c ≡ false
  selected_unwanted query admin_view position c h = elim (Option-cases (non_empty query.search)) [
    | inl e ↦ ground (arith, e, h)
    | inr (w, e) ↦ ground (arith, e, h)
  ]

  -- Where every wanted row is past a place, the place makes no difference.
  select_selected :
      (query : CatalogQuery) (admin_view : Bool) (position : Option (ℕ × String)) (s : List Cert)
      → All
          (λ c. is_past env (sort_of query) position c ≡ true)
          (select (is_wanted env query admin_view) s)
      → select (is_selected env query admin_view position) s
        ≡ select (is_wanted env query admin_view) s
  select_selected query admin_view position [] h = refl
  select_selected query admin_view position (c ∷ cs) h =
      elim (Bool-cases (is_wanted env query admin_view c)) [
        | inl e ↦
            let k : All (λ c. is_past env (sort_of query) position c ≡ true)
                (c ∷ select (is_wanted env query admin_view) cs) =
              rw e at h in
            rw (selected_past query admin_view position c k.0, e)
              (ap (λ cs. c ∷ cs) (select_selected query admin_view position cs k.1))
        | inr e ↦
            let k : All (λ c. is_past env (sort_of query) position c ≡ true)
                (select (is_wanted env query admin_view) cs) =
              rw e at h in
            rw (selected_unwanted query admin_view position c e, e)
              (select_selected query admin_view position cs k)
      ]

  -- The page after the cursor of the first row starts at that row again.
  rows_again :
      (query : CatalogQuery) (admin_view : Bool) (x : Cert) (rest s : List Cert)
      → sort_of query ≡ oldest_first
      → HasUniqueKeys (λ c. c.id) s
      → millis_of x.created_at * 1000 < x.created_at
      → sort_by (in_order env oldest_first) (select (is_wanted env query admin_view) s) ≡ x ∷ rest
      → sort_by
          (in_order env oldest_first)
          (select (is_selected env query admin_view (some (millis_of x.created_at * 1000, x.id))) s)
        ≡ x ∷ rest
  rows_again query admin_view x rest s old u part whole =
      let lt = in_order env oldest_first in
      let wanted = is_wanted env query admin_view in
      let place = some (millis_of x.created_at * 1000, x.id) in
      let linear = select-IsLinear lt wanted s (in_order-IsLinear env oldest_first s u) in
      let sorted : IsSorted lt (x ∷ rest) =
        subst (IsSorted lt) whole
          (sort_by-IsSorted lt (in_order_trans env oldest_first) (select wanted s) linear) in
      let past : All (λ c. is_past env oldest_first place c ≡ true) (select wanted s) =
        All-sort_by_inv (λ c. is_past env oldest_first place c ≡ true) lt (select wanted s)
          (subst (All (λ c. is_past env oldest_first place c ≡ true)) (sym whole)
            (past_truncated x rest part sorted)) in
      ap (sort_by lt) (
        select_selected query admin_view place s
          (subst (λ o. All (λ c. is_past env o place c ≡ true) (select wanted s)) (sym old) past))
      ∙ whole

-- The query with one row a page, oldest first.
abbrev pub one_by_one : CatalogQuery → CatalogQuery
one_by_one query = record query { sort = some oldest_first; limit = some 1 }

-- Paging can go round: oldest first and one row a page, if the first of several rows was created
-- between two milliseconds, its cursor leads to the same row and the same cursor, so following the
-- cursors from there never ends, whatever the number of requests.
pub list_certificates_repeats :
    (env : CatalogPlatform) (query : CatalogQuery) (admin_view : Bool) (lang : Option String)
    (fuel : ℕ) (x y : Cert) (rest s : List Cert)
    → HasUniqueKeys (λ c. c.id) s
    → wanted_rows env (one_by_one query) admin_view lang s ≡ x ∷ y ∷ rest
    → millis_of x.created_at * 1000 < x.created_at
    → (x.id == "") ≡ false
    → read_all env (one_by_one query) admin_view lang fuel (some (encode_cursor env x)) s
      ≡ (err (failure "more pages than expected"), s)
list_certificates_repeats env query admin_view lang zero x y rest s u whole part named = refl
list_certificates_repeats env query admin_view lang (suc fuel) x y rest s u whole part named =
    let q = one_by_one query in
    let cursor = encode_cursor env x in
    let again =
      list_certificates_repeats env query admin_view lang fuel x y rest s u whole part named in
    let listed =
      list_lem env q admin_view lang (some cursor) (some (millis_of x.created_at * 1000, x.id)) s
        (x ∷ y ∷ rest) (truncated_position env x s named)
        (rows_again env q admin_view x (y ∷ rest) s refl u part whole)
      ∙ ap (λ p. (ok p, s))
          (page_turn env q admin_view lang 1 (x ∷ y ∷ rest) [] x (omega arith) refl) in
    bind_ok (list_certificates env (record q { cursor = some cursor }) admin_view lang)
      (with_rest env q admin_view lang (read_all env q admin_view lang fuel)) s _ s listed
    ∙ bind_err (read_all env q admin_view lang fuel (some cursor))
        (λ more. pure (item_of env (catalog_locale lang) x ∷ more)) s _ s again
