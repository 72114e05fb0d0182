-- ===== src/Catalog/Listing/Paging.antt =====
-- Following the cursors of `list` of src/modules/catalog/catalog.service.ts from page to page.
use ios_backend.Base.{
  ℕ, zero, suc, ◌*◌, ◌<◌, ◌≤◌, Bool, true, false, Option, none, some, String, ◌==◌, List, [], ◌∷◌,
  ◌++◌, map, ◌≡◌, refl, sym, ap, subst, ◌∙◌, Bool-cases, inl, inr, arith, All, length, ltb, take,
  select, sort_by, ◌&&◌, HasUniqueKeys, bind_ok, Action, pure, raise, ◌>>=◌, or_else, ok, failure,
  All-select, All-sort_by,
}
use mathlib.Core.List.{append_assoc, append-nil, map-append}
use ios_backend.Common.I18n.{non_empty}
use ios_backend.Catalog.Types.{
  Cert, CatalogQuery, CatalogPage, CatalogItem, Cursor, SortOrder, newest_first, oldest_first,
  CatalogPlatform,
}
use ios_backend.Catalog.Rows.{item_of, catalog_locale, millis_of}
use ios_backend.Catalog.Listing.{
  list_certificates, page_of, page_at, page_limit, default_limit, sort_of, in_order, is_past,
  is_wanted, is_selected, cursor_position, encode_cursor, decode_cursor,
}
use ios_backend.Catalog.Listing.Keyset.{
  IsSorted, select-IsLinear, sort_by-IsSorted, select-sort_by, select_past, select-select, take_all,
  take-take, length-take, take-Turn, last-append, All-middle,
}
use ios_backend.Catalog.Listing.Order.{in_order_trans, in_order_irrefl, in_order-IsLinear}

-- Rows whose creation time is a whole number of milliseconds, and whose id is a text.
abbrev pub IsWhole : Cert → Type 0
IsWhole c = (millis_of c.created_at * 1000 ≡ c.created_at) × ((c.id == "") ≡ false)

module _ (env : CatalogPlatform) (query : CatalogQuery) (admin_view : Bool)
    (lang : Option String) where
  -- All that the query asks for, in its order.
  abbrev pub wanted_rows : List Cert → List Cert
  wanted_rows s = sort_by (in_order env (sort_of query)) (select (is_wanted env query admin_view) s)

  -- The items of a page, and those of the pages that its cursor leads to.
  abbrev pub with_rest :
      (Option String → Action (List Cert) (List CatalogItem))
      → CatalogPage
      → Action (List Cert) (List CatalogItem)
  with_rest follow page = do
    rest ← elim page.next_cursor [ none ↦ pure [] | some next ↦ follow (some next) ]
    pure (page.items ++ rest)

  -- The pages from a cursor on, each read with the cursor that the one before it gave.
  abbrev pub read_all : ℕ → Option String → Action (List Cert) (List CatalogItem)
  read_all zero cursor = raise (failure "more pages than expected")
  read_all (suc fuel) cursor =
      list_certificates env (record query { cursor = cursor }) admin_view lang
      >>= with_rest (read_all fuel)

  -- Without a search, the rows past a place are those wanted rows that stand behind it.
  plain :
      (position : Option (ℕ × String))
      → non_empty query.search ≡ none
      → (λ c. is_past env (sort_of query) position c && is_wanted env query admin_view c)
        ≡ is_selected env query admin_view position
  plain position bare = rw bare refl

  rows_after :
      (order : SortOrder) (s begin : List Cert) (x : Cert) (rest : List Cert)
      → HasUniqueKeys (λ c. c.id) s
      → sort_by (in_order env order) (select (is_wanted env query admin_view) s) ≡ begin ++ x ∷ rest
      → sort_by
          (in_order env order)
          (select (λ c. in_order env order x c && is_wanted env query admin_view c) s)
        ≡ rest
  rows_after order s begin x rest u whole =
      let lt = in_order env order in
      let wanted = is_wanted env query admin_view in
      let linear = select-IsLinear lt wanted s (in_order-IsLinear env order s u) in
      let sorted : IsSorted lt (begin ++ x ∷ rest) =
        subst (IsSorted lt) whole
          (sort_by-IsSorted lt (in_order_trans env order) (select wanted s) linear) in
      ap (sort_by lt) (select-select (lt x) wanted s)
      ∙ sym (select-sort_by lt (in_order_trans env order) (lt x) (select wanted s) linear)
      ∙ ap (select (lt x)) whole
      ∙ select_past lt (in_order_trans env order) (in_order_irrefl env order) begin x rest sorted

  -- The rows past the cursor of a row are those that follow it.
  rows_past :
      (order : SortOrder) (s begin : List Cert) (x : Cert) (rest : List Cert)
      → HasUniqueKeys (λ c. c.id) s
      → sort_by (in_order env order) (select (is_wanted env query admin_view) s) ≡ begin ++ x ∷ rest
      → sort_by (in_order env order) (
          select
            (λ c.
              is_past env order (some (x.created_at, x.id)) c && is_wanted env query admin_view c)
            s)
        ≡ rest
  rows_past newest_first = rows_after newest_first
  rows_past oldest_first = rows_after oldest_first

  -- The cursor of a row is read back as its place in the order.
  cursor_position-encode_cursor :
      (x : Cert) (s : List Cert)
      → IsWhole x
      → cursor_position env (non_empty (some (encode_cursor env x))) s
        ≡ (ok (some (x.created_at, x.id)), s)
  unfolding decode_cursor
  cursor_position-encode_cursor x s (whole, named) =
      let c : Cursor = record { ts = env.iso_text (millis_of x.created_at); id = x.id } in
      ground (
        arith,
        whole,
        named,
        env.write_cursor_full c,
        env.read-write_cursor c,
        env.timestamp-iso_text (millis_of x.created_at),
        env.iso_text_full (millis_of x.created_at),
      )

  -- The page that is read at a place in the order.
  pub list_lem :
      (cursor : Option String) (position : Option (ℕ × String)) (s rows : List Cert)
      → cursor_position env (non_empty cursor) s ≡ (ok position, s)
      → sort_by
          (in_order env (sort_of query))
          (select (is_selected env query admin_view position) s)
        ≡ rows
      → list_certificates env (record query { cursor = cursor }) admin_view lang s ≡ (
        ok (
            page_of env
              (catalog_locale lang)
              (page_limit query.limit)
              (take (suc (page_limit query.limit)) rows)),
        s,
      )
  unfolding list_certificates
  list_lem cursor position s rows at past =
      bind_ok (cursor_position env (non_empty cursor))
        (page_at env (record query { cursor = cursor }) admin_view lang) s position s at
      ∙ ap
          (λ found. (
            ok (
                page_of env (catalog_locale lang) (page_limit query.limit)
                  (take (suc (page_limit query.limit)) found)),
            s,
          ))
          past

  -- The last page, and one before it.
  pub page_last :
      (n : ℕ) (rows : List Cert)
      → length rows ≤ n
      → page_of env (catalog_locale lang) n (take (suc n) rows) ≡ record {
        items = map (item_of env (catalog_locale lang)) rows;
        locale = catalog_locale lang;
        limit = n;
        next_cursor = none;
        has_more = false;
      }
  unfolding page_of
  page_last n rows h =
      let short : ltb n (length rows) ≡ false = ground arith in
      rw (take_all (suc n) rows (omega arith), short) refl

  pub page_turn :
      (n : ℕ) (rows begin : List Cert) (x : Cert)
      → n < length rows
      → take n rows ≡ begin ++ x ∷ []
      → page_of env (catalog_locale lang) n (take (suc n) rows) ≡ record {
        items = map (item_of env (catalog_locale lang)) (begin ++ x ∷ []);
        locale = catalog_locale lang;
        limit = n;
        next_cursor = some (encode_cursor env x);
        has_more = true;
      }
  unfolding page_of
  page_turn n rows begin x h page =
      let more : ltb n (suc n) ≡ true = ground arith in
      rw (length-take (suc n) rows (omega arith), more, take-take n rows, page, last-append begin x)
        refl

  wanted_rows-IsWhole :
      (s begin : List Cert) (x : Cert) (rest : List Cert)
      → All IsWhole s
      → wanted_rows s ≡ begin ++ x ∷ rest
      → IsWhole x
  wanted_rows-IsWhole s begin x rest h e = All-middle IsWhole begin x rest (
      subst (All IsWhole) e (
        All-sort_by IsWhole (in_order env (sort_of query)) _
          (All-select IsWhole (is_wanted env query admin_view) s h)))

  -- From any place in the order, the pages hold the rows that follow it.
  pages_lem :
      (fuel : ℕ) (cursor : Option String) (position : Option (ℕ × String))
      (s begin rows : List Cert)
      → HasUniqueKeys (λ c. c.id) s
      → All IsWhole s
      → non_empty query.search ≡ none
      → 0 < page_limit query.limit
      → cursor_position env (non_empty cursor) s ≡ (ok position, s)
      → sort_by
          (in_order env (sort_of query))
          (select (is_selected env query admin_view position) s)
        ≡ rows
      → wanted_rows s ≡ begin ++ rows
      → length rows < fuel
      → read_all fuel cursor s ≡ (ok (map (item_of env (catalog_locale lang)) rows), s)
  pages_lem zero cursor position s begin rows u w bare pos at past whole enough =
      absurd (omega arith)
  pages_lem (suc fuel) cursor position s begin rows u w bare pos at past whole enough =
      let n = page_limit query.limit in
      let listed = list_lem cursor position s rows at past in
      elim (Bool-cases (ltb n (length rows))) [
        | inl more ↦
            let longer : n < length rows = ground arith in
            let (first, x, rest, parts, page, less) = take-Turn n rows pos longer in
            let row = item_of env (catalog_locale lang) in
            let joined : wanted_rows s ≡ (begin ++ first) ++ x ∷ rest =
              whole ∙ ap (λ rs. begin ++ rs) parts ∙ sym (append_assoc begin first (x ∷ rest)) in
            let next =
              pages_lem fuel (some (encode_cursor env x)) (some (x.created_at, x.id)) s
                ((begin ++ first) ++ x ∷ []) rest u w bare pos
                (cursor_position-encode_cursor x s
                  (wanted_rows-IsWhole s (begin ++ first) x rest w joined))
                (ap (λ p. sort_by (in_order env (sort_of query)) (select p s))
                    (sym (plain (some (x.created_at, x.id)) bare))
                  ∙ rows_past (sort_of query) s (begin ++ first) x rest u joined)
                (joined ∙ sym (append_assoc (begin ++ first) (x ∷ []) rest)) (omega arith) in
            bind_ok (list_certificates env (record query { cursor = cursor }) admin_view lang)
              (with_rest (read_all fuel)) s _ s
              (listed ∙ ap (λ p. (ok p, s)) (page_turn n rows first x longer page))
            ∙ bind_ok (read_all fuel (some (encode_cursor env x)))
                (λ more. pure (map row (first ++ x ∷ []) ++ more)) s _ s next
            ∙ ap (λ items. (ok items, s))
                (sym (map-append row (first ++ x ∷ []) rest)
                  ∙ ap (map row) (append_assoc first (x ∷ []) rest ∙ sym parts))
        | inr short ↦
            let fits : length rows ≤ n = ground arith in
            let row = item_of env (catalog_locale lang) in
            bind_ok (list_certificates env (record query { cursor = cursor }) admin_view lang)
              (with_rest (read_all fuel)) s _ s
              (listed ∙ ap (λ p. (ok p, s)) (page_last n rows fits))
            ∙ ap (λ items. (ok items, s)) (append-nil (map row rows))
      ]

-- Without a search, paging ends and is complete: where ids are distinct and creation times are whole
-- milliseconds, whoever follows the cursors from the first page, with at least one request more than there are
-- rows, receives every certificate that the query asks for exactly once, in its order.
pub list_certificates-paging :
    (env : CatalogPlatform) (query : CatalogQuery) (admin_view : Bool) (lang : Option String)
    (fuel : ℕ) (s : List Cert)
    → HasUniqueKeys (λ c. c.id) s
    → All IsWhole s
    → non_empty query.search ≡ none
    → 0 < or_else query.limit default_limit
    → length (wanted_rows env query admin_view lang s) < fuel
    → read_all env query admin_view lang fuel none s
      ≡ (ok (map (item_of env (catalog_locale lang)) (wanted_rows env query admin_view lang s)), s)
list_certificates-paging env query admin_view lang fuel s u w bare pos enough =
    pages_lem env query admin_view lang fuel none none s []
      (wanted_rows env query admin_view lang s) u w bare (ground arith) refl refl refl enough
