-- ===== src/Catalog/Listing/Hidden.antt =====
-- What the reads of src/modules/catalog/catalog.service.ts show, and how much of it.
use ios_backend.Base.{
  ℕ, zero, suc, ◌≤◌, ◌<◌, Bool, true, false, Option, none, some, String, List, [], ◌∷◌, map, ◌≡◌,
  refl, subst, Bool-cases, Outcome-cases, inl, inr, arith, All, All-map, length, ltb, take, select,
  sort_by, ok, ap, last_of, bind_ok, bind_err, sym, ◌∙◌, is_some, or_else, All-sort_by,
  select_holds, ◌==◌, ◌||◌, Option-cases,
}
use ios_backend.Common.I18n.{non_empty}
use ios_backend.Catalog.Types.{Cert, CatalogQuery, CatalogPage, CatalogItem, CatalogPlatform}
use ios_backend.Catalog.Rows.{item_of, catalog_locale}
use ios_backend.Catalog.Listing.Keyset.{take-Turn, last-append}
use ios_backend.Catalog.Listing.{
  list_certificates, page_at, page_of, page_limit, default_limit, max_limit, same_flag, sort_of,
  decode_cursor, in_order, is_selected, cursor_position,
}

pub All-take : {A : Type 0} (P : A → Type 0) (n : ℕ) (xs : List A) → All P xs → All P (take n xs)
All-take P zero xs h = tt
All-take P (suc n) [] h = tt
All-take P (suc n) (x ∷ xs) h = (h.0, All-take P n xs h.1)

-- What holds of every item of every row that is shown.
pub All-page_of :
    (env : CatalogPlatform) (P : CatalogItem → Type 0) (locale : String) (n : ℕ) (rows : List Cert)
    → All (λ c. P (item_of env locale c)) rows
    → All P (page_of env locale n rows).items
unfolding page_of
All-page_of env P locale n rows h = elim (Bool-cases (ltb n (length rows))) [
  | inl more ↦ rw more (All-items (take n rows) (All-take _ n rows h))
  | inr last ↦ rw last (All-items rows h)
]
  where
    All-items :
        (cs : List Cert)
        → All (λ c. P (item_of env locale c)) cs
        → All P (map (item_of env locale) cs)
    All-items [] h = tt
    All-items (c ∷ cs) h = (h.0, All-items cs h.1)

same_flag→eq : (a b : Bool) → same_flag a b ≡ true → b ≡ a
same_flag→eq true b h = h
same_flag→eq false b h = ground arith

item_of-active :
    (env : CatalogPlatform) (locale : String) (c : Cert) → (item_of env locale c).active ≡ c.active
unfolding item_of
item_of-active env locale c = refl

-- The rows that a place in the order leaves, in the order of the query.
abbrev pub rows_at :
    CatalogPlatform → CatalogQuery → Bool → Option (ℕ × String) → List Cert → List Cert
rows_at env query admin_view position s =
    sort_by (in_order env (sort_of query)) (select (is_selected env query admin_view position) s)

-- Reading a cursor changes no row.
cursor_position-keeps :
    (env : CatalogPlatform) (cursor : Option String) (s : List Cert)
    → (cursor_position env cursor s).1 ≡ s
unfolding decode_cursor
cursor_position-keeps env none s = refl
cursor_position-keeps env (some raw) s = elim (Option-cases (env.read_cursor raw)) [
  | inl e ↦ rw e refl
  | inr (c, e) ↦ elim (Bool-cases (c.ts == "" || c.id == "")) [
    | inl bad ↦ rw (e, bad) refl
    | inr good ↦ elim (Option-cases (env.timestamp_of c.ts)) [
      | inl n ↦ rw (e, good, n) refl
      | inr (m, n) ↦ rw (e, good, n) refl
    ]
  ]
]

-- A page that is answered is the page of such rows.
pub page_source :
    (env : CatalogPlatform) (query : CatalogQuery) (admin_view : Bool) (lang : Option String)
    (s t : List Cert) (page : CatalogPage)
    → list_certificates env query admin_view lang s ≡ (ok page, t)
    → (position : Option (ℕ × String)) × (page_of env
          (catalog_locale lang)
          (page_limit query.limit)
          (take (suc (page_limit query.limit)) (rows_at env query admin_view position s))
        ≡ page)
unfolding list_certificates
page_source env query admin_view lang s t page h =
    let m = cursor_position env (non_empty query.cursor) in
    let rest = page_at env query admin_view lang in
    elim (Outcome-cases (m s)) [
      | inl (position, u, read) ↦
          let same : u ≡ s =
            sym (ap (λ o. o.1) read) ∙ cursor_position-keeps env (non_empty query.cursor) s in
          (
            position,
            subst
                (λ v.
                  page_of env (catalog_locale lang) (page_limit query.limit)
                    (take (suc (page_limit query.limit)) (rows_at env query admin_view position v))
                  ≡ page)
                same (cc (sym (bind_ok m rest s position u read) ∙ h)),
          )
      | inr (e, u, thrown) ↦ absurd (cc (sym (bind_err m rest s e u thrown) ∙ h))
    ]

-- Without a search, a page of the public list holds only certificates whose active flag is the one that the caller
-- asks for, or active ones when the caller names none.
pub list_certificates-activity :
    (env : CatalogPlatform) (query : CatalogQuery) (lang : Option String) (s t : List Cert)
    (page : CatalogPage)
    → non_empty query.search ≡ none
    → list_certificates env query false lang s ≡ (ok page, t)
    → All (λ i. i.active ≡ or_else query.active true) page.items
unfolding item_of
list_certificates-activity env query lang s t page bare h =
    let (position, same) = page_source env query false lang s t page h in
    let n = page_limit query.limit in
    subst (λ p. All (λ i. i.active ≡ or_else query.active true) p.items) same
      (All-page_of env (λ i. i.active ≡ or_else query.active true) (catalog_locale lang) n _
        (All-take _ (suc n) (rows_at env query false position s) (
          All-sort_by _ (in_order env (sort_of query)) _
            (All-map _ _ _ (λ c k. shown position c k) (select_holds _ s)))))
  where
    shown :
        (position : Option (ℕ × String)) (c : Cert)
        → is_selected env query false position c ≡ true
        → c.active ≡ or_else query.active true
    shown position c k = same_flag→eq (or_else query.active true) c.active (ground (arith, k, bare))

-- At most as many items as the limit, at most a hundred, and a cursor exactly if there is more.
abbrev FitsLimit : CatalogPage → Type 0
FitsLimit page =
    (length page.items ≤ page.limit)
    × (page.limit ≤ max_limit)
    × (is_some page.next_cursor ≡ page.has_more)

length-map : {A B : Type 0} (f : A → B) (xs : List A) → length (map f xs) ≡ length xs
length-map f [] = refl
length-map f (x ∷ xs) = ap suc (length-map f xs)

length-take_le : {A : Type 0} (n : ℕ) (xs : List A) → length (take n xs) ≤ n
length-take_le zero xs = omega arith
length-take_le (suc n) [] = omega arith
length-take_le (suc n) (x ∷ xs) = omega (arith, length-take_le n xs)

page_of-FitsLimit :
    (env : CatalogPlatform) (locale : String) (n : ℕ) (rows : List Cert)
    → 0 < n
    → n ≤ max_limit
    → FitsLimit (page_of env locale n rows)
unfolding page_of
page_of-FitsLimit env locale n rows pos small = elim (Bool-cases (ltb n (length rows))) [
  | inl more ↦
      let longer : n < length rows = ground arith in
      let (begin, x, rest, parts, page, less) = take-Turn n rows pos longer in
      let last : last_of (take n rows) ≡ some x = rw page (last-append begin x) in
      rw (more, last)
        (
          omega (arith, length-map (item_of env locale) (take n rows), length-take_le n rows),
          small,
          refl,
        )
  | inr end ↦ rw end (
    (let fits : length rows ≤ n = ground arith in
        omega (arith, fits, length-map (item_of env locale) rows)),
    small,
    refl,
  )
]

-- A page holds at most its limit of certificates, and never more than a hundred, and names a
-- cursor exactly if there is more to read, given that the limit asked for is not 0.
pub list_certificates_limit :
    (env : CatalogPlatform) (query : CatalogQuery) (admin_view : Bool) (lang : Option String)
    (s t : List Cert) (page : CatalogPage)
    → 0 < or_else query.limit default_limit
    → list_certificates env query admin_view lang s ≡ (ok page, t)
    → (length page.items ≤ page.limit)
      × (page.limit ≤ max_limit)
      × (is_some page.next_cursor ≡ page.has_more)
list_certificates_limit env query admin_view lang s t page pos h =
    let (position, same) = page_source env query admin_view lang s t page h in
    subst FitsLimit same (
      page_of-FitsLimit env (catalog_locale lang) (page_limit query.limit) _ (ground arith)
        (ground arith))
