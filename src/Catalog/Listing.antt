-- ===== src/Catalog/Listing.antt =====
-- The public reads of src/modules/catalog/catalog.service.ts: `list`, a page of the certificates
-- after a cursor, and `getById`. A statement with a `where` is `select`, its `ORDER BY` a sort.
pub mod Keyset
pub mod Order
pub mod Paging
pub mod Hidden
pub mod Fractions
use Prim.Native.String.{String, ◌++◌}
use ios_backend.Base.{
  ℕ, suc, Bool, true, false, not, Option, none, some, List, [], ◌∷◌, map, length, ◌==◌, ◌&&◌, ◌||◌,
  ltb, leb, nat_eq, or_else, if◌then◌else◌, find, select, take, sort_by, Action, pure, raise, gets,
  raise_if, or_raise, ◌>>=◌, ◌>>◌, bad_request, not_found, failure, lookup, last_of,
}
use ios_backend.Common.I18n.{Translations, field_of, non_empty}
use ios_backend.Catalog.Types.{
  Cert, CatalogQuery, CatalogPage, CatalogItem, Cursor, SortOrder, newest_first, oldest_first,
  CatalogPlatform, cert_has_id,
}
use ios_backend.Catalog.Rows.{item_of, detail_of, catalog_locale, millis_of}

abbrev pub default_limit : ℕ
default_limit = 20

abbrev pub max_limit : ℕ
max_limit = 100

abbrev pub page_limit : Option ℕ → ℕ
page_limit limit =
    let wanted = or_else limit default_limit in if leb wanted max_limit then wanted else max_limit

-- `c.active = :a`.
abbrev pub same_flag : Bool → Bool → Bool
same_flag true b = b
same_flag false b = not b

abbrev pub has_activity : Bool → Option Bool → Cert → Bool
has_activity true none c = true
has_activity true (some a) c = same_flag a c.active
has_activity false active c = same_flag (or_else active true) c.active

abbrev has_program_code : Option String → Cert → Bool
has_program_code none c = true
has_program_code (some program_code) c = c.program_code == program_code

abbrev ilike_nullable : CatalogPlatform → Option String → String → Bool
ilike_nullable env none pattern = false
ilike_nullable env (some text) pattern = env.ilike text pattern

abbrev matches_english : CatalogPlatform → String → Cert → Bool
matches_english env wanted c =
    ilike_nullable env (field_of (lookup c.translations "en") "title") ("%" ++ wanted ++ "%")

abbrev pub matches_title : CatalogPlatform → String → Cert → Bool
matches_title env wanted c = env.ilike c.title ("%" ++ wanted ++ "%")

-- `(created_at, id) < (created_at', id')`.
abbrev pub pair_before : CatalogPlatform → ℕ → String → ℕ → String → Bool
pair_before env t a u b = ltb t u || (nat_eq t u && env.id_before a b)

-- `ORDER BY created_at, id`, both in the direction of the request.
abbrev pub in_order : CatalogPlatform → SortOrder → Cert → Cert → Bool
in_order env newest_first x y = pair_before env y.created_at y.id x.created_at x.id
in_order env oldest_first x y = pair_before env x.created_at x.id y.created_at y.id

abbrev pub is_past : CatalogPlatform → SortOrder → Option (ℕ × String) → Cert → Bool
is_past env order none c = true
is_past env newest_first (some (ts, id)) c = pair_before env c.created_at c.id ts id
is_past env oldest_first (some (ts, id)) c = pair_before env ts id c.created_at c.id

-- The conditions before the search.
abbrev pub is_eligible : CatalogQuery → Bool → Cert → Bool
is_eligible query admin_view c =
    has_activity admin_view query.active c && has_program_code (non_empty query.program_code) c

-- The conditions, joined by AND. The search brings its OR without parentheses of its own, so that in
-- SQL what stands before the OR binds to the English title only, and what stands after it, the
-- cursor, to the canonical title only.
abbrev pub meets : CatalogPlatform → Option String → (Cert → Bool) → (Cert → Bool) → Cert → Bool
meets env none eligible past c = past c && eligible c
meets env (some wanted) eligible past c =
    (eligible c && matches_english env wanted c) || (matches_title env wanted c && past c)

-- The condition of the statement at a place in the order, and without a cursor.
abbrev pub is_selected : CatalogPlatform → CatalogQuery → Bool → Option (ℕ × String) → Cert → Bool
is_selected env query admin_view position =
    meets env (non_empty query.search) (is_eligible query admin_view)
      (is_past env (or_else query.sort newest_first) position)

abbrev pub is_wanted : CatalogPlatform → CatalogQuery → Bool → Cert → Bool
is_wanted env query admin_view = is_selected env query admin_view none

abbrev checked_cursor : Option Cursor → Action (List Cert) Cursor
checked_cursor none = raise (bad_request "Invalid cursor")
checked_cursor (some c) =
    if c.ts == "" || c.id == "" then raise (bad_request "Invalid cursor") else pure c

unfoldable pub decode_cursor : CatalogPlatform → String → Action (List Cert) Cursor
decode_cursor env raw = checked_cursor (env.read_cursor raw)

-- The place in the order that the cursor names; Postgres refuses a text that is no timestamp.
abbrev pub cursor_position :
    CatalogPlatform → Option String → Action (List Cert) (Option (ℕ × String))
cursor_position env none = pure none
cursor_position env (some raw) = do
  decoded ← decode_cursor env raw
  micros ←
      or_raise (env.timestamp_of decoded.ts) (failure "invalid input syntax for type timestamp")
  pure (some (micros, decoded.id))

abbrev pub encode_cursor : CatalogPlatform → Cert → String
encode_cursor env c =
    env.write_cursor (record { ts = env.iso_text (millis_of c.created_at); id = c.id })

abbrev pub cursor_after : CatalogPlatform → Option Cert → Option String
cursor_after env none = none
cursor_after env (some c) = some (encode_cursor env c)

-- The page of the rows that were read, one more than the limit if there are more.
unfoldable pub page_of : CatalogPlatform → String → ℕ → List Cert → CatalogPage
unfolding item_of
page_of env locale limit rows =
    let has_more = ltb limit (length rows) in
    let page = if has_more then take limit rows else rows in
    record {
      items = map (item_of env locale) page;
      locale = locale;
      limit = limit;
      next_cursor = if has_more then cursor_after env (last_of page) else none;
      has_more = has_more;
    }

abbrev pub sort_of : CatalogQuery → SortOrder
sort_of query = or_else query.sort newest_first

-- The statement, and the page of its rows.
abbrev pub page_at :
    CatalogPlatform
    → CatalogQuery
    → Bool
    → Option String
    → Option (ℕ × String)
    → Action (List Cert) CatalogPage
page_at env query admin_view lang position = do
  let limit = page_limit query.limit
  let order = sort_of query
  rows ← gets (λ s.
      take (suc limit)
        (sort_by (in_order env order) (select (is_selected env query admin_view position) s)))
  pure (page_of env (catalog_locale lang) limit rows)

unfoldable pub list_certificates :
    CatalogPlatform → CatalogQuery → Bool → Option String → Action (List Cert) CatalogPage
list_certificates env query admin_view lang = do
  position ← cursor_position env (non_empty query.cursor)
  page_at env query admin_view lang position

unfoldable pub get_by_id :
    CatalogPlatform → String → Bool → Option String → Action (List Cert) CatalogItem
unfolding detail_of
get_by_id env id admin_view lang = do
  found ← gets (find (cert_has_id id))
  cert ← or_raise found (not_found "Certificate not found")
  raise_if (not admin_view && not cert.active) (not_found "Certificate not found")
  pure (detail_of env (catalog_locale lang) admin_view cert)
