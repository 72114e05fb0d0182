-- ===== src/Catalog/Types.antt =====
-- The row and the requests behind src/modules/catalog/catalog.service.ts (certificate.entity.ts
-- under src/database/entities, the files under src/modules/catalog/dto), and what the service takes
-- from elsewhere. Times are in microseconds, as Postgres keeps them; prices in cents.
use ios_backend.Base.{ℕ, Bool, true, false, Option, some, String, List, ◌==◌, ◌≡◌, ◌||◌, ◌*◌}
use ios_backend.Common.I18n.{Translations, Direction}

pub record Cert : Type 0 where
  pub id : String
  pub program_code : String
  pub title : String
  pub description : Option String
  pub translations : Translations
  pub price : ℕ
  pub currency : String
  pub thumbnail_url : Option String
  pub active : Bool
  pub created_at : ℕ
  pub updated_at : ℕ

-- `CreateCertificateDto`: an absent field is `none`.
pub record CreateCert : Type 0 where
  pub title : String
  pub program_code : String
  pub price : ℕ
  pub currency : Option String
  pub description : Option String
  pub thumbnail_url : Option String
  pub active : Option Bool
  pub translations : Option Translations

-- `UpdateCertificateDto`: a nullable field that is given is `some` of what it is set to.
pub record UpdateCert : Type 0 where
  pub title : Option String
  pub program_code : Option String
  pub price : Option ℕ
  pub currency : Option String
  pub description : Option (Option String)
  pub thumbnail_url : Option (Option String)
  pub active : Option Bool
  pub translations : Option Translations

-- `'-created_at'` and `'created_at'`.
pub data SortOrder : Type 0 where
  newest_first oldest_first : SortOrder

-- `CatalogQueryDto`.
pub record CatalogQuery : Type 0 where
  pub search : Option String
  pub program_code : Option String
  pub active : Option Bool
  pub cursor : Option String
  pub limit : Option ℕ
  pub sort : Option SortOrder

-- `DecodedCursor`.
pub record Cursor : Type 0 where
  pub ts : String
  pub id : String

-- `CatalogItemDto`; the administrators' view, `CatalogDetailDto`, adds the translations.
pub record CatalogItem : Type 0 where
  pub id : String
  pub program_code : String
  pub title : String
  pub description : Option String
  pub price : String
  pub currency : String
  pub thumbnail_url : Option String
  pub active : Bool
  pub locale : String
  pub direction : Direction
  pub fallback_used : Bool
  pub created_at : String
  pub updated_at : String
  pub translations : Option Translations

pub record CatalogPage : Type 0 where
  pub items : List CatalogItem
  pub locale : String
  pub limit : ℕ
  pub next_cursor : Option String
  pub has_more : Bool

-- What Postgres and the runtime do: `text ILIKE pattern`, the order of the ids (that of `uuid` and
-- of its text are one), `toISOString` of a time in milliseconds, how Postgres reads a timestamp,
-- `toFixed(2)` of a price, and base64url over JSON, which gives back what was written.
pub record CatalogPlatform : Type 0 where
  pub ilike : String → String → Bool
  pub id_before : String → String → Bool
  pub iso_text : ℕ → String
  pub timestamp_of : String → Option ℕ
  pub to_fixed : ℕ → String
  pub write_cursor : Cursor → String
  pub read_cursor : String → Option Cursor
  pub id_before_irrefl : (a : String) → id_before a a ≡ false
  pub id_before_trans :
      (a b c : String) → id_before a b ≡ true → id_before b c ≡ true → id_before a c ≡ true
  pub id_before_total : (a b : String) → (a == b) ≡ false → (id_before a b || id_before b a) ≡ true
  pub timestamp-iso_text : (ms : ℕ) → timestamp_of (iso_text ms) ≡ some (ms * 1000)
  pub iso_text_full : (ms : ℕ) → (iso_text ms == "") ≡ false
  pub read-write_cursor : (c : Cursor) → read_cursor (write_cursor c) ≡ some c
  pub write_cursor_full : (c : Cursor) → (write_cursor c == "") ≡ false

abbrev pub cert_has_id : String → Cert → Bool
cert_has_id id c = c.id == id

abbrev pub cert_has_code : String → Cert → Bool
cert_has_code program_code c = c.program_code == program_code
