-- ===== src/Catalog/Rows.antt =====
-- `toItemDto`, `toDetailDto` and `resolveLocale` of src/modules/catalog/catalog.service.ts.
use ios_backend.Base.{ℕ, Bool, Option, none, some, String, ◌||◌, ◌/◌, or_else, if◌then◌else◌}
use ios_backend.Common.I18n.{is_locale, direction_for, default_locale, resolve_translation}
use ios_backend.Catalog.Types.{Cert, CatalogItem, CatalogPlatform}

-- The language of the request, if it is supported.
abbrev pub catalog_locale : Option String → String
catalog_locale lang =
    let raw = or_else lang default_locale in if is_locale raw then raw else default_locale

-- `first ?? second`.
abbrev or_option : Option String → Option String → Option String
or_option none second = second
or_option (some text) second = some text

-- A `Date` of the driver holds whole milliseconds.
abbrev pub millis_of : ℕ → ℕ
millis_of micros = micros / 1000

unfoldable pub item_of : CatalogPlatform → String → Cert → CatalogItem
unfolding resolve_translation direction_for
item_of env locale c =
    let title_res = resolve_translation (some c.translations) "title" locale in
    let desc_res = resolve_translation (some c.translations) "description" locale in
    record {
      id = c.id;
      program_code = c.program_code;
      title = or_else title_res.value c.title;
      description = or_option desc_res.value c.description;
      price = env.to_fixed c.price;
      currency = c.currency;
      thumbnail_url = c.thumbnail_url;
      active = c.active;
      locale = locale;
      direction = direction_for locale;
      fallback_used = title_res.fallback_used || desc_res.fallback_used;
      created_at = env.iso_text (millis_of c.created_at);
      updated_at = env.iso_text (millis_of c.updated_at);
      translations = none;
    }

unfoldable pub detail_of : CatalogPlatform → String → Bool → Cert → CatalogItem
unfolding item_of
detail_of env locale admin_view c =
    let base = item_of env locale c in
    if admin_view then record base { translations = some c.translations } else base
