-- ===== src/Examples/Catalog.antt =====
-- A catalog of two certificates.
use ios_backend.Base.{
  List, Result, String, [], arith, err, failure, false, find, lookup, map, none, ok, refl, some,
  true, ℕ, ◌∷◌, ◌≡◌,
}
use ios_backend.Catalog.Admin.{
  canonical_english, create_certificate, patch_cert, patched_translations, soft_delete_certificate,
  update_certificate,
}
use ios_backend.Catalog.Admin.Aligned.{update_certificate-english}
use ios_backend.Catalog.Admin.Clash.{HasUniqueCodes}
use ios_backend.Catalog.Admin.Codes.{
  AdminRequest, after_requests, after_requests-HasUniqueCodes, create_request, update_request,
}
use ios_backend.Catalog.Listing.{encode_cursor}
use ios_backend.Catalog.Listing.Fractions.{list_certificates_repeats, one_by_one}
use ios_backend.Catalog.Listing.Paging.{list_certificates-paging, read_all, wanted_rows}
use ios_backend.Catalog.Rows.{catalog_locale, detail_of, item_of}
use ios_backend.Catalog.Types.{
  CatalogItem, CatalogPage, CatalogPlatform, CatalogQuery, Cert, CreateCert, UpdateCert,
  cert_has_id, oldest_first,
}
use ios_backend.Common.I18n.{Translations, is_locale}
use ios_backend.Examples.Encoding.{ones}
use ios_backend.Examples.Ordering.{
  cursor_text, read-cursor_text, read_cursor_text, text_before, text_before_irrefl,
  text_before_total, text_before_trans, text_of_full, time_of, time_of-time_text, time_text,
}
use text.Mathlib.TextBridge.{to_list}

abbrev platform : CatalogPlatform
platform = record {
  ilike = λ title pattern. true;
  id_before = text_before;
  iso_text = time_text;
  timestamp_of = time_of;
  to_fixed = λ price. "49.00";
  write_cursor = cursor_text;
  read_cursor = read_cursor_text;
  id_before_irrefl = text_before_irrefl;
  id_before_trans = text_before_trans;
  id_before_total = text_before_total;
  timestamp-iso_text = time_of-time_text;
  iso_text_full = λ n. text_of_full (ones n) [];
  read-write_cursor = read-cursor_text;
  write_cursor_full = λ c. text_of_full (to_list c.ts) (to_list c.id ∷ []);
}

abbrev cert_at : String → String → ℕ → Cert
cert_at id code created_at = record {
  id = id;
  program_code = code;
  title = "Scrum";
  description = none;
  translations = [];
  price = 4900;
  currency = "USD";
  thumbnail_url = none;
  active = true;
  created_at = created_at;
  updated_at = created_at;
}

abbrev catalog_rows : List Cert
catalog_rows = cert_at "a" "PSM" 1000 ∷ cert_at "b" "PSPO" 3000 ∷ []

-- Two rows, the first of which was created between two milliseconds.
abbrev late_rows : List Cert
late_rows = cert_at "a" "PSM" 1500 ∷ cert_at "b" "PSPO" 3000 ∷ []

abbrev one_a_page : CatalogQuery
one_a_page = record {
  search = none;
  program_code = none;
  active = none;
  cursor = none;
  limit = some 1;
  sort = some oldest_first;
}

abbrev first_page : CatalogPage
first_page = record {
  items = item_of platform "en" (cert_at "a" "PSM" 1000) ∷ [];
  locale = "en";
  limit = 1;
  next_cursor = some (encode_cursor platform (cert_at "a" "PSM" 1000));
  has_more = true;
}

abbrev new_cert : CreateCert
new_cert = record {
  title = "Product";
  program_code = "PSPO";
  price = 100;
  currency = none;
  description = none;
  thumbnail_url = none;
  active = none;
  translations = none;
}

abbrev renamed : UpdateCert
renamed = record {
  title = some "Scrum II";
  program_code = some "PSM";
  price = none;
  currency = none;
  description = none;
  thumbnail_url = none;
  active = none;
  translations = none;
}

abbrev requests : List AdminRequest
requests = create_request new_cert "c" 7 ∷ update_request "a" renamed 8 ∷ []

abbrev updated : Result CatalogItem × List Cert
updated = update_certificate platform "a" renamed 8 none catalog_rows

abbrev renamed_cert : Cert
renamed_cert =
    patch_cert renamed (patched_translations renamed (cert_at "a" "PSM" 1000)) 8
      (cert_at "a" "PSM" 1000)

abbrev french : Translations
french = ("fr", ("title", "Mêlée") ∷ []) ∷ []

abbrev retired_rows : List Cert
retired_rows = (soft_delete_certificate "a" 9 catalog_rows).1

abbrev all_active : CatalogQuery
all_active = record one_a_page { limit = none }

list_certificates-paging_example : read_all platform one_a_page false none 3 none catalog_rows ≡ (
  ok (
      map
        (item_of platform (catalog_locale none))
        (wanted_rows platform one_a_page false none catalog_rows)),
  catalog_rows,
)
list_certificates-paging_example =
    list_certificates-paging platform one_a_page false none 3 catalog_rows (refl, (refl, tt))
      ((refl, refl), ((refl, refl), tt)) refl (omega arith) (omega arith)

list_certificates_repeats_example :
    read_all platform
      (one_by_one one_a_page)
      false
      none
      2
      (some (encode_cursor platform (cert_at "a" "PSM" 1500)))
      late_rows
    ≡ (err (failure "more pages than expected"), late_rows)
list_certificates_repeats_example =
    list_certificates_repeats platform one_a_page false none 2 (cert_at "a" "PSM" 1500)
      (cert_at "b" "PSPO" 3000) [] late_rows (refl, (refl, tt)) refl (omega arith) refl

after_requests-HasUniqueCodes_example :
    HasUniqueCodes (after_requests platform requests catalog_rows)
unfolding create_certificate
after_requests-HasUniqueCodes_example =
    after_requests-HasUniqueCodes platform requests catalog_rows (refl, ((λ e. absurd (cc)), tt))
      ((refl, (refl, tt)), (refl, (refl, tt)))

update_certificate-english_example :
    (row : Cert) × (find (cert_has_id "a") updated.1 ≡ some row)
    × (row.title ≡ "Scrum II")
    × (lookup row.translations "en" ≡ some (canonical_english row.title row.description))
unfolding update_certificate is_locale
update_certificate-english_example =
    update_certificate-english platform "a" renamed 8 none "Scrum II" catalog_rows updated.1
      (detail_of platform "en" true renamed_cert) refl tt refl refl

abbrev shown : CatalogPage
shown = record {
  items = item_of platform "en" (cert_at "b" "PSPO" 3000) ∷ [];
  locale = "en";
  limit = 20;
  next_cursor = none;
  has_more = false;
}
