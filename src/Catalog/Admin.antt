-- ===== src/Catalog/Admin.antt =====
-- The administrators' writes of src/modules/catalog/catalog.service.ts: `create`, `update`,
-- `updateTranslations`, `softDelete` and `buildTranslations`. The row's id and the time come in as
-- arguments; a repository's `update` also sets `updated_at`.
pub mod Aligned
pub mod Locales
pub mod Clash
pub mod Codes
pub mod Retired
use Prim.Native.String.{String, ◌++◌}
use ios_backend.Base.{
  ℕ, Bool, true, false, not, ◌||◌, ◌&&◌, Option, none, some, List, [], ◌∷◌, ◌==◌, is_some, is_none,
  or_else, lookup, if◌then◌else◌, find, update, Action, pure, raise, gets, modify, raise_if,
  or_raise, ◌>>=◌, ◌>>◌, not_found, conflict, bad_request,
}
use ios_backend.Common.I18n.{Translations, is_locale, field_of, non_empty}
use ios_backend.Learning.Translations.{set_key, merge}
use ios_backend.Catalog.Types.{
  Cert, CreateCert, UpdateCert, CatalogItem, CatalogPlatform, cert_has_id, cert_has_code,
}
use ios_backend.Catalog.Rows.{detail_of, catalog_locale}

-- The object `{ title, description }`, whose undefined `description` JSON drops.
abbrev pub canonical_english : String → Option String → List (String × String)
canonical_english title none = ("title", title) ∷ []
canonical_english title (some description) = ("title", title) ∷ ("description", description) ∷ []

unfoldable pub build_cert_translations :
    Translations → Option Translations → String → Option String → Translations
build_cert_translations existing dto_translations canonical_title canonical_description =
    let dto_t = or_else dto_translations [] in
    let explicit_en = is_some (lookup dto_t "en") in
    let merged = merge existing dto_t in
    if not explicit_en
    then set_key "en" (canonical_english canonical_title canonical_description) merged
    else merged

abbrev pub code_taken : String → String
code_taken program_code = "A certificate with program code '" ++ program_code ++ "' already exists"

unfoldable pub create_certificate :
    CatalogPlatform → CreateCert → String → ℕ → Option String → Action (List Cert) CatalogItem
unfolding build_cert_translations detail_of
create_certificate env dto id now lang = do
  existing ← gets (find (cert_has_code dto.program_code))
  raise_if (is_some existing) (conflict (code_taken dto.program_code))
  let saved : Cert = record {
    id = id;
    program_code = dto.program_code;
    title = dto.title;
    description = dto.description;
    translations = build_cert_translations [] dto.translations dto.title dto.description;
    price = dto.price;
    currency = or_else dto.currency "USD";
    thumbnail_url = dto.thumbnail_url;
    active = or_else dto.active true;
    created_at = now;
    updated_at = now;
  }
  modify (λ s. saved ∷ s)
  pure (detail_of env (catalog_locale lang) true saved)

abbrev pub other_code : Option String → Cert → Option String
other_code none cert = none
other_code (some code) cert = if code == cert.program_code then none else some code

-- A program code that is given, is not empty and is not the row's own.
abbrev pub new_code : Option String → Cert → Option String
new_code program_code cert = other_code (non_empty program_code) cert

-- Another row has the program code.
abbrev pub is_clash : String → Option Cert → Bool
is_clash id none = false
is_clash id (some clash) = not (clash.id == id)

abbrev pub refuse_clash : String → Option String → Action (List Cert) (Unit {0})
refuse_clash id none = pure tt
refuse_clash id (some code) = do
  clash ← gets (find (cert_has_code code))
  raise_if (is_clash id clash) (conflict (code_taken code))

-- The translations of the patch, from the row that was read; without a change there are none.
abbrev pub patched_translations : UpdateCert → Cert → Option Translations
patched_translations dto cert =
    if (is_some dto.title || is_some dto.description) || is_some dto.translations
    then some (
        build_cert_translations cert.translations dto.translations (or_else dto.title cert.title)
          (or_else dto.description cert.description))
    else none

abbrev pub patch_cert : UpdateCert → Option Translations → ℕ → Cert → Cert
patch_cert dto translations now c = record c {
  title = or_else dto.title c.title;
  program_code = or_else dto.program_code c.program_code;
  price = or_else dto.price c.price;
  currency = or_else dto.currency c.currency;
  description = or_else dto.description c.description;
  thumbnail_url = or_else dto.thumbnail_url c.thumbnail_url;
  active = or_else dto.active c.active;
  translations = or_else translations c.translations;
  updated_at = now;
}

-- `Object.keys(patch).length > 0`.
abbrev pub has_patch : UpdateCert → Bool
has_patch dto =
    is_some dto.title
    || (is_some dto.program_code
        || (is_some dto.price
            || (is_some dto.currency
                || (is_some dto.description
                    || (is_some dto.thumbnail_url
                        || (is_some dto.active || is_some dto.translations))))))

-- The row after a write, in the administrators' view.
abbrev pub refreshed : CatalogPlatform → String → Option String → Action (List Cert) CatalogItem
refreshed env id lang = do
  found ← gets (find (cert_has_id id))
  cert ← or_raise found (not_found "EntityNotFoundError")
  pure (detail_of env (catalog_locale lang) true cert)

-- The write of the patch, if it has a field.
abbrev pub write_patch :
    CatalogPlatform
    → String
    → UpdateCert
    → ℕ
    → Option String
    → Cert
    → Action (List Cert) CatalogItem
write_patch env id dto now lang cert = do
  let patch = patch_cert dto (patched_translations dto cert) now
  modify (λ s. if has_patch dto then update (cert_has_id id) patch s else s)
  refreshed env id lang

unfoldable pub update_certificate :
    CatalogPlatform → String → UpdateCert → ℕ → Option String → Action (List Cert) CatalogItem
update_certificate env id dto now lang = do
  found ← gets (find (cert_has_id id))
  cert ← or_raise found (not_found "Certificate not found")
  refuse_clash id (new_code dto.program_code cert)
  write_patch env id dto now lang cert

-- The first key that is no supported locale.
abbrev pub unsupported : Translations → Option String
unsupported [] = none
unsupported ((key, block) ∷ rest) = if is_locale key then unsupported rest else some key

abbrev pub refuse_locale : Option String → Action (List Cert) (Unit {0})
refuse_locale none = pure tt
refuse_locale (some key) = raise (bad_request ("Unsupported locale: '" ++ key ++ "'"))

-- The English title of the translations overrides the canonical one.
abbrev pub title_override : Translations → Cert → String
title_override merged cert = or_else (non_empty (field_of (lookup merged "en") "title")) cert.title

abbrev pub set_translations : Translations → String → ℕ → Cert → Cert
set_translations merged title now c = record c {
  title = title;
  translations = merged;
  updated_at = now;
}

unfoldable pub update_translations :
    CatalogPlatform → String → Translations → ℕ → Option String → Action (List Cert) CatalogItem
update_translations env id incoming now lang = do
  found ← gets (find (cert_has_id id))
  cert ← or_raise found (not_found "Certificate not found")
  refuse_locale (unsupported incoming)
  let merged = merge cert.translations incoming
  modify (update (cert_has_id id) (set_translations merged (title_override merged cert) now))
  refreshed env id lang

abbrev pub retire_cert : ℕ → Cert → Cert
retire_cert now c = record c { active = false; updated_at = now }

unfoldable pub soft_delete_certificate : String → ℕ → Action (List Cert) (String × Bool)
soft_delete_certificate id now = do
  found ← gets (find (cert_has_id id))
  raise_if (is_none found) (not_found "Certificate not found")
  modify (update (cert_has_id id) (retire_cert now))
  pure (id, false)
