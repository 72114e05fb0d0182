-- ===== src/Catalog/Admin/Locales.antt =====
-- `updateTranslations` of src/modules/catalog/catalog.service.ts: what it refuses, and the layers
-- that it writes.
use Prim.Native.String.{◌++◌}
use ios_backend.Base.{
  ℕ, true, false, Option, none, some, String, List, [], ◌∷◌, ◌≡◌, refl, sym, ap, ◌∙◌, Memᴰ,
  Bool-cases, Option-cases, inl, inr, find, update, or_else, lookup, ok, err, Exception,
  bad_request, not_found, find-update, bind_ok, or_raise, pure,
}
use ios_backend.Common.I18n.{Block, Translations, field_of, non_empty, is_locale}
use ios_backend.Learning.Translations.{merge, HasUniqueLocales, layered, lookup-merge}
use ios_backend.Catalog.Types.{Cert, CatalogPlatform, cert_has_id}
use ios_backend.Catalog.Rows.{detail_of, catalog_locale}
use ios_backend.Catalog.Admin.{
  update_translations, refreshed, unsupported, set_translations, title_override,
}

unsupported_found :
    (key : String) (block : Block) (incoming : Translations)
    → Memᴰ (key, block) incoming
    → is_locale key ≡ false
    → (bad : String) × (unsupported incoming ≡ some bad)
unsupported_found key block [] m bad = elim m [ ]
unsupported_found key block ((k, b) ∷ rest) (Memᴰ.head e) bad =
    let same : is_locale k ≡ false = ap (λ p. is_locale p.0) (sym e) ∙ bad in (k, rw same refl)
unsupported_found key block ((k, b) ∷ rest) (Memᴰ.tail m) bad = elim (Bool-cases (is_locale k)) [
  | inl e ↦ let (found, first) = unsupported_found key block rest m bad in (found, rw e first)
  | inr e ↦ (k, rw e refl)
]

-- One unsupported locale among the keys, wherever it stands, refuses the whole request: it ends in
-- an exception and no certificate changes.
pub update_translations_refused :
    (env : CatalogPlatform) (id : String) (incoming : Translations) (now : ℕ) (lang : Option String)
    (s : List Cert) (key : String) (block : Block)
    → Memᴰ (key, block) incoming
    → is_locale key ≡ false
    → (e : Exception) × (update_translations env id incoming now lang s ≡ (err e, s))
unfolding update_translations
update_translations_refused env id incoming now lang s key block m bad =
    let (first, at) = unsupported_found key block incoming m bad in
    elim (Option-cases (find (cert_has_id id) s)) [
      | inl e ↦ (not_found "Certificate not found", rw e refl)
      | inr (c, e) ↦ (bad_request ("Unsupported locale: '" ++ first ++ "'"), rw (e, at) refl)
    ]

refreshed_lem :
    (env : CatalogPlatform) (id : String) (lang : Option String) (s : List Cert) (c : Cert)
    → find (cert_has_id id) s ≡ some c
    → refreshed env id lang s ≡ (ok (detail_of env (catalog_locale lang) true c), s)
refreshed_lem env id lang s c h =
    let missing = not_found "EntityNotFoundError" in
    bind_ok (or_raise (find (cert_has_id id) s) missing)
      (λ d. pure (detail_of env (catalog_locale lang) true d)) s c s
      (ap (λ o. or_raise o missing s) h)

-- A request with supported locales is answered, and afterwards each locale that it gives is as
-- given, every other is as before, and the canonical title is the English title of the
-- translations, or as before where they have none.
pub update_translations_layers :
    (env : CatalogPlatform) (id : String) (incoming : Translations) (now : ℕ) (lang : Option String)
    (locale : String) (s : List Cert) (c : Cert)
    → find (cert_has_id id) s ≡ some c
    → unsupported incoming ≡ none
    → HasUniqueLocales incoming
    → (row : Cert) × (t : List Cert) × (update_translations env id incoming now lang s
        ≡ (ok (detail_of env (catalog_locale lang) true row), t))
      × (find (cert_has_id id) t ≡ some row)
      × (lookup row.translations locale
          ≡ layered (lookup incoming locale) (lookup c.translations locale))
      × (row.title ≡ or_else (non_empty (field_of (lookup row.translations "en") "title")) c.title)
unfolding update_translations
update_translations_layers env id incoming now lang locale s c found supported distinct =
    let merged = merge c.translations incoming in
    let write = set_translations merged (title_override merged c) now in
    let after = find-update (cert_has_id id) write s c (λ d. refl) found in
    (
      write c,
      update (cert_has_id id) write s,
      rw (found, supported)
          (refreshed_lem env id lang (update (cert_has_id id) write s) (write c) after),
      after,
      lookup-merge c.translations incoming locale distinct,
      refl,
    )
