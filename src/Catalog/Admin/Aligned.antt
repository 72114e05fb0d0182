-- ===== src/Catalog/Admin/Aligned.antt =====
-- The translations of a certificate and its canonical columns, through `update` and
-- `updateTranslations` of src/modules/catalog/catalog.service.ts.
use ios_backend.Base.{
  ℕ, true, Option, none, some, String, List, [], ◌≡◌, refl, sym, ap, subst, ◌∙◌, Bool-cases,
  Option-cases, Outcome-cases, inl, inr, arith, find, update, is_some, or_else, lookup,
  if◌then◌else◌, ◌>>=◌, Action, ok, bind_ok, bind_err, find-update,
}
use ios_backend.Common.I18n.{Translations}
use ios_backend.Learning.Translations.{
  set_key, merge, english_block, build_translations, HasUniqueLocales, layered,
  lookup-build_translations,
}
use ios_backend.Catalog.Types.{Cert, UpdateCert, CatalogItem, CatalogPlatform, cert_has_id}
use ios_backend.Catalog.Admin.{
  build_cert_translations, canonical_english, update_certificate, patch_cert, patched_translations,
  new_code, refuse_clash, write_patch, has_patch,
}
use ios_backend.Catalog.Admin.Clash.{refreshed_store}

english_lem :
    (title : String) (description : Option String)
    → canonical_english title description ≡ english_block title description "description"
english_lem title none = refl
english_lem title (some description) = refl

-- The catalog and the learning service build translations alike: for every request and every
-- state of the row, the catalog's routine gives what the learning service's gives for a
-- description.
pub build_cert_translations-build_translations :
    (existing : Translations) (dto : Option Translations) (title : String) (body : Option String)
    → build_cert_translations existing dto title body
      ≡ build_translations existing dto title body "description"
unfolding build_cert_translations build_translations
build_cert_translations-build_translations existing dto title body =
    elim (Bool-cases (is_some (lookup (or_else dto []) "en"))) [
      | inl e ↦ rw e refl
      | inr e ↦ rw e (
          ap (λ block. set_key "en" block (merge existing (or_else dto [])))
            (english_lem title body))
    ]

refuse_clash_store :
    (id : String) (given : Option String) (s : List Cert) → (refuse_clash id given s).1 ≡ s
refuse_clash_store id none s = refl
refuse_clash_store id (some k) s = refl

-- A title that is given makes a patch.
written :
    (id : String) (dto : UpdateCert) (patch : Cert → Cert) (title : String) (s : List Cert)
    → dto.title ≡ some title
    → (if has_patch dto then update (cert_has_id id) patch s else s)
      ≡ update (cert_has_id id) patch s
written id dto patch title s given =
    let patched : has_patch dto ≡ true = ground (arith, given) in
    ap (λ b. if b then update (cert_has_id id) patch s else s) patched

-- The row after an answered update, from the row before it.
update_row :
    (env : CatalogPlatform) (id : String) (dto : UpdateCert) (now : ℕ) (lang : Option String)
    (title : String) (s t : List Cert) (item : CatalogItem)
    → dto.title ≡ some title
    → update_certificate env id dto now lang s ≡ (ok item, t)
    → (c : Cert) × (find (cert_has_id id) s ≡ some c)
      × (find (cert_has_id id) t ≡ some (patch_cert dto (patched_translations dto c) now c))
unfolding update_certificate
update_row env id dto now lang title s t item given h =
    elim (Option-cases (find (cert_has_id id) s)) [
      | inl e ↦ absurd (ground (arith, e))
      | inr (c, e) ↦
          let check = refuse_clash id (new_code dto.program_code c) in
          let write : Unit {0} → Action (List Cert) CatalogItem =
            λ x. write_patch env id dto now lang c in
          let opened : (check >>= write) s ≡ (ok item, t) = rw e at h in
          elim (Outcome-cases (check s)) [
            | inl (x, u, passes) ↦
                let patch = patch_cert dto (patched_translations dto c) now in
                let same : u ≡ s = sym (ap (λ o. o.1) passes) ∙ refuse_clash_store id _ s in
                let rows =
                  subst (λ v. (write x v).1 ≡ t) same
                    (ap (λ o. o.1) (sym (bind_ok check write s x u passes) ∙ opened)) in
                let left =
                  sym (written id dto patch title s given)
                  ∙ sym (refreshed_store env id lang _)
                  ∙ rows in
                (
                  c,
                  e,
                  subst (λ v. find (cert_has_id id) v ≡ some (patch c)) left
                      (find-update (cert_has_id id) patch s c (λ d. refl) e),
                )
            | inr (x, u, refused) ↦ absurd (cc (sym (bind_err check write s x u refused) ∙ opened))
          ]
    ]

-- An update that gives a title and leaves the English entry out keeps the two aligned: afterwards
-- the English entry of the row is its canonical title and description, and the title is the one
-- given.
pub update_certificate-english :
    (env : CatalogPlatform) (id : String) (dto : UpdateCert) (now : ℕ) (lang : Option String)
    (title : String) (s t : List Cert) (item : CatalogItem)
    → dto.title ≡ some title
    → HasUniqueLocales (or_else dto.translations [])
    → lookup (or_else dto.translations []) "en" ≡ none
    → update_certificate env id dto now lang s ≡ (ok item, t)
    → (row : Cert) × (find (cert_has_id id) t ≡ some row)
      × (row.title ≡ title)
      × (lookup row.translations "en" ≡ some (canonical_english row.title row.description))
update_certificate-english env id dto now lang title s t item given distinct no_english h =
    let (c, before, after) = update_row env id dto now lang title s t item given h in
    let row = patch_cert dto (patched_translations dto c) now c in
    let titled : row.title ≡ title = ap (λ g. or_else g c.title) given in
    let rebuilt : row.translations
        ≡ build_cert_translations c.translations dto.translations row.title row.description =
      ground (arith, given) in
    (
      row,
      after,
      titled,
      ap (λ tr. lookup tr "en")
            (rebuilt
              ∙ build_cert_translations-build_translations c.translations dto.translations row.title
                  row.description)
          ∙ lookup-build_translations c.translations dto.translations row.title row.description
              "description" "en" distinct
          ∙ ap (λ o. layered o (some (english_block row.title row.description "description")))
              no_english
          ∙ ap some (sym (english_lem row.title row.description)),
    )
