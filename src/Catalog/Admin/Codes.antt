-- ===== src/Catalog/Admin/Codes.antt =====
-- No two certificates have the same program code, whatever the requests to `create`, `update`,
-- `updateTranslations` and `softDelete` of src/modules/catalog/catalog.service.ts.
use ios_backend.Base.{
  ℕ, none, some, String, List, [], ◌∷◌, ◌≡◌, ◌≢◌, refl, sym, subst, Option-cases, inl, inr, arith,
  find, count, update, has_key,
}
use ios_backend.Common.I18n.{Translations}
use ios_backend.Catalog.Types.{
  Cert, CreateCert, UpdateCert, CatalogPlatform, cert_has_id, cert_has_code,
}
use ios_backend.Catalog.Admin.{
  create_certificate, update_certificate, update_translations, soft_delete_certificate, unsupported,
  set_translations, title_override, retire_cert,
}
use ios_backend.Learning.Translations.{merge}
use ios_backend.Catalog.Admin.Clash.{
  cert_id, cert_code, HasUniqueCodes, update-HasUniqueCodes, refreshed_store,
  update_cert-HasUniqueCodes,
}

-- An administrator's request, with the id and the time that it draws.
pub data AdminRequest : Type 0 where
  create_request : CreateCert → String → ℕ → AdminRequest
  update_request : String → UpdateCert → ℕ → AdminRequest
  translate_request : String → Translations → ℕ → AdminRequest
  delete_request : String → ℕ → AdminRequest

-- The table after a request, answered or refused.
abbrev pub after_request : CatalogPlatform → AdminRequest → List Cert → List Cert
after_request env (create_request dto id now) s = (create_certificate env dto id now none s).1
after_request env (update_request id dto now) s = (update_certificate env id dto now none s).1
after_request env (translate_request id incoming now) s =
    (update_translations env id incoming now none s).1
after_request env (delete_request id now) s = (soft_delete_certificate id now s).1

abbrev pub after_requests : CatalogPlatform → List AdminRequest → List Cert → List Cert
after_requests env [] s = s
after_requests env (r ∷ rs) s = after_requests env rs (after_request env r s)

-- A new id is fresh, and an update gives no empty program code, which its DTO refuses.
abbrev pub IsAdmissible : AdminRequest → List Cert → Type 0
IsAdmissible (create_request dto id now) s = count (has_key cert_id id) s ≡ 0
IsAdmissible (update_request id dto now) s = dto.program_code ≢ some ""
IsAdmissible (translate_request id incoming now) s = Unit
IsAdmissible (delete_request id now) s = Unit

abbrev pub AllAdmissible : CatalogPlatform → List AdminRequest → List Cert → Type 0
AllAdmissible env [] s = Unit
AllAdmissible env (r ∷ rs) s = IsAdmissible r s × AllAdmissible env rs (after_request env r s)

find-count :
    (k : String) (s : List Cert)
    → find (cert_has_code k) s ≡ none
    → count (has_key cert_code k) s ≡ 0
find-count k [] h = refl
find-count k (c ∷ cs) h = ground (arith, find-count k cs)

create-HasUniqueCodes :
    (env : CatalogPlatform) (dto : CreateCert) (id : String) (now : ℕ) (s : List Cert)
    → count (has_key cert_id id) s ≡ 0
    → HasUniqueCodes s
    → HasUniqueCodes (create_certificate env dto id now none s).1
unfolding create_certificate
create-HasUniqueCodes env dto id now s fresh u =
    elim (Option-cases (find (cert_has_code dto.program_code) s)) [
      | inl e ↦ rw e ((fresh, u.0), (find-count dto.program_code s e, u.1))
      | inr (c, e) ↦ rw e u
    ]

translate-HasUniqueCodes :
    (env : CatalogPlatform) (id : String) (incoming : Translations) (now : ℕ) (s : List Cert)
    → HasUniqueCodes s
    → HasUniqueCodes (update_translations env id incoming now none s).1
unfolding update_translations
translate-HasUniqueCodes env id incoming now s u = elim (Option-cases (find (cert_has_id id) s)) [
  | inl e ↦ rw e u
  | inr (c, e) ↦
      let merged = merge c.translations incoming in
      let write = set_translations merged (title_override merged c) now in
      elim (Option-cases (unsupported incoming)) [
        | inl k ↦
            rw (e, k)
              (subst HasUniqueCodes
                (sym (refreshed_store env id none (update (cert_has_id id) write s)))
                (update-HasUniqueCodes id write s (λ d. refl) (λ d. refl) u))
        | inr (key, k) ↦ rw (e, k) u
      ]
]

delete-HasUniqueCodes :
    (id : String) (now : ℕ) (s : List Cert)
    → HasUniqueCodes s
    → HasUniqueCodes (soft_delete_certificate id now s).1
unfolding soft_delete_certificate
delete-HasUniqueCodes id now s u = elim (Option-cases (find (cert_has_id id) s)) [
  | inl e ↦ rw e u
  | inr (c, e) ↦ rw e (update-HasUniqueCodes id (retire_cert now) s (λ d. refl) (λ d. refl) u)
]

request-HasUniqueCodes :
    (env : CatalogPlatform) (r : AdminRequest) (s : List Cert)
    → IsAdmissible r s
    → HasUniqueCodes s
    → HasUniqueCodes (after_request env r s)
request-HasUniqueCodes env (create_request dto id now) s h u =
    create-HasUniqueCodes env dto id now s h u
request-HasUniqueCodes env (update_request id dto now) s h u =
    update_cert-HasUniqueCodes env id dto now s h u
request-HasUniqueCodes env (translate_request id incoming now) s h u =
    translate-HasUniqueCodes env id incoming now s u
request-HasUniqueCodes env (delete_request id now) s h u = delete-HasUniqueCodes id now s u

-- Ids and program codes stay distinct along any sequence of the administrators' requests, answered
-- or refused, if each new id is fresh and no update gives an empty program code. Requests are taken
-- to run one after another.
pub after_requests-HasUniqueCodes :
    (env : CatalogPlatform) (rs : List AdminRequest) (s : List Cert)
    → AllAdmissible env rs s
    → HasUniqueCodes s
    → HasUniqueCodes (after_requests env rs s)
after_requests-HasUniqueCodes env [] s h u = u
after_requests-HasUniqueCodes env (r ∷ rs) s h u =
    after_requests-HasUniqueCodes env rs (after_request env r s) h.1
      (request-HasUniqueCodes env r s h.0 u)
