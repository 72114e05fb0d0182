-- ===== src/Catalog/Admin/Clash.antt =====
-- The test of `update` of src/modules/catalog/catalog.service.ts for another certificate of the
-- same program code.
use ios_backend.Base.{
  ℕ, false, Option, none, some, String, List, ◌==◌, ◌≡◌, ◌≢◌, refl, sym, ap, subst, Bool-cases,
  Option-cases, inl, inr, arith, find, update, or_else, eq_iff, HasUniqueKeys, has_key,
  update-HasUniqueKeys, HeldBy, unheld, sole_holder, rekeyed-HasUniqueKeys, find_holds, bind_ok,
  bind_err, ok, err, Exception, conflict, ◌⊎◌, ◌∙◌, if◌then◌else◌, eq_refl,
}
use ios_backend.Common.I18n.{Translations}
use ios_backend.Catalog.Types.{Cert, UpdateCert, CatalogPlatform, cert_has_id, cert_has_code}
use ios_backend.Catalog.Admin.{
  update_certificate, patch_cert, patched_translations, new_code, is_clash, refuse_clash, has_patch,
  code_taken, write_patch, refreshed,
}

abbrev pub cert_id : Cert → String
cert_id c = c.id

abbrev pub cert_code : Cert → String
cert_code c = c.program_code

-- Distinct ids and distinct program codes.
abbrev pub HasUniqueCodes : List Cert → Type 0
HasUniqueCodes s = HasUniqueKeys cert_id s × HasUniqueKeys cert_code s

-- A write that leaves the ids and the codes alone.
pub update-HasUniqueCodes :
    (id : String) (f : Cert → Cert) (s : List Cert)
    → ((c : Cert) → (f c).id ≡ c.id)
    → ((c : Cert) → (f c).program_code ≡ c.program_code)
    → HasUniqueCodes s
    → HasUniqueCodes (update (cert_has_id id) f s)
update-HasUniqueCodes id f s same_id same_code u = (
  update-HasUniqueKeys cert_id (cert_has_id id) f s same_id u.0,
  update-HasUniqueKeys cert_code (cert_has_id id) f s same_code u.1,
)

pub refreshed_store :
    (env : CatalogPlatform) (id : String) (lang : Option String) (s : List Cert)
    → (refreshed env id lang s).1 ≡ s
refreshed_store env id lang s = elim (Option-cases (find (cert_has_id id) s)) [
  | inl e ↦ rw e refl
  | inr (c, e) ↦ rw e refl
]

-- Whoever has the program code that is given is the row of the id.
abbrev IsOwnCode : Option String → String → List Cert → Type 0
IsOwnCode none id s = Unit
IsOwnCode (some k) id s = HeldBy cert_code k (has_key cert_id id) s

patched-HasUniqueCodes :
    (id : String) (dto : UpdateCert) (translations : Option Translations) (now : ℕ)
    (given : Option String) (s : List Cert)
    → dto.program_code ≡ given
    → IsOwnCode given id s
    → HasUniqueCodes s
    → HasUniqueCodes (update (cert_has_id id) (patch_cert dto translations now) s)
patched-HasUniqueCodes id dto translations now none s gives held u =
    update-HasUniqueCodes id (patch_cert dto translations now) s (λ d. refl)
      (λ d. ap (λ g. or_else g d.program_code) gives) u
patched-HasUniqueCodes id dto translations now (some k) s gives held u = (
  update-HasUniqueKeys cert_id (cert_has_id id) (patch_cert dto translations now) s (λ d. refl) u.0,
  rekeyed-HasUniqueKeys cert_id cert_code id k (patch_cert dto translations now) s
      (λ d. ap (λ g. or_else g d.program_code == k) gives ∙ eq_refl k) u.0 u.1 held,
)

-- A program code that passes the test for a clash belongs to no other row.
unclashed :
    (id k : String) (s : List Cert)
    → HasUniqueKeys cert_code s
    → is_clash id (find (cert_has_code k) s) ≡ false
    → HeldBy cert_code k (has_key cert_id id) s
unclashed id k s u h = elim (Option-cases (find (cert_has_code k) s)) [
  | inl e ↦ unheld cert_code k (has_key cert_id id) s e
  | inr (c, e) ↦
      sole_holder cert_code k (has_key cert_id id) (cert_has_code k) s c u e
        (find_holds (cert_has_code k) s c e) (ground (arith, e))
]

-- The test for a clash leaves the table alone, and lets only the row's own code pass.
refuse_clash_lem :
    (id : String) (given : Option String) (c : Cert) (s : List Cert)
    → find (cert_has_id id) s ≡ some c
    → given ≢ some ""
    → HasUniqueCodes s
    → ((refuse_clash id (new_code given c) s ≡ (ok tt, s)) × IsOwnCode given id s)
      ⊎ ((e : Exception) × (refuse_clash id (new_code given c) s ≡ (err e, s)))
refuse_clash_lem id none c s found full u = inl (refl, tt)
refuse_clash_lem id (some k) c s found full u =
    let named : (k == "") ≡ false = ground (arith, full, eq_iff k "") in
    elim (Bool-cases (k == c.program_code)) [
      | inl own ↦ inl (
        (let unchanged : new_code (some k) c ≡ none = rw (named, own) refl in
            ap (λ g. refuse_clash id g s) unchanged),
        sole_holder cert_code k (has_key cert_id id) (cert_has_id id) s c u.1 found
            (ground (arith, own, eq_iff k c.program_code, eq_iff c.program_code k))
            (find_holds (cert_has_id id) s c found),
      )
      | inr new ↦
          let changed : new_code (some k) c ≡ some k = rw (named, new) refl in
          elim (Bool-cases (is_clash id (find (cert_has_code k) s))) [
            | inl clash ↦
                inr (conflict (code_taken k), ap (λ g. refuse_clash id g s) changed ∙ rw clash refl)
            | inr free ↦
                inl
                  (ap (λ g. refuse_clash id g s) changed ∙ rw free refl, unclashed id k s u.1 free)
          ]
    ]

write_patch-HasUniqueCodes :
    (env : CatalogPlatform) (id : String) (dto : UpdateCert) (now : ℕ) (c : Cert) (s : List Cert)
    → IsOwnCode dto.program_code id s
    → HasUniqueCodes s
    → HasUniqueCodes (write_patch env id dto now none c s).1
write_patch-HasUniqueCodes env id dto now c s held u =
    let translations = patched_translations dto c in
    let patch = patch_cert dto translations now in
    subst HasUniqueCodes
      (sym (
        refreshed_store env id none (if has_patch dto then update (cert_has_id id) patch s else s)))
      (elim (Bool-cases (has_patch dto)) [
        | inl e ↦
            rw e (patched-HasUniqueCodes id dto translations now dto.program_code s refl held u)
        | inr e ↦ rw e u
      ])

pub update_cert-HasUniqueCodes :
    (env : CatalogPlatform) (id : String) (dto : UpdateCert) (now : ℕ) (s : List Cert)
    → dto.program_code ≢ some ""
    → HasUniqueCodes s
    → HasUniqueCodes (update_certificate env id dto now none s).1
unfolding update_certificate
update_cert-HasUniqueCodes env id dto now s full u = elim (Option-cases (find (cert_has_id id) s)) [
  | inl e ↦ rw e u
  | inr (c, e) ↦
      let check = refuse_clash id (new_code dto.program_code c) in
      let write = λ (x : Unit {0}). write_patch env id dto now none c in
      elim (refuse_clash_lem id dto.program_code c s e full u) [
        | inl (passes, held) ↦ rw e (
            subst (λ o. HasUniqueCodes o.1) (sym (bind_ok check write s tt s passes))
              (write_patch-HasUniqueCodes env id dto now c s held u))
        | inr (x, refused) ↦
            rw e (subst (λ o. HasUniqueCodes o.1) (sym (bind_err check write s x s refused)) u)
      ]
]
