-- ===== src/Profile/Protected.antt =====
-- What a student cannot change through src/modules/profile/profile.service.ts.
use ios_backend.Base.{
  ℕ, Bool, Option, String, List, [], ◌∷◌, map, ◌≡◌, refl, ap, ◌∙◌, Bool-cases, Option-cases, inl,
  inr, is_empty, find, update,
}
use ios_backend.Profile.{
  ProfileRow, ProfileField, RequestBody, Patch, set_field, apply_patch, patch_of, updatable_fields,
  violates, row_has_id, reload, write_profile, update_profile,
}

-- The columns that decide who the account belongs to and what it may do.
pub record Protected : Type 0 where
  pub id : String
  pub email : String
  pub password_hash : String
  pub email_verified : Bool
  pub email_verified_at : Option ℕ
  pub active : Bool

abbrev pub protected_of : ProfileRow → Protected
protected_of r = record {
  id = r.user.id;
  email = r.user.email;
  password_hash = r.user.password_hash;
  email_verified = r.user.email_verified;
  email_verified_at = r.user.email_verified_at;
  active = r.user.active;
}

set_field-protected_of :
    (field : ProfileField) (value : Option String) (r : ProfileRow)
    → protected_of (set_field field value r) ≡ protected_of r
set_field-protected_of ProfileField.first_name value r = refl
set_field-protected_of ProfileField.last_name value r = refl
set_field-protected_of ProfileField.phone value r = refl
set_field-protected_of ProfileField.locale value r = refl
set_field-protected_of ProfileField.country value r = refl
set_field-protected_of ProfileField.city value r = refl
set_field-protected_of ProfileField.street value r = refl
set_field-protected_of ProfileField.address value r = refl
set_field-protected_of ProfileField.postal_code value r = refl
set_field-protected_of ProfileField.occupation value r = refl
set_field-protected_of ProfileField.position value r = refl
set_field-protected_of ProfileField.company value r = refl
set_field-protected_of ProfileField.avatar_url value r = refl

apply_patch-protected_of :
    (patch : Patch) (r : ProfileRow) → protected_of (apply_patch patch r) ≡ protected_of r
apply_patch-protected_of [] r = refl
apply_patch-protected_of ((field, value) ∷ rest) r =
    apply_patch-protected_of rest (set_field field value r) ∙ set_field-protected_of field value r

map-update :
    (user_id : String) (f : ProfileRow → ProfileRow) (rows : List ProfileRow)
    → ((r : ProfileRow) → protected_of (f r) ≡ protected_of r)
    → map protected_of (update (row_has_id user_id) f rows) ≡ map protected_of rows
map-update user_id f [] same = refl
map-update user_id f (r ∷ rs) same = elim (Bool-cases (row_has_id user_id r)) [
  | inl e ↦ rw e (
      ap (λ p. p ∷ map protected_of (update (row_has_id user_id) f rs)) (same r)
      ∙ ap (λ ps. protected_of r ∷ ps) (map-update user_id f rs same))
  | inr e ↦ rw e (ap (λ ps. protected_of r ∷ ps) (map-update user_id f rs same))
]

reload_store :
    (trim : String → String) (user_id : String) (s : List ProfileRow)
    → (reload trim user_id s).1 ≡ s
reload_store trim user_id s = elim (Option-cases (find (row_has_id user_id) s)) [
  | inl e ↦ rw e refl
  | inr (r, e) ↦ rw e refl
]

write_profile-protected_of :
    (trim : String → String) (user_id : String) (patch : Patch) (now : ℕ) (s : List ProfileRow)
    → map protected_of (write_profile trim user_id patch now s).1 ≡ map protected_of s
write_profile-protected_of trim user_id patch now s =
    let f : ProfileRow → ProfileRow = λ r. record (apply_patch patch r) { updated_at = now } in
    let kept = map-update user_id f s (λ r. apply_patch-protected_of patch r) in
    elim (Bool-cases (violates patch)) [
      | inl e ↦ rw e refl
      | inr e ↦ rw e (
          ap (map protected_of) (reload_store trim user_id (update (row_has_id user_id) f s))
          ∙ kept)
    ]

-- Whatever keys a request body has, with texts or nulls, an update of a profile changes nobody's id,
-- address, password, verification or activation, in any row.
pub update_profile-protected_of :
    (trim : String → String) (user_id : String) (dto : RequestBody) (now : ℕ) (s : List ProfileRow)
    → map protected_of (update_profile trim user_id dto now s).1 ≡ map protected_of s
unfolding update_profile
update_profile-protected_of trim user_id dto now s =
    let patch = patch_of dto updatable_fields in
    elim (Option-cases (find (row_has_id user_id) s)) [
      | inl gone ↦ rw gone refl
      | inr (r, found) ↦ elim (Bool-cases (is_empty patch)) [
        | inl e ↦ rw (found, e) refl
        | inr e ↦ rw (found, e) (write_profile-protected_of trim user_id patch now s)
      ]
    ]
