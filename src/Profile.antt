-- ===== src/Profile.antt =====
-- `ProfileService` of src/modules/profile/profile.service.ts: what a student reads and changes of
-- the own row. The lengths of the texts are taken to be those that the validation of
-- src/modules/profile/dto/update-profile.dto.ts lets pass.
pub mod Protected
use Prim.Native.String.{String, ◌++◌}
use ios_backend.Base.{
  ℕ, Bool, true, false, Option, none, some, ◌==◌, List, [], ◌∷◌, is_empty, lookup, if◌then◌else◌,
  find, update, Action, pure, gets, modify, raise_if, or_raise, ◌>>=◌, ◌>>◌, not_found, failure,
}
use ios_backend.Common.I18n.{is_locale, direction_for, Direction, default_locale}
use ios_backend.Auth.Types.{User}

-- The row of a user, with the columns that the authentication does not read.
pub record ProfileRow : Type 0 where
  pub user : User
  pub avatar_url : Option String
  pub created_at : ℕ
  pub updated_at : ℕ

-- `UPDATABLE_FIELDS`, in the order of the list.
pub data ProfileField : Type 0 where
  first_name last_name phone locale country city street address postal_code occupation position
        company avatar_url :
      ProfileField

abbrev pub updatable_fields : List ProfileField
updatable_fields =
    first_name ∷ last_name ∷ phone ∷ locale ∷ country ∷ city ∷ street ∷ address ∷ postal_code
    ∷ occupation ∷ position ∷ company ∷ avatar_url ∷ []

-- The name of the field in a request.
abbrev pub key_of : ProfileField → String
key_of first_name = "firstName"
key_of last_name = "lastName"
key_of phone = "phone"
key_of locale = "locale"
key_of country = "country"
key_of city = "city"
key_of street = "street"
key_of address = "address"
key_of postal_code = "postalCode"
key_of occupation = "occupation"
key_of position = "position"
key_of company = "company"
key_of avatar_url = "avatarUrl"

-- A column that is not nullable keeps its text where it is set to null, which Postgres refuses
-- before any row changes.
abbrev pub text_or : Option String → String → String
text_or none old = old
text_or (some text) old = text

abbrev pub set_field : ProfileField → Option String → ProfileRow → ProfileRow
set_field first_name v r = record r {
  user = record r.user { first_name = text_or v r.user.first_name };
}
set_field last_name v r = record r {
  user = record r.user { last_name = text_or v r.user.last_name };
}
set_field phone v r = record r { user = record r.user { phone = v } }
set_field locale v r = record r { user = record r.user { locale = text_or v r.user.locale } }
set_field country v r = record r { user = record r.user { country = v } }
set_field city v r = record r { user = record r.user { city = v } }
set_field street v r = record r { user = record r.user { street = v } }
set_field address v r = record r { user = record r.user { address = v } }
set_field postal_code v r = record r { user = record r.user { postal_code = v } }
set_field occupation v r = record r { user = record r.user { occupation = v } }
set_field position v r = record r { user = record r.user { position = v } }
set_field company v r = record r { user = record r.user { company = v } }
set_field avatar_url v r = record r { avatar_url = v }

abbrev pub is_required : ProfileField → Bool
is_required first_name = true
is_required last_name = true
is_required phone = false
is_required locale = true
is_required country = false
is_required city = false
is_required street = false
is_required address = false
is_required postal_code = false
is_required occupation = false
is_required position = false
is_required company = false
is_required avatar_url = false

-- The own properties of a request body, whatever it holds: a key, and a text or null.
abbrev pub RequestBody : Type 0
RequestBody = List (String × Option String)

abbrev pub Patch : Type 0
Patch = List (ProfileField × Option String)

abbrev add_given : ProfileField → Option (Option String) → Patch → Patch
add_given field none rest = rest
add_given field (some value) rest = (field, value) ∷ rest

-- The loop over the fields that may be changed.
abbrev pub patch_of : RequestBody → List ProfileField → Patch
patch_of dto [] = []
patch_of dto (field ∷ fields) = add_given field (lookup dto (key_of field)) (patch_of dto fields)

abbrev pub apply_patch : Patch → ProfileRow → ProfileRow
apply_patch [] r = r
apply_patch ((field, value) ∷ rest) r = apply_patch rest (set_field field value r)

abbrev pub is_null_of : Bool → Option String → Bool
is_null_of false value = false
is_null_of true none = true
is_null_of true (some text) = false

-- A null for a column that needs a text.
abbrev pub violates : Patch → Bool
violates [] = false
violates ((field, value) ∷ rest) =
    let others = violates rest in if is_null_of (is_required field) value then true else others

abbrev pub row_has_id : String → ProfileRow → Bool
row_has_id user_id r = r.user.id == user_id

-- `ProfileResponseDto`; times stand for their texts.
pub record ProfileResponse : Type 0 where
  pub id : String
  pub email : String
  pub first_name : String
  pub last_name : String
  pub full_name : String
  pub phone : Option String
  pub avatar_url : Option String
  pub country : Option String
  pub city : Option String
  pub street : Option String
  pub address : Option String
  pub postal_code : Option String
  pub occupation : Option String
  pub position : Option String
  pub company : Option String
  pub locale : String
  pub direction : Direction
  pub email_verified : Bool
  pub created_at : ℕ
  pub updated_at : ℕ

abbrev pub shown_locale : String → String
shown_locale raw = if is_locale raw then raw else default_locale

-- `trim` is that of the runtime.
unfoldable pub to_response_dto : (String → String) → ProfileRow → ProfileResponse
unfolding direction_for is_locale
to_response_dto trim r =
    let u = r.user in
    record {
      id = u.id;
      email = u.email;
      first_name = u.first_name;
      last_name = u.last_name;
      full_name = trim (u.first_name ++ " " ++ u.last_name);
      phone = u.phone;
      avatar_url = r.avatar_url;
      country = u.country;
      city = u.city;
      street = u.street;
      address = u.address;
      postal_code = u.postal_code;
      occupation = u.occupation;
      position = u.position;
      company = u.company;
      locale = shown_locale u.locale;
      direction = direction_for (shown_locale u.locale);
      email_verified = u.email_verified;
      created_at = r.created_at;
      updated_at = r.updated_at;
    }

unfoldable pub get_profile : (String → String) → String → Action (List ProfileRow) ProfileResponse
unfolding to_response_dto
get_profile trim user_id = do
  found ← gets (find (row_has_id user_id))
  row ← or_raise found (not_found "Profile not found")
  pure (to_response_dto trim row)

-- `findOneOrFail` after the write.
abbrev pub reload : (String → String) → String → Action (List ProfileRow) ProfileResponse
reload trim user_id = do
  found ← gets (find (row_has_id user_id))
  row ← or_raise found (not_found "EntityNotFoundError")
  pure (to_response_dto trim row)

-- The write of a patch that has a field; a repository's `update` also sets `updated_at`.
abbrev pub write_profile :
    (String → String) → String → Patch → ℕ → Action (List ProfileRow) ProfileResponse
write_profile trim user_id patch now = do
  raise_if (violates patch) (failure "null value violates not-null constraint")
  modify (update (row_has_id user_id) (λ r. record (apply_patch patch r) { updated_at = now }))
  reload trim user_id

unfoldable pub update_profile :
    (String → String) → String → RequestBody → ℕ → Action (List ProfileRow) ProfileResponse
unfolding to_response_dto
update_profile trim user_id dto now = do
  found ← gets (find (row_has_id user_id))
  row ← or_raise found (not_found "Profile not found")
  let patch = patch_of dto updatable_fields
  (if is_empty patch then pure (to_response_dto trim row) else write_profile trim user_id patch now)
