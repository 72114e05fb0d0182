-- ===== src/Auth/Types.antt =====
-- The rows that src/modules/auth/auth.service.ts works on (user.entity.ts, admin-user.entity.ts,
-- auth-token.entity.ts and auth-misc.entity.ts under src/database/entities), the claims of the
-- tokens (src/modules/auth/types), and the tables with the serials of their ids.
use ios_backend.Base.{
  ℕ, Bool, true, false, Option, String, List, ◌==◌, ◌&&◌, nat_eq, is_none, is_text,
}

pub data AccountType : Type 0 where
  student admin : AccountType

pub data AdminRole : Type 0 where
  super_admin learning_admin content_creator finance_admin support_admin : AdminRole

pub record User : Type 0 where
  pub id : String
  pub email : String
  pub password_hash : String
  pub first_name : String
  pub last_name : String
  pub phone : Option String
  pub country : Option String
  pub city : Option String
  pub street : Option String
  pub address : Option String
  pub postal_code : Option String
  pub occupation : Option String
  pub position : Option String
  pub company : Option String
  pub locale : String
  pub email_verified : Bool
  pub email_verified_at : Option ℕ
  pub active : Bool

pub record AdminUser : Type 0 where
  pub id : String
  pub email : String
  pub password_hash : String
  pub first_name : String
  pub last_name : String
  pub role : AdminRole
  pub locale : String
  pub active : Bool

pub data TokenOwnerType : Type 0 where
  user_owner admin_owner : TokenOwnerType

pub record RefreshToken : Type 0 where
  pub id : ℕ
  pub user_id : Option String
  pub admin_id : Option String
  pub owner_type : TokenOwnerType
  pub token_hash : String
  pub expires_at : ℕ
  pub revoked_at : Option ℕ

pub data AuthTokenPurpose : Type 0 where
  email_verification password_reset : AuthTokenPurpose

abbrev pub same_purpose : AuthTokenPurpose → AuthTokenPurpose → Bool
same_purpose email_verification email_verification = true
same_purpose email_verification password_reset = false
same_purpose password_reset email_verification = false
same_purpose password_reset password_reset = true

pub record AuthToken : Type 0 where
  pub id : ℕ
  pub user_id : String
  pub purpose : AuthTokenPurpose
  pub token_hash : String
  pub expires_at : ℕ
  pub used_at : Option ℕ

pub record AccessTokenPayload : Type 0 where
  pub sub : String
  pub account_type : AccountType
  pub email : String
  pub locale : String
  pub role : Option AdminRole

pub record RefreshTokenPayload : Type 0 where
  pub sub : String
  pub account_type : AccountType
  pub jti : ℕ

pub record AuthUser : Type 0 where
  pub id : String
  pub email : String
  pub first_name : String
  pub last_name : String
  pub full_name : String
  pub locale : String
  pub email_verified : Bool
  pub account_type : AccountType
  pub role : Option AdminRole

pub record LoginResponse : Type 0 where
  pub access_token : String
  pub expires_in : ℕ
  pub user : AuthUser

pub record Login : Type 0 where
  pub login : LoginResponse
  pub refresh_token : String

-- The mails of the flows: which template, to whom, with which token in the link.
pub data EmailParams : Type 0 where
  verification_email password_reset_email : String → String → String → EmailParams

-- The tables, the next values of the two serial ids, and the mails handed to the mail service.
pub record AuthDb : Type 0 where
  pub users : List User
  pub admins : List AdminUser
  pub refresh_tokens : List RefreshToken
  pub auth_tokens : List AuthToken
  pub next_refresh_id : ℕ
  pub next_auth_id : ℕ
  pub mails : List EmailParams

-- The `where` conditions of the queries.
abbrev pub user_has_id : String → User → Bool
user_has_id id u = u.id == id

abbrev pub user_has_email : String → User → Bool
user_has_email email u = u.email == email

abbrev pub admin_has_id : String → AdminUser → Bool
admin_has_id id a = a.id == id

abbrev pub admin_has_email : String → AdminUser → Bool
admin_has_email email a = a.email == email

abbrev pub refresh_has_id : ℕ → RefreshToken → Bool
refresh_has_id id t = nat_eq t.id id

abbrev pub is_unrevoked_with_id : ℕ → RefreshToken → Bool
is_unrevoked_with_id id t = nat_eq t.id id && is_none t.revoked_at

abbrev pub belongs_to : String → AccountType → RefreshToken → Bool
belongs_to subject_id AccountType.admin t = is_text t.admin_id subject_id
belongs_to subject_id AccountType.student t = is_text t.user_id subject_id

abbrev pub is_unrevoked_of : String → AccountType → RefreshToken → Bool
is_unrevoked_of subject_id kind t = belongs_to subject_id kind t && is_none t.revoked_at

abbrev pub is_unused_of : String → AuthTokenPurpose → AuthToken → Bool
is_unused_of user_id purpose t =
    (t.user_id == user_id && same_purpose t.purpose purpose) && is_none t.used_at

abbrev pub is_unused_for_purpose : AuthTokenPurpose → AuthToken → Bool
is_unused_for_purpose purpose t = same_purpose t.purpose purpose && is_none t.used_at

abbrev pub is_unused_token : ℕ → AuthToken → Bool
is_unused_token id t = nat_eq t.id id && is_none t.used_at
