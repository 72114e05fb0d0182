-- ===== src/Auth/Accounts.antt =====
-- The flows of src/modules/auth/auth.service.ts: `register`, `verifyEmail`, `forgotPassword`,
-- `resetPassword` and `changePassword`. Of a mail, the addressee and the token are modelled, not
-- the text; `MailService.send` does not fail (it logs what the provider answers).
pub mod Passwords
use ios_backend.Base.{
  ℕ, Bool, true, false, not, Option, none, some, String, ◌==◌, ◌∷◌, is_some, or_else, if◌then◌else◌,
  find, update, Action, pure, raise, gets, modify, raise_if, ◌>>=◌, ◌>>◌, bad_request, unauthorized,
  conflict,
}
use ios_backend.Auth.Types.{
  AccountType, User, AuthTokenPurpose, EmailParams, AuthDb, user_has_id, user_has_email,
}
use ios_backend.Auth.Platform.{AuthPlatform}
use ios_backend.Auth.Tokens.{
  FreshToken, issue_auth_token, consume_auth_token, revoke_all_refresh_tokens,
}

abbrev pub bcrypt_password_cost : ℕ
bcrypt_password_cost = 12

abbrev pub email_verification_ttl_hours : ℕ
email_verification_ttl_hours = 24

abbrev pub password_reset_ttl_hours : ℕ
password_reset_ttl_hours = 1

pub record RegisterDto : Type 0 where
  pub email : String
  pub password : String
  pub first_name : String
  pub last_name : String
  pub phone : Option String
  pub locale : Option String
  pub country : Option String
  pub city : Option String
  pub street : Option String
  pub address : Option String
  pub postal_code : Option String
  pub occupation : Option String
  pub position : Option String
  pub company : Option String

-- What a registration draws.
pub record FreshUser : Type 0 where
  pub id : String
  pub salt : String
  pub token : FreshToken

abbrev pub set_password : String → User → User
set_password h u = record u { password_hash = h }

abbrev pub set_verified : ℕ → User → User
set_verified now u = record u { email_verified = true; email_verified_at = some now }

module _ (env : AuthPlatform) where
  open env use {bcrypt, trim, to_lower_case}

  abbrev pub normalised : String → String
  normalised email = to_lower_case (trim email)

  abbrev pub new_user : RegisterDto → FreshUser → User
  new_user dto fresh = record {
    id = fresh.id;
    email = normalised dto.email;
    password_hash = bcrypt.hash dto.password bcrypt_password_cost fresh.salt;
    first_name = dto.first_name;
    last_name = dto.last_name;
    phone = dto.phone;
    country = dto.country;
    city = dto.city;
    street = dto.street;
    address = dto.address;
    postal_code = dto.postal_code;
    occupation = dto.occupation;
    position = dto.position;
    company = dto.company;
    locale = or_else dto.locale "en";
    email_verified = false;
    email_verified_at = none;
    active = true;
  }

  abbrev send : EmailParams → Action AuthDb (Unit {0})
  send mail = modify (λ s. record s { mails = mail ∷ s.mails })

  unfoldable pub dispatch_verification_email : User → FreshToken → ℕ → Action AuthDb (Unit {0})
  unfolding issue_auth_token
  dispatch_verification_email user fresh now = do
    plain_token ←
        issue_auth_token env user.id AuthTokenPurpose.email_verification
          email_verification_ttl_hours fresh now
    send (EmailParams.verification_email user.email user.id plain_token)

  unfoldable pub register : RegisterDto → FreshUser → ℕ → Action AuthDb String
  unfolding dispatch_verification_email
  register dto fresh now = do
    existing ← gets (λ s. find (user_has_email (normalised dto.email)) s.users)
    raise_if (is_some existing) (conflict "Email is unavailable")
    modify (λ s. record s { users = new_user dto fresh ∷ s.users })
    dispatch_verification_email (new_user dto fresh) fresh.token now
    pure fresh.id

  unfoldable pub verify_email : String → ℕ → Action AuthDb String
  unfolding consume_auth_token
  verify_email plain now = do
    user_id ← consume_auth_token env plain AuthTokenPurpose.email_verification now
    modify (λ s. record s { users = update (user_has_id user_id) (set_verified now) s.users })
    pure "Email verified. You can now log in."

  abbrev send_reset : Option User → FreshToken → ℕ → Action AuthDb (Unit {0})
  unfolding issue_auth_token
  send_reset none fresh now = pure tt
  send_reset (some user) fresh now =
      if user.active
      then (do
        plain_token ←
            issue_auth_token env user.id AuthTokenPurpose.password_reset password_reset_ttl_hours
              fresh now
        send (EmailParams.password_reset_email user.email user.id plain_token))
      else pure tt

  unfoldable pub forgot_password : String → FreshToken → ℕ → Action AuthDb String
  unfolding issue_auth_token
  forgot_password email fresh now = do
    user ← gets (λ s. find (user_has_email (normalised email)) s.users)
    send_reset user fresh now
    pure "If an account exists for that email, a reset link has been sent."

  -- Both ways to a new password end with this: the hash is written, and the sessions end.
  abbrev pub write_password : String → String → String → ℕ → Action AuthDb (Unit {0})
  unfolding revoke_all_refresh_tokens
  write_password user_id new_password salt now = do
    modify (λ s. record s {
      users =
          update (user_has_id user_id)
            (set_password (bcrypt.hash new_password bcrypt_password_cost salt)) s.users;
    })
    revoke_all_refresh_tokens user_id AccountType.student now

  unfoldable pub reset_password : String → String → String → ℕ → Action AuthDb String
  unfolding consume_auth_token revoke_all_refresh_tokens
  reset_password plain new_password salt now = do
    user_id ← consume_auth_token env plain AuthTokenPurpose.password_reset now
    write_password user_id new_password salt now
    pure "Password reset successful. Please log in."

  abbrev change_of : Option User → String → String → String → String → ℕ → Action AuthDb String
  unfolding revoke_all_refresh_tokens
  change_of none user_id current_password new_password salt now =
      raise (unauthorized "Invalid credentials")
  change_of (some user) user_id current_password new_password salt now = do
    raise_if (not user.active) (unauthorized "Invalid credentials")
    raise_if (not (bcrypt.compare current_password user.password_hash))
        (unauthorized "Invalid credentials")
    write_password user_id new_password salt now
    pure "Password changed. All active sessions have been signed out — please log in again."

  unfoldable pub change_password : String → String → String → String → ℕ → Action AuthDb String
  unfolding revoke_all_refresh_tokens
  change_password user_id current_password new_password salt now = do
    raise_if (current_password == new_password)
        (bad_request "New password must be different from current password")
    user ← gets (λ s. find (user_has_id user_id) s.users)
    change_of user user_id current_password new_password salt now
