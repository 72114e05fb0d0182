-- ===== src/Auth/Sessions.antt =====
-- The sessions of src/modules/auth/auth.service.ts: `loginStudent`, `loginAdmin`, `refresh`,
-- `logout`, `issueStudentSession` and `issueAdminSession`. The comparison with a dummy hash for an
-- account that is missing takes time and has no result, so it does not appear. `rotate` is what
-- `refresh` does after it has read the row, since other requests can come in between.
pub mod Rotation
pub mod RoundTrip
use ios_backend.Base.{
  ℕ, Bool, true, false, not, ◌&&◌, Option, none, some, String, ltb, nat_eq, is_some, if◌then◌else◌,
  find, count, update, Action, Result, ok, err, pure, raise, gets, modify, raise_if, ◌>>=◌, ◌>>◌,
  unauthorized,
}
use Prim.Native.String
use ios_backend.Auth.Types.{
  AccountType, User, AdminUser, RefreshToken, RefreshTokenPayload, AuthUser, Login, AuthDb,
  user_has_id, user_has_email, admin_has_id, admin_has_email, refresh_has_id, is_unrevoked_with_id,
}
use ios_backend.Auth.Platform.{AuthPlatform}
use ios_backend.Auth.Tokens.{issue_refresh_token, revoke_all_refresh_tokens, revoke}
use ios_backend.Auth.Accounts.{normalised}

-- `{ id: payload.jti, revokedAt: IsNull() }` set to revoked.
unfoldable pub logout : RefreshTokenPayload → ℕ → Action AuthDb String
logout payload now = do
  modify (λ s. record s {
    refresh_tokens = update (is_unrevoked_with_id payload.jti) (revoke now) s.refresh_tokens;
  })
  pure "Logged out"

module _ (env : AuthPlatform) where
  open env use {bcrypt, sign_access, trim, access_ttl_sec}

  -- `fullName` of both kinds of account.
  abbrev pub full_name : String → String → String
  full_name first last = trim (String.◌++◌ first (String.◌++◌ " " last))

  abbrev pub student_login : User → ℕ → String → Login
  student_login user now refresh_token = record {
    login = record {
      access_token =
          sign_access
            (record {
              sub = user.id;
              account_type = AccountType.student;
              email = user.email;
              locale = user.locale;
              role = none;
            })
            now;
      expires_in = access_ttl_sec;
      user = record {
        id = user.id;
        email = user.email;
        first_name = user.first_name;
        last_name = user.last_name;
        full_name = full_name user.first_name user.last_name;
        locale = user.locale;
        email_verified = user.email_verified;
        account_type = AccountType.student;
        role = none;
      };
    };
    refresh_token = refresh_token;
  }

  abbrev pub admin_login : AdminUser → ℕ → String → Login
  admin_login admin now refresh_token = record {
    login = record {
      access_token =
          sign_access
            (record {
              sub = admin.id;
              account_type = AccountType.admin;
              email = admin.email;
              locale = "en";
              role = some admin.role;
            })
            now;
      expires_in = access_ttl_sec;
      user = record {
        id = admin.id;
        email = admin.email;
        first_name = admin.first_name;
        last_name = admin.last_name;
        full_name = full_name admin.first_name admin.last_name;
        locale = "en";
        email_verified = true;
        account_type = AccountType.admin;
        role = some admin.role;
      };
    };
    refresh_token = refresh_token;
  }

  unfoldable pub issue_student_session : User → ℕ → String → Action AuthDb Login
  unfolding issue_refresh_token
  issue_student_session user now salt = do
    refresh_token ← issue_refresh_token env user.id AccountType.student now salt
    pure (student_login user now refresh_token)

  unfoldable pub issue_admin_session : AdminUser → ℕ → String → Action AuthDb Login
  unfolding issue_refresh_token
  issue_admin_session admin now salt = do
    refresh_token ← issue_refresh_token env admin.id AccountType.admin now salt
    pure (admin_login admin now refresh_token)

  abbrev login_user : Option User → String → ℕ → String → Action AuthDb Login
  unfolding issue_student_session
  login_user none password now salt = raise (unauthorized "Invalid credentials")
  login_user (some user) password now salt = do
    raise_if (not user.active) (unauthorized "Invalid credentials")
    raise_if (not (bcrypt.compare password user.password_hash)) (unauthorized "Invalid credentials")
    raise_if (not user.email_verified) (unauthorized "Email not verified. Check your inbox.")
    issue_student_session user now salt

  unfoldable pub login_student : String → String → ℕ → String → Action AuthDb Login
  unfolding issue_student_session
  login_student email password now salt = do
    user ← gets (λ s. find (user_has_email (normalised env email)) s.users)
    login_user user password now salt

  abbrev login_of_admin : Option AdminUser → String → ℕ → String → Action AuthDb Login
  unfolding issue_admin_session
  login_of_admin none password now salt = raise (unauthorized "Invalid credentials")
  login_of_admin (some admin) password now salt = do
    raise_if (not admin.active) (unauthorized "Invalid credentials")
    raise_if (not (bcrypt.compare password admin.password_hash))
        (unauthorized "Invalid credentials")
    issue_admin_session admin now salt

  unfoldable pub login_admin : String → String → ℕ → String → Action AuthDb Login
  unfolding issue_admin_session
  login_admin email password now salt = do
    admin ← gets (λ s. find (admin_has_email (normalised env email)) s.admins)
    login_of_admin admin password now salt

  -- The new session of a subject, if its account is there and active.
  abbrev session_of_admin : Option AdminUser → ℕ → String → Action AuthDb Login
  unfolding issue_admin_session
  session_of_admin none now salt = raise (unauthorized "Account is inactive")
  session_of_admin (some admin) now salt =
      if admin.active
      then issue_admin_session admin now salt
      else raise (unauthorized "Account is inactive")

  abbrev session_of_user : Option User → ℕ → String → Action AuthDb Login
  unfolding issue_student_session
  session_of_user none now salt = raise (unauthorized "Account is inactive")
  session_of_user (some user) now salt =
      if user.active
      then issue_student_session user now salt
      else raise (unauthorized "Account is inactive")

  abbrev pub session_of : AccountType → String → ℕ → String → Action AuthDb Login
  unfolding issue_student_session issue_admin_session
  session_of AccountType.admin sub now salt = do
    admin ← gets (λ s. find (admin_has_id sub) s.admins)
    session_of_admin admin now salt
  session_of AccountType.student sub now salt = do
    user ← gets (λ s. find (user_has_id sub) s.users)
    session_of_user user now salt

  -- Every session of the subject ends, and so does the request.
  abbrev pub end_sessions : RefreshTokenPayload → ℕ → Action AuthDb Login
  unfolding revoke_all_refresh_tokens
  end_sessions payload now = do
    revoke_all_refresh_tokens payload.sub payload.account_type now
    raise (unauthorized "Session invalidated. Please log in again.")

  unfoldable pub claim_token : RefreshToken → RefreshTokenPayload → ℕ → String → Action AuthDb Login
  unfolding issue_student_session issue_admin_session revoke_all_refresh_tokens
  claim_token stored payload now salt = do
    affected ← gets (λ s. count (is_unrevoked_with_id stored.id) s.refresh_tokens)
    modify (λ s. record s {
      refresh_tokens = update (is_unrevoked_with_id stored.id) (revoke now) s.refresh_tokens;
    })
    (if nat_eq affected 1
        then session_of payload.account_type payload.sub now salt
        else end_sessions payload now)

  unfoldable pub rotate :
      RefreshToken → RefreshTokenPayload → String → ℕ → String → Action AuthDb Login
  unfolding claim_token revoke_all_refresh_tokens
  rotate stored payload raw_token now salt =
      if is_some stored.revoked_at then end_sessions payload now else (do
        raise_if (not (bcrypt.compare raw_token stored.token_hash))
            (unauthorized "Refresh token invalid")
        claim_token stored payload now salt)

  abbrev refresh_of :
      Option RefreshToken → RefreshTokenPayload → String → ℕ → String → Action AuthDb Login
  unfolding rotate
  refresh_of none payload raw_token now salt =
      raise (unauthorized "Refresh token invalid or expired")
  refresh_of (some stored) payload raw_token now salt =
      if ltb stored.expires_at now
      then raise (unauthorized "Refresh token invalid or expired")
      else rotate stored payload raw_token now salt

  unfoldable pub refresh : RefreshTokenPayload → String → ℕ → String → Action AuthDb Login
  unfolding rotate
  refresh payload raw_token now salt = do
    stored ← gets (λ s. find (refresh_has_id payload.jti) s.refresh_tokens)
    refresh_of stored payload raw_token now salt
