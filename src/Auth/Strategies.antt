-- ===== src/Auth/Strategies.antt =====
-- `validate` of src/modules/auth/strategies/jwt.strategy.ts and jwt-refresh.strategy.ts: from the
-- claims of a token whose signature passport has checked to the user of the request.
pub mod Composition
use ios_backend.Base.{
  Option, none, some, String, ◌==◌, Result, ok, err, if◌then◌else◌, unauthorized,
}
use ios_backend.Auth.Types.{AccountType, AccessTokenPayload, RefreshTokenPayload}
use ios_backend.Common.Rls.{AuthenticatedUser}

abbrev pub user_of : AccountType → AccessTokenPayload → AuthenticatedUser
user_of AccountType.admin payload = record {
  id = none;
  admin_id = some payload.sub;
  account_type = some AccountType.admin;
  role = payload.role;
  email = some payload.email;
  locale = some payload.locale;
}
user_of AccountType.student payload = record {
  id = some payload.sub;
  admin_id = none;
  account_type = some AccountType.student;
  role = none;
  email = some payload.email;
  locale = some payload.locale;
}

unfoldable pub validate_payload : AccessTokenPayload → Result AuthenticatedUser
validate_payload payload =
    if payload.sub == ""
    then err (unauthorized "Invalid token payload")
    else ok (user_of payload.account_type payload)

pub record RefreshContext : Type 0 where
  pub payload : RefreshTokenPayload
  pub raw_token : String

abbrev refresh_context : Option String → RefreshTokenPayload → Result RefreshContext
refresh_context none payload = err (unauthorized "Missing refresh token")
refresh_context (some raw_token) payload =
    if raw_token == ""
    then err (unauthorized "Missing refresh token")
    else ok (record { payload = payload; raw_token = raw_token })

-- The text is that of the `refreshToken` cookie.
unfoldable pub validate_refresh : Option String → RefreshTokenPayload → Result RefreshContext
validate_refresh cookie payload =
    if payload.sub == ""
    then err (unauthorized "Invalid refresh token payload")
    else refresh_context cookie payload
