-- ===== src/Auth/Platform.antt =====
-- What the auth service takes from outside the repository, and its configuration: bcrypt, the
-- signing of tokens by @nestjs/jwt (the time enters as `iat`), and the `trim` and `toLowerCase`
-- of JavaScript.
use ios_backend.Base.{ℕ, String}
use ios_backend.Crypto.{Bcrypt}
use ios_backend.Auth.Types.{AccessTokenPayload, RefreshTokenPayload}

pub record AuthPlatform : Type 0 where
  pub bcrypt : Bcrypt
  pub sign_access : AccessTokenPayload → ℕ → String
  pub sign_refresh : RefreshTokenPayload → ℕ → String
  pub trim : String → String
  pub to_lower_case : String → String
  pub access_ttl_sec : ℕ
  pub refresh_ttl_sec : ℕ
