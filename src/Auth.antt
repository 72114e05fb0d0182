-- ===== src/Auth.antt =====
-- `AuthService` (src/modules/auth/auth.service.ts): accounts, sessions and one-time tokens.
pub mod Strategies
pub mod Types
pub mod Platform
pub mod Tokens
pub mod Accounts
pub mod Sessions
