-- ===== src/Common.antt =====
-- The shared layer src/common: locales and translations, and the guard on admin roles.
pub mod I18n
pub mod Roles
pub mod Problems
pub mod Rls
