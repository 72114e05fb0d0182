-- ===== src/Learning.antt =====
-- `LearningService` (src/modules/learning/learning.service.ts).
pub mod Types
pub mod Translations
pub mod Platform
pub mod Student
pub mod Admin
pub mod Retired
pub mod Curriculum
