-- ===== src/Learning/Types.antt =====
-- The rows behind src/modules/learning/learning.service.ts (certificate.entity.ts,
-- learning-module.entity.ts, lesson.entity.ts, progress-cert-transaction.entity.ts and
-- student-purchase.entity.ts under src/database/entities), with the columns that it uses.
use ios_backend.Base.{ℕ, Bool, Option, String, List, ◌==◌, ◌&&◌, is_text}
use ios_backend.Common.I18n.{Translations}

pub record Certificate : Type 0 where
  pub id : String
  pub program_code : String
  pub title : String
  pub translations : Option Translations
  pub active : Bool

pub record LearningModule : Type 0 where
  pub id : String
  pub cert_id : String
  pub title : String
  pub description : Option String
  pub translations : Translations
  pub position : ℕ
  pub active : Bool
  pub created_at : ℕ

pub record Lesson : Type 0 where
  pub id : String
  pub module_id : String
  pub title : String
  pub content_text : Option String
  pub video_url : Option String
  pub translations : Translations
  pub position : ℕ
  pub duration_seconds : Option ℕ
  pub active : Bool
  pub created_at : ℕ

pub record StudentProgress : Type 0 where
  pub user_id : String
  pub lesson_id : String
  pub completed_at : ℕ

pub record StudentPurchase : Type 0 where
  pub user_id : String
  pub cert_id : String

pub record LearningDb : Type 0 where
  pub certificates : List Certificate
  pub modules : List LearningModule
  pub lessons : List Lesson
  pub progress : List StudentProgress
  pub purchases : List StudentPurchase

-- The `where` conditions of the queries.
abbrev pub cert_has_id : String → Certificate → Bool
cert_has_id id c = c.id == id

abbrev pub module_has_id : String → LearningModule → Bool
module_has_id id m = m.id == id

abbrev pub is_active_module_of : String → LearningModule → Bool
is_active_module_of cert_id m = m.cert_id == cert_id && m.active

abbrev pub lesson_has_id : String → Lesson → Bool
lesson_has_id id l = l.id == id

abbrev pub is_progress_of : String → StudentProgress → Bool
is_progress_of user_id p = p.user_id == user_id

abbrev pub is_progress_on : String → String → StudentProgress → Bool
is_progress_on user_id lesson_id p = p.user_id == user_id && p.lesson_id == lesson_id

abbrev pub is_purchase_of : String → String → StudentPurchase → Bool
is_purchase_of user_id cert_id p = p.user_id == user_id && p.cert_id == cert_id

-- The policy `student_purchases_isolation`: only the owner, as the connection names the user.
abbrev pub purchase_is_visible : Option String → StudentPurchase → Bool
purchase_is_visible current_user p = is_text current_user p.user_id
