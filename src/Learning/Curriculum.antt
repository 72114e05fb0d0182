-- ===== src/Learning/Curriculum.antt =====
-- `getCurriculum` of src/modules/learning/learning.service.ts: the active modules of a certificate
-- with their active lessons, by position and then by age, and which of them the student has done.
use ios_backend.Base.{
  ℕ, Bool, false, not, ◌&&◌, ◌||◌, Option, none, some, String, ◌==◌, List, map, has, ltb, leb,
  nat_eq, or_else, if◌then◌else◌, find, select, sort_by, Action, pure, raise, gets, ◌>>=◌, ◌>>◌,
  not_found,
}
use ios_backend.Common.I18n.{Direction, Translations, Resolved, direction_for, resolve_translation}
use ios_backend.Learning.Types.{
  Certificate, LearningModule, Lesson, LearningDb, cert_has_id, is_active_module_of, is_progress_of,
}
use ios_backend.Learning.Student.{
  assert_purchased, resolve_locale, is_active_lesson_in, module_id_of, progress_lesson,
}

pub record LessonEntry : Type 0 where
  pub id : String
  pub title : String
  pub position : ℕ
  pub duration_seconds : Option ℕ
  pub has_video : Bool
  pub completed : Bool

pub record ModuleEntry : Type 0 where
  pub id : String
  pub title : String
  pub position : ℕ
  pub lessons : List LessonEntry

pub record Curriculum : Type 0 where
  pub cert_id : String
  pub program_code : String
  pub title : String
  pub modules : List ModuleEntry
  pub locale : String
  pub direction : Direction

-- `{ position: 'ASC', createdAt: 'ASC' }`
abbrev earlier : ℕ → ℕ → ℕ → ℕ → Bool
earlier p c q d = ltb p q || nat_eq p q && leb c d

abbrev module_before : LearningModule → LearningModule → Bool
module_before m n = earlier m.position m.created_at n.position n.created_at

abbrev lesson_before : Lesson → Lesson → Bool
lesson_before l m = earlier l.position l.created_at m.position m.created_at

abbrev has_text : Option String → Bool
has_text none = false
has_text (some text) = not (text == "")

abbrev title_in : String → Option Translations → String → String
title_in locale translations title =
    or_else (Resolved.value (resolve_translation translations "title" locale)) title

abbrev is_lesson_of : String → Lesson → Bool
is_lesson_of module_id l = l.module_id == module_id

abbrev lesson_entry : String → List String → Lesson → LessonEntry
lesson_entry locale completed l = record {
  id = l.id;
  title = title_in locale (some l.translations) l.title;
  position = l.position;
  duration_seconds = l.duration_seconds;
  has_video = has_text l.video_url;
  completed = has completed l.id;
}

abbrev module_entry : String → List String → List Lesson → LearningModule → ModuleEntry
module_entry locale completed lessons m = record {
  id = m.id;
  title = title_in locale (some m.translations) m.title;
  position = m.position;
  lessons = map (lesson_entry locale completed) (select (is_lesson_of m.id) lessons);
}

abbrev curriculum_of : String → String → Certificate → LearningDb → Curriculum
curriculum_of user_id locale cert s =
    let modules = sort_by module_before (select (is_active_module_of cert.id) s.modules) in
    let lessons =
      sort_by lesson_before (select (is_active_lesson_in (map module_id_of modules)) s.lessons) in
    let completed = map progress_lesson (select (is_progress_of user_id) s.progress) in
    record {
      cert_id = cert.id;
      program_code = cert.program_code;
      title = title_in locale cert.translations cert.title;
      modules = map (module_entry locale completed lessons) modules;
      locale = locale;
      direction = direction_for locale;
    }

abbrev active_cert_of : Option Certificate → Action LearningDb Certificate
active_cert_of none = raise (not_found "Certificate not found")
active_cert_of (some cert) =
    if cert.active then pure cert else raise (not_found "Certificate not found")

unfoldable pub get_curriculum :
    String → String → Option String → Option String → Action LearningDb Curriculum
unfolding assert_purchased
get_curriculum user_id cert_id rls_user lang = do
  found ← gets (λ s. find (cert_has_id cert_id) s.certificates)
  cert ← active_cert_of found
  assert_purchased user_id cert_id rls_user
  gets (λ s. curriculum_of user_id (resolve_locale lang) cert s)
