-- ===== src/Learning/Admin.antt =====
-- The admin's side of src/modules/learning/learning.service.ts: creating, changing and retiring
-- modules and lessons. A field of an update that is absent (`undefined`) is `none`; a nullable one
-- that is given is `some` of what it is set to. The row's id and the time come in as arguments.
use ios_backend.Base.{
  ℕ, Bool, true, false, Option, none, some, String, ◌∷◌, [], is_some, is_none, or_else,
  if◌then◌else◌, ◌||◌, find, update, Action, pure, gets, modify, raise_if, or_raise, ◌>>=◌, ◌>>◌,
  not_found,
}
use ios_backend.Common.I18n.{Translations}
use ios_backend.Learning.Types.{
  LearningModule, Lesson, LearningDb, cert_has_id, module_has_id, lesson_has_id,
}
use ios_backend.Learning.Translations.{build_translations}

pub record CreateModule : Type 0 where
  pub cert_id : String
  pub title : String
  pub description : Option String
  pub position : Option ℕ
  pub active : Option Bool
  pub translations : Option Translations

pub record UpdateModule : Type 0 where
  pub title : Option String
  pub description : Option (Option String)
  pub position : Option ℕ
  pub active : Option Bool
  pub translations : Option Translations

pub record CreateLesson : Type 0 where
  pub module_id : String
  pub title : String
  pub content_text : Option String
  pub video_url : Option String
  pub position : Option ℕ
  pub duration_seconds : Option ℕ
  pub active : Option Bool
  pub translations : Option Translations

pub record UpdateLesson : Type 0 where
  pub title : Option String
  pub content_text : Option (Option String)
  pub video_url : Option (Option String)
  pub position : Option ℕ
  pub duration_seconds : Option (Option ℕ)
  pub active : Option Bool
  pub translations : Option Translations

unfoldable pub create_module : CreateModule → String → ℕ → Action LearningDb LearningModule
unfolding build_translations
create_module dto id now = do
  cert ← gets (λ s. find (cert_has_id dto.cert_id) s.certificates)
  raise_if (is_none cert) (not_found "Parent certificate not found")
  let saved : LearningModule = record {
    id = id;
    cert_id = dto.cert_id;
    title = dto.title;
    description = dto.description;
    translations = build_translations [] dto.translations dto.title dto.description "description";
    position = or_else dto.position 0;
    active = or_else dto.active true;
    created_at = now;
  }
  modify (λ s. record s { modules = saved ∷ s.modules })
  pure saved

-- The translations of the patch, from the row that was read; without a change they stay.
abbrev pub patched_module_translations : UpdateModule → LearningModule → Option Translations
patched_module_translations dto row =
    if (is_some dto.title || is_some dto.description) || is_some dto.translations
    then some (
        build_translations row.translations dto.translations (or_else dto.title row.title)
          (or_else dto.description row.description) "description")
    else none

abbrev pub patch_module : UpdateModule → Option Translations → LearningModule → LearningModule
patch_module dto translations m = record m {
  title = or_else dto.title m.title;
  description = or_else dto.description m.description;
  translations = or_else translations m.translations;
  position = or_else dto.position m.position;
  active = or_else dto.active m.active;
}

unfoldable pub update_module : String → UpdateModule → Action LearningDb LearningModule
unfolding build_translations
update_module id dto = do
  found ← gets (λ s. find (module_has_id id) s.modules)
  row ← or_raise found (not_found "Module not found")
  modify (λ s. record s {
    modules =
        update (module_has_id id) (patch_module dto (patched_module_translations dto row))
          s.modules;
  })
  saved ← gets (λ s. find (module_has_id id) s.modules)
  or_raise saved (not_found "Module not found")

abbrev retire_module : LearningModule → LearningModule
retire_module m = record m { active = false }

unfoldable pub soft_delete_module : String → Action LearningDb String
soft_delete_module id = do
  found ← gets (λ s. find (module_has_id id) s.modules)
  raise_if (is_none found) (not_found "Module not found")
  modify (λ s. record s { modules = update (module_has_id id) retire_module s.modules })
  pure id

unfoldable pub create_lesson : CreateLesson → String → ℕ → Action LearningDb Lesson
unfolding build_translations
create_lesson dto id now = do
  parent ← gets (λ s. find (module_has_id dto.module_id) s.modules)
  raise_if (is_none parent) (not_found "Parent module not found")
  let saved : Lesson = record {
    id = id;
    module_id = dto.module_id;
    title = dto.title;
    content_text = dto.content_text;
    video_url = dto.video_url;
    translations = build_translations [] dto.translations dto.title dto.content_text "content_html";
    position = or_else dto.position 0;
    duration_seconds = dto.duration_seconds;
    active = or_else dto.active true;
    created_at = now;
  }
  modify (λ s. record s { lessons = saved ∷ s.lessons })
  pure saved

abbrev pub patched_lesson_translations : UpdateLesson → Lesson → Option Translations
patched_lesson_translations dto row =
    if (is_some dto.title || is_some dto.content_text) || is_some dto.translations
    then some (
        build_translations row.translations dto.translations (or_else dto.title row.title)
          (or_else dto.content_text row.content_text) "content_html")
    else none

abbrev pub patch_lesson : UpdateLesson → Option Translations → Lesson → Lesson
patch_lesson dto translations l = record l {
  title = or_else dto.title l.title;
  content_text = or_else dto.content_text l.content_text;
  video_url = or_else dto.video_url l.video_url;
  translations = or_else translations l.translations;
  position = or_else dto.position l.position;
  duration_seconds = or_else dto.duration_seconds l.duration_seconds;
  active = or_else dto.active l.active;
}

unfoldable pub update_lesson : String → UpdateLesson → Action LearningDb Lesson
unfolding build_translations
update_lesson id dto = do
  found ← gets (λ s. find (lesson_has_id id) s.lessons)
  row ← or_raise found (not_found "Lesson not found")
  modify (λ s. record s {
    lessons =
        update (lesson_has_id id) (patch_lesson dto (patched_lesson_translations dto row))
          s.lessons;
  })
  saved ← gets (λ s. find (lesson_has_id id) s.lessons)
  or_raise saved (not_found "Lesson not found")

abbrev pub retire_lesson : Lesson → Lesson
retire_lesson l = record l { active = false }

unfoldable pub soft_delete_lesson : String → Action LearningDb String
soft_delete_lesson id = do
  found ← gets (λ s. find (lesson_has_id id) s.lessons)
  raise_if (is_none found) (not_found "Lesson not found")
  modify (λ s. record s { lessons = update (lesson_has_id id) retire_lesson s.lessons })
  pure id
