-- ===== src/Examples/Learning.antt =====
-- A student who has bought a certificate with one lesson.
use ios_backend.Base.{
  All, [], arith, false, find, if◌then◌else◌, is_empty, lookup, ltb, none, or_else, refl, some,
  true, ℕ, ◌<◌, ◌==◌, ◌∷◌, ◌≡◌, ◌≤◌,
}
use ios_backend.Common.I18n.{Translations, resolve_translation}
use ios_backend.Learning.Admin.{soft_delete_lesson}
use ios_backend.Learning.Platform.{LearningPlatform}
use ios_backend.Learning.Student.{
  Completion, LessonData, get_progress_summary, lesson_data, mark_complete, purchases_of,
  resolve_locale, serve_lesson,
}
use ios_backend.Learning.Student.Progress.{
  IsInOrder, get_progress_summary-IsInOrder, serve_lesson-purchased,
}
use ios_backend.Learning.Translations.{
  build-resolve_translation, build_translations, english_block, layered, lookup-build_translations,
}
use ios_backend.Learning.Types.{
  Certificate, LearningDb, LearningModule, Lesson, is_progress_on, lesson_has_id, module_has_id,
}

abbrev whole_percent : ℕ → ℕ → ℕ
whole_percent part total = if ltb part total then 0 else 100

pub whole_none : (total : ℕ) → 0 < total → whole_percent 0 total ≡ 0
whole_none total h = ground arith

pub whole_all : (total : ℕ) → 0 < total → whole_percent total total ≡ 100
whole_all total h = ground arith

pub whole_mono : (a b total : ℕ) → a ≤ b → 0 < total → whole_percent a total ≤ whole_percent b total
whole_mono a b total h pos = ground arith

abbrev scrum : Certificate
scrum = record {
  id = "c1";
  program_code = "PSM";
  title = "Scrum";
  translations = none;
  active = true;
}

abbrev module_one : LearningModule
module_one = record {
  id = "m1";
  cert_id = "c1";
  title = "Start";
  description = none;
  translations = [];
  position = 0;
  active = true;
  created_at = 0;
}

abbrev lesson_one : Lesson
lesson_one = record {
  id = "l1";
  module_id = "m1";
  title = "Roles";
  content_text = none;
  video_url = none;
  translations = [];
  position = 0;
  duration_seconds = none;
  active = true;
  created_at = 0;
}

abbrev bought : LearningDb
bought = record {
  certificates = scrum ∷ [];
  modules = module_one ∷ [];
  lessons = lesson_one ∷ [];
  progress = [];
  purchases = (record { user_id = "u"; cert_id = "c1" }) ∷ [];
}

abbrev platform : LearningPlatform
platform = record {
  sign_video = λ key. key;
  percent_of = whole_percent;
  percent_of_none = whole_none;
  percent_of_all = whole_all;
  percent_of_mono = whole_mono;
}

abbrev completed_db : LearningDb
completed_db = (mark_complete platform "u" "l1" (some "u") 5 bought).1

abbrev first_completion : Completion
first_completion = record { lesson_id = "l1"; completed_at = 5; already_completed = false }

abbrev served_one : LessonData
served_one = lesson_data platform lesson_one none "en"

abbrev retired_db : LearningDb
retired_db = (soft_delete_lesson "l1" bought).1

abbrev french : Translations
french = ("fr", ("title", "Rôles") ∷ []) ∷ []

serve_lesson-purchased_example :
    (lesson : Lesson) × (m : LearningModule) × (find (lesson_has_id "l1") bought.lessons
      ≡ some lesson)
    × (lesson.active ≡ true)
    × (find (module_has_id lesson.module_id) bought.modules ≡ some m)
    × (is_empty (purchases_of "u" m.cert_id (some "u") bought) ≡ false)
    × (served_one
        ≡ lesson_data platform lesson
            (find (is_progress_on "u" "l1") bought.progress)
            (resolve_locale none))
unfolding serve_lesson
serve_lesson-purchased_example =
    serve_lesson-purchased platform "u" "l1" (some "u") none bought bought served_one refl

get_progress_summary-IsInOrder_example :
    All (IsInOrder platform) (get_progress_summary platform "u" (some "u") none bought)
get_progress_summary-IsInOrder_example =
    get_progress_summary-IsInOrder platform "u" (some "u") none bought

lookup-build_translations_example :
    lookup (build_translations french none "Roles" none "description") "fr"
    ≡ layered (lookup (or_else none []) "fr") (
        if "en" == "fr"
        then some (english_block "Roles" none "description")
        else lookup french "fr")
lookup-build_translations_example =
    lookup-build_translations french none "Roles" none "description" "fr" tt

build-resolve_translation_example :
    resolve_translation
      (some (build_translations french none "Roles" none "description"))
      "title"
      "de"
    ≡ record { value = some "Roles"; locale_used = some "en"; fallback_used = true }
build-resolve_translation_example =
    build-resolve_translation french none "Roles" none "description" "de" tt refl refl refl refl
