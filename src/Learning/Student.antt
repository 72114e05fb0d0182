-- ===== src/Learning/Student.antt =====
-- The student's side of src/modules/learning/learning.service.ts: `assertPurchased`,
-- `serveLesson`, `markComplete` and `getProgressSummary`. `rls_user` is the user that the
-- connection of the request names to the row level security, or `none` for a connection of the
-- pool, which names nobody.
pub mod Progress
use ios_backend.Base.{
  ℕ, Bool, true, false, not, ◌&&◌, Option, none, some, String, ◌==◌, List, [], ◌∷◌, map, length,
  nat_eq, is_empty, is_some, has, or_else, if◌then◌else◌, find, select, count, Action, pure, raise,
  gets, modify, raise_if, ◌>>=◌, ◌>>◌, forbidden, not_found,
}
use ios_backend.Common.I18n.{
  Direction, Translations, is_locale, direction_for, default_locale, Resolved, resolve_translation,
}
use ios_backend.Learning.Types.{
  Certificate, LearningModule, Lesson, StudentProgress, StudentPurchase, LearningDb, module_has_id,
  lesson_has_id, is_progress_of, is_progress_on, is_purchase_of, purchase_is_visible,
}
use ios_backend.Learning.Platform.{LearningPlatform}

pub record LessonData : Type 0 where
  pub id : String
  pub module_id : String
  pub title : String
  pub content_html : Option String
  pub video_url : Option String
  pub duration_seconds : Option ℕ
  pub position : ℕ
  pub completed : Bool
  pub completed_at : Option ℕ
  pub locale : String
  pub direction : Direction
  pub fallback_used : Bool
  pub video_url_expires_in_seconds : Option ℕ

pub record Completion : Type 0 where
  pub lesson_id : String
  pub completed_at : ℕ
  pub already_completed : Bool

pub record CertProgress : Type 0 where
  pub cert_id : String
  pub program_code : String
  pub title : String
  pub total_lessons : ℕ
  pub completed_lessons : ℕ
  pub percent_complete : ℕ

abbrev pub video_signed_url_ttl_sec : ℕ
video_signed_url_ttl_sec = 3600

-- The language of the request, if it is supported.
abbrev pub resolve_locale : Option String → String
resolve_locale none = default_locale
resolve_locale (some raw) = if is_locale raw then raw else default_locale

abbrev pub purchases_of : String → String → Option String → LearningDb → List StudentPurchase
purchases_of user_id cert_id rls_user s =
    select (is_purchase_of user_id cert_id) (select (purchase_is_visible rls_user) s.purchases)

unfoldable pub assert_purchased : String → String → Option String → Action LearningDb (Unit {0})
assert_purchased user_id cert_id rls_user = do
  rows ← gets (λ s. purchases_of user_id cert_id rls_user s)
  raise_if (is_empty rows) (forbidden "You have not enrolled in this certificate")

abbrev active_lesson_of : Option Lesson → Action LearningDb Lesson
active_lesson_of none = raise (not_found "Lesson not found")
active_lesson_of (some lesson) =
    if lesson.active then pure lesson else raise (not_found "Lesson not found")

abbrev module_or_raise : Option LearningModule → Action LearningDb LearningModule
module_or_raise none = raise (not_found "Lesson not found")
module_or_raise (some mod_row) = pure mod_row

-- The lesson, if it is active, stands in a module, and the student has bought its certificate.
abbrev pub open_lesson : String → String → Option String → Action LearningDb Lesson
unfolding assert_purchased
open_lesson user_id lesson_id rls_user = do
  found ← gets (λ s. find (lesson_has_id lesson_id) s.lessons)
  lesson ← active_lesson_of found
  parent ← gets (λ s. find (module_has_id lesson.module_id) s.modules)
  mod_row ← module_or_raise parent
  assert_purchased user_id mod_row.cert_id rls_user
  pure lesson

abbrev completion_time : Option StudentProgress → Option ℕ
completion_time none = none
completion_time (some p) = some p.completed_at

-- `array.map(…)`, `??` on the second text.
abbrev text_or : Option String → Option String → Option String
text_or none fallback = fallback
text_or (some text) fallback = some text

abbrev pub purchase_cert : StudentPurchase → String
purchase_cert p = p.cert_id

abbrev pub progress_lesson : StudentProgress → String
progress_lesson p = p.lesson_id

abbrev pub module_id_of : LearningModule → String
module_id_of m = m.id

abbrev pub is_active_module_in : List String → LearningModule → Bool
is_active_module_in cert_ids m = has cert_ids m.cert_id && m.active

abbrev pub is_active_lesson_in : List String → Lesson → Bool
is_active_lesson_in module_ids l = has module_ids l.module_id && l.active

abbrev pub is_module_of : String → LearningModule → Bool
is_module_of cert_id m = m.cert_id == cert_id

abbrev pub is_lesson_in : List String → Lesson → Bool
is_lesson_in module_ids l = has module_ids l.module_id

abbrev pub is_cert_in : List String → Certificate → Bool
is_cert_in cert_ids c = has cert_ids c.id

abbrev pub is_done : List String → Lesson → Bool
is_done completed l = has completed l.id

module _ (env : LearningPlatform) where
  open env use {sign_video, percent_of}

  -- A link to a video, if there is one; an empty text counts as none.
  abbrev pub signed : Option String → Option String
  signed none = none
  signed (some key) = if key == "" then none else some (sign_video key)

  abbrev expiry_of : Option String → Option ℕ
  expiry_of none = none
  expiry_of (some url) = if url == "" then none else some video_signed_url_ttl_sec

  abbrev pub lesson_data : Lesson → Option StudentProgress → String → LessonData
  lesson_data lesson done locale =
      let title = resolve_translation (some lesson.translations) "title" locale in
      let body = resolve_translation (some lesson.translations) "content_html" locale in
      record {
        id = lesson.id;
        module_id = lesson.module_id;
        title = or_else title.value lesson.title;
        content_html = text_or body.value lesson.content_text;
        video_url = signed lesson.video_url;
        duration_seconds = lesson.duration_seconds;
        position = lesson.position;
        completed = is_some done;
        completed_at = completion_time done;
        locale = locale;
        direction = direction_for locale;
        fallback_used = if title.fallback_used then true else body.fallback_used;
        video_url_expires_in_seconds = expiry_of (signed lesson.video_url);
      }

  unfoldable pub serve_lesson :
      String → String → Option String → Option String → Action LearningDb LessonData
  unfolding assert_purchased
  serve_lesson user_id lesson_id rls_user lang = do
    lesson ← open_lesson user_id lesson_id rls_user
    done ← gets (λ s. find (is_progress_on user_id lesson_id) s.progress)
    pure (lesson_data lesson done (resolve_locale lang))

  abbrev new_progress : String → String → ℕ → StudentProgress
  new_progress user_id lesson_id now = record {
    user_id = user_id;
    lesson_id = lesson_id;
    completed_at = now;
  }

  abbrev complete_of : Option StudentProgress → String → String → ℕ → Action LearningDb Completion
  complete_of (some existing) user_id lesson_id now = pure (record {
    lesson_id = lesson_id;
    completed_at = existing.completed_at;
    already_completed = true;
  })
  complete_of none user_id lesson_id now = do
    modify (λ s. record s { progress = new_progress user_id lesson_id now ∷ s.progress })
    pure (record { lesson_id = lesson_id; completed_at = now; already_completed = false })

  unfoldable pub mark_complete : String → String → Option String → ℕ → Action LearningDb Completion
  unfolding assert_purchased
  mark_complete user_id lesson_id rls_user now = do
    lesson ← open_lesson user_id lesson_id rls_user
    existing ← gets (λ s. find (is_progress_on user_id lesson_id) s.progress)
    complete_of existing user_id lesson_id now

  abbrev pub progress_row :
      List LearningModule → List Lesson → List String → String → Certificate → CertProgress
  progress_row modules lessons completed locale cert =
      let cert_lessons =
        select (is_lesson_in (map module_id_of (select (is_module_of cert.id) modules))) lessons in
      let total = length cert_lessons in
      let done = length (select (is_done completed) cert_lessons) in
      record {
        cert_id = cert.id;
        program_code = cert.program_code;
        title =
            or_else (Resolved.value (resolve_translation cert.translations "title" locale))
              cert.title;
        total_lessons = total;
        completed_lessons = done;
        percent_complete = if nat_eq total 0 then 0 else percent_of done total;
      }

  -- The summary only reads, so it is a function of the rows.
  unfoldable pub get_progress_summary :
      String → Option String → Option String → LearningDb → List CertProgress
  get_progress_summary user_id rls_user lang s =
      let cert_ids =
        map purchase_cert (
          select (λ p. p.user_id == user_id) (select (purchase_is_visible rls_user) s.purchases)) in
      let certs = select (is_cert_in cert_ids) s.certificates in
      let modules = select (is_active_module_in cert_ids) s.modules in
      let lessons = select (is_active_lesson_in (map module_id_of modules)) s.lessons in
      let completed = map progress_lesson (select (is_progress_of user_id) s.progress) in
      map (progress_row modules lessons completed (resolve_locale lang)) certs
