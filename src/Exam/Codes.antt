-- ===== src/Exam/Codes.antt =====
-- Access codes in src/modules/exam/exam.service.ts: `assignExam`, `assignNextExam`,
-- `issueAccessCode`, `getAttemptedExamIds`, `findAndVerifyCode` and `validateAccess`. The random
-- code, the salt of its hash, the new row's id and the time come in as arguments.
pub mod Matching
pub mod Assignment
use ios_backend.Base.{
  ℕ, ◌+◌, ◌*◌, Bool, false, not, ◌&&◌, Option, none, some, String, ◌==◌, List, [], ◌∷◌, map, ltb,
  if◌then◌else◌, is_empty, is_text, has, find, select, sort_by, ascending, descending, Action, pure,
  gets, modify, raise_if, or_raise, ◌>>=◌, ◌>>◌, bad_request, forbidden, not_found, conflict,
  unprocessable,
}
use ios_backend.Exam.Types.{
  Exam, ExamAccessCode, ExamAttempt, Db, is_published, exam_has_id, is_unused_for,
}
use ios_backend.Exam.Platform.{Platform}

abbrev pub access_code_bcrypt_cost : ℕ
access_code_bcrypt_cost = 10

abbrev pub access_code_ttl_ms : ℕ
access_code_ttl_ms = 24 * 60 * 60 * 1000

pub record IssuedCode : Type 0 where
  pub plain_code : String
  pub expires_at : ℕ
  pub exam_id : String

pub record NextExam : Type 0 where
  pub issued : IssuedCode
  pub exam_order : ℕ
  pub exam_title : String

-- What a request draws: a row id, a random code and a salt.
pub record Fresh : Type 0 where
  pub id : String
  pub code : String
  pub salt : String

-- `{ certId, status: PUBLISHED }`
abbrev pub is_published_in : String → Exam → Bool
is_published_in cert_id e = e.cert_id == cert_id && is_published e.status

-- The policy `exam_attempts_isolation`: a row is seen, and may be written, only by its owner.
abbrev pub attempt_is_visible : Option String → ExamAttempt → Bool
attempt_is_visible current_user a = is_text current_user a.user_id

abbrev pub attempt_is_for : String → String → ExamAttempt → Bool
attempt_is_for user_id cert_id a = a.user_id == user_id && a.cert_id == cert_id

abbrev exam_of_attempt : ExamAttempt → String
exam_of_attempt a = a.exam_id

-- The query under row level security, as the user that the transaction has set.
unfoldable pub attempted_exam_ids : String → String → List ExamAttempt → List String
attempted_exam_ids user_id cert_id rows =
    map exam_of_attempt
      (select (attempt_is_for user_id cert_id) (select (attempt_is_visible (some user_id)) rows))

-- An outstanding code is still good at `now`.
abbrev is_outstanding : ℕ → Option ExamAccessCode → Bool
is_outstanding now none = false
is_outstanding now (some c) = ltb now c.expires_at

module _ (env : Platform) where
  open env use {redis, bcrypt}

  abbrev pub new_code : String → Exam → Fresh → ℕ → ExamAccessCode
  new_code user_id exam fresh now = record {
    id = fresh.id;
    user_id = user_id;
    exam_id = exam.id;
    cert_id = exam.cert_id;
    token_hash = bcrypt.hash fresh.code access_code_bcrypt_cost fresh.salt;
    expires_at = now + access_code_ttl_ms;
    used_at = none;
    created_at = now;
  }

  unfoldable pub issue_access_code : String → Exam → Fresh → ℕ → Action (Db redis.Store) IssuedCode
  issue_access_code user_id exam fresh now = do
    modify (λ s. record s { codes = new_code user_id exam fresh now ∷ s.codes })
    pure (record {
      plain_code = fresh.code;
      expires_at = now + access_code_ttl_ms;
      exam_id = exam.id;
    })

  unfoldable pub assign_exam :
      String → String → String → Fresh → ℕ → Action (Db redis.Store) IssuedCode
  unfolding issue_access_code
  assign_exam user_id exam_id cert_id fresh now = do
    row ← gets (λ s. find (exam_has_id exam_id) s.exams)
    exam ← or_raise row (not_found "Exam not found")
    raise_if (not (exam.cert_id == cert_id))
        (bad_request "Exam does not belong to the given certificate")
    raise_if (not (is_published exam.status)) (unprocessable "Exam is not published")
    issue_access_code user_id exam fresh now

  -- The published exams of a certificate, by `exam_order`.
  abbrev pub exam_pool : String → List Exam → List Exam
  exam_pool cert_id exams =
      sort_by (ascending (λ e. e.exam_order)) (select (is_published_in cert_id) exams)

  abbrev pub not_attempted : List String → Exam → Bool
  not_attempted attempted e = not (has attempted e.id)

  unfoldable pub assign_next_exam : String → String → Fresh → ℕ → Action (Db redis.Store) NextExam
  unfolding issue_access_code attempted_exam_ids
  assign_next_exam user_id cert_id fresh now = do
    pool ← gets (λ s. exam_pool cert_id s.exams)
    raise_if (is_empty pool) (not_found "No published exams exist for this certificate")
    attempted ← gets (λ s. attempted_exam_ids user_id cert_id s.attempts)
    next ← or_raise (find (not_attempted attempted) pool) (
        forbidden
          "Exam pool exhausted: the student has attempted every published exam for this certificate")
    outstanding ← gets (λ s. find (is_unused_for user_id next.id) s.codes)
    raise_if (is_outstanding now outstanding)
        (conflict "Student already has an unused access code for their next exam")
    issued ← issue_access_code user_id next fresh now
    pure (record { issued = issued; exam_order = next.exam_order; exam_title = next.title })

  -- The loop over the candidates: the first that has not expired and whose hash matches.
  unfoldable pub match_code : String → ℕ → List ExamAccessCode → Option ExamAccessCode
  match_code code now [] = none
  match_code code now (c ∷ cs) =
      if ltb c.expires_at now
      then match_code code now cs
      else if bcrypt.compare code c.token_hash
      then some c
      else match_code code now cs

  -- The unused codes of a student for an exam, the newest first.
  abbrev pub candidates : String → String → List ExamAccessCode → List ExamAccessCode
  candidates user_id exam_id codes =
      sort_by (descending (λ c. c.created_at)) (select (is_unused_for user_id exam_id) codes)

  unfoldable pub find_and_verify_code :
      String → String → String → ℕ → Action (Db redis.Store) (ExamAccessCode × Exam)
  find_and_verify_code user_id code exam_id now = do
    row ← gets (λ s. find (exam_has_id exam_id) s.exams)
    exam ← or_raise row (not_found "Exam not found")
    raise_if (not (is_published exam.status)) (forbidden "Invalid or expired access code")
    rows ← gets (λ s. candidates user_id exam_id s.codes)
    found ← or_raise (match_code code now rows) (forbidden "Invalid or expired access code")
    pure (found, exam)

  unfoldable pub validate_access :
      String → String → String → ℕ → Action (Db redis.Store) (Exam × String)
  unfolding find_and_verify_code
  validate_access user_id code exam_id now = do
    found ← find_and_verify_code user_id code exam_id now
    pure (found.1, found.0.id)
