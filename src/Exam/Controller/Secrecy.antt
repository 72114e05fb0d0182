-- ===== src/Exam/Controller/Secrecy.antt =====
-- What the answers of src/modules/exam/exam.controller.ts tell about the right options: nothing.
use ios_backend.Base.{
  ℕ, ◌+◌, ◌*◌, Bool, none, some, String, map, ◌≡◌, ◌≢◌, refl, sym, ap, ◌∙◌, Bool-cases,
  Option-cases, Outcome-cases, inl, inr, arith, Action, Result, ok, err, find, count, is_some,
  nat_eq, conflict, failure, if◌then◌else◌, Exception, bind_ok, bind_err, pure, gets, raise_if,
  ◌>>=◌, ◌>>◌,
}
use ios_backend.Exam.Types.{
  Exam, ExamAccessCode, ExamQuestionOption, Db, is_active_for, is_unused_with_id, exam_has_id,
}
use ios_backend.Exam.Platform.{Platform}
use ios_backend.Exam.Codes.{find_and_verify_code, validate_access}
use ios_backend.Exam.Start.{StartedExam, begin_session, start_exam, sorted_questions}
use ios_backend.Exam.Start.Outcome.{
  begin_session_used, begin_session_lost, failed_start, started_exam, begin_session_refused,
  begin_session_accepted, find_and_verify_code-keeps, key_set,
}
use ios_backend.Exam.Controller.{
  start_response, access_response, question_for_client, handle_start_exam, handle_validate_access,
}
use ios_backend.Exam.Controller.Remark.{remark, remark_exam, map_ok, find_remark, shown_remark}

module _ (env : Platform) (key : ExamQuestionOption → Bool) where
  open env use {redis, start_faults}

  abbrev remark_found : ExamAccessCode × Exam → ExamAccessCode × Exam
  remark_found (c, e) = (c, remark_exam key e)

  -- The checks of a code come out the same.
  verify_remark :
      (user_id code exam_id : String) (now : ℕ) (s : Db redis.Store)
      → find_and_verify_code env user_id code exam_id now (remark key s) ≡ (
        map_ok remark_found (find_and_verify_code env user_id code exam_id now s).0,
        remark key s,
      )
  unfolding find_and_verify_code
  verify_remark user_id code exam_id now s =
      elim (Option-cases (find (exam_has_id exam_id) s.exams)) [
        | inl e ↦ ground (arith, e, find_remark key exam_id s.exams none e)
        | inr (exam, e) ↦ ground (arith, e, find_remark key exam_id s.exams (some exam) e)
      ]

  shown_found :
      (exam_id : String) (s : Db redis.Store)
      → map question_for_client
          (sorted_questions (find (exam_has_id exam_id) (map (remark_exam key) s.exams)))
        ≡ map question_for_client (sorted_questions (find (exam_has_id exam_id) s.exams))
  shown_found exam_id s =
      ap (λ o. map question_for_client (sorted_questions o))
        (find_remark key exam_id s.exams (find (exam_has_id exam_id) s.exams) refl)
      ∙ shown_remark key (find (exam_has_id exam_id) s.exams)

  failed_remark :
      (user_id exam_id session_id : String) (now : ℕ) (found : ExamAccessCode × Exam)
      (s : Db redis.Store) (r : redis.Store)
      → map_ok start_response
          (failed_start env user_id exam_id session_id now (remark_found found) (remark key s) r).0
        ≡ map_ok start_response (failed_start env user_id exam_id session_id now found s r).0
  failed_remark user_id exam_id session_id now found s r =
      elim (Bool-cases (start_faults session_id).compensation) [
        | inl e ↦ rw e refl
        | inr e ↦ rw e refl
      ]

  loaded_remark :
      (user_id exam_id session_id : String) (now : ℕ) (found : ExamAccessCode × Exam)
      (s : Db redis.Store)
      → map_ok start_response (
          if (start_faults session_id).load
          then err (failure "database")
          else ok (started_exam env exam_id session_id now (remark_found found) (remark key s)))
        ≡ map_ok start_response (
            if (start_faults session_id).load
            then err (failure "database")
            else ok (started_exam env exam_id session_id now found s))
  loaded_remark user_id exam_id session_id now found s =
      elim (Bool-cases (start_faults session_id).load) [
        | inl e ↦ rw e refl
        | inr e ↦ rw e (
            ap
              (λ qs. ok (record {
                session_id = session_id;
                duration_seconds = found.1.duration_minutes * 60;
                expires_at = now + found.1.duration_minutes * 60 * 1000;
                questions = qs;
              }))
              (shown_found exam_id s))
      ]

  begin_remark :
      (user_id exam_id session_id : String) (now : ℕ) (found : ExamAccessCode × Exam)
      (s : Db redis.Store)
      → map_ok start_response
          (begin_session env user_id exam_id session_id now (remark_found found) (remark key s)).0
        ≡ map_ok start_response (begin_session env user_id exam_id session_id now found s).0
  begin_remark user_id exam_id session_id now found s =
      elim (Bool-cases (nat_eq (count (is_unused_with_id found.0.id) s.codes) 0)) [
        | inl used ↦
            let gone : count (is_unused_with_id found.0.id) s.codes ≡ 0 = ground (arith, used) in
            ap (λ o. map_ok start_response o.0)
              (begin_session_used env user_id exam_id session_id now (remark_found found)
                (remark key s) gone)
            ∙ sym (
                ap (λ o. map_ok start_response o.0)
                  (begin_session_used env user_id exam_id session_id now found s gone))
        | inr free ↦
            let unused : count (is_unused_with_id found.0.id) s.codes ≢ 0 =
              λ e. absurd (ground (arith, e, free)) in
            elim (Option-cases (key_set env user_id exam_id session_id now found s)) [
              | inl refused ↦
                  ap (λ o. map_ok start_response o.0)
                    (begin_session_refused env user_id exam_id session_id now (remark_found found)
                      (remark key s) unused refused)
                  ∙ (failed_remark user_id exam_id session_id now found s s.redis
                      ∙ sym (
                          ap (λ o. map_ok start_response o.0)
                            (begin_session_refused env user_id exam_id session_id now found s unused
                              refused)))
              | inr (q, set) ↦ elim (Bool-cases (start_faults session_id).lost_reply) [
                | inl lost ↦
                    ap (λ o. map_ok start_response o.0)
                      (begin_session_lost env user_id exam_id session_id now (remark_found found)
                        (remark key s) q unused set lost)
                    ∙ (failed_remark user_id exam_id session_id now found s q
                        ∙ sym (
                            ap (λ o. map_ok start_response o.0)
                              (begin_session_lost env user_id exam_id session_id now found s q
                                unused set lost)))
                | inr kept ↦
                    ap (λ o. map_ok start_response o.0)
                      (begin_session_accepted env user_id exam_id session_id now
                        (remark_found found) (remark key s) q unused set kept)
                    ∙ (loaded_remark user_id exam_id session_id now found s
                        ∙ sym (
                            ap (λ o. map_ok start_response o.0)
                              (begin_session_accepted env user_id exam_id session_id now found s q
                                unused set kept)))
              ]
            ]
      ]

  abbrev start_found :
      String → String → String → ℕ → ExamAccessCode × Exam → Action (Db redis.Store) StartedExam
  start_found user_id exam_id session_id now found = do
    existing ← gets (λ s. find (is_active_for user_id exam_id) s.sessions)
    raise_if (is_some existing) (conflict "An active session already exists for this exam")
    begin_session env user_id exam_id session_id now found

  -- A start once its code has been checked.
  start_after :
      (user_id code exam_id session_id : String) (now : ℕ) (found : ExamAccessCode × Exam)
      (s t : Db redis.Store)
      → find_and_verify_code env user_id code exam_id now s ≡ (ok found, t)
      → (start_exam env user_id code exam_id session_id now s).0 ≡ (
          if is_some (find (is_active_for user_id exam_id) t.sessions)
          then err (conflict "An active session already exists for this exam")
          else (begin_session env user_id exam_id session_id now found t).0)
  unfolding start_exam
  start_after user_id code exam_id session_id now found s t h =
      let checked =
        bind_ok (find_and_verify_code env user_id code exam_id now)
          (start_found user_id exam_id session_id now) s found t h in
      elim (Bool-cases (is_some (find (is_active_for user_id exam_id) t.sessions))) [
        | inl e ↦ ap (λ o. o.0) checked ∙ rw e refl
        | inr e ↦ ap (λ o. o.0) checked ∙ rw e refl
      ]

  start_refused :
      (user_id code exam_id session_id : String) (now : ℕ) (e : Exception) (s t : Db redis.Store)
      → find_and_verify_code env user_id code exam_id now s ≡ (err e, t)
      → (start_exam env user_id code exam_id session_id now s).0 ≡ err e
  unfolding start_exam
  start_refused user_id code exam_id session_id now e s t h =
      ap (λ o. o.0)
        (bind_err (find_and_verify_code env user_id code exam_id now)
          (start_found user_id exam_id session_id now) s e t h)

  start_remark :
      (user_id code exam_id session_id : String) (now : ℕ) (s : Db redis.Store)
      → map_ok start_response (start_exam env user_id code exam_id session_id now (remark key s)).0
        ≡ map_ok start_response (start_exam env user_id code exam_id session_id now s).0
  start_remark user_id code exam_id session_id now s =
      let same = verify_remark user_id code exam_id now s in
      let kept = find_and_verify_code-keeps env user_id code exam_id now s in
      elim (Outcome-cases (find_and_verify_code env user_id code exam_id now s)) [
        | inr (e, t, h) ↦ ap (map_ok start_response) (
            start_refused user_id code exam_id session_id now e (remark key s) (remark key s)
              (same ∙ ap (λ o. (map_ok remark_found o.0, remark key s)) h)
            ∙ sym (start_refused user_id code exam_id session_id now e s t h))
        | inl (found, t, h) ↦
            let stays : t ≡ s = sym (ap (λ o. o.1) h) ∙ kept in
            let here =
              start_after user_id code exam_id session_id now found s s
                (h ∙ ap (λ t. (ok found, t)) stays) in
            let there =
              start_after user_id code exam_id session_id now (remark_found found) (remark key s)
                (remark key s) (same ∙ ap (λ o. (map_ok remark_found o.0, remark key s)) h) in
            elim (Bool-cases (is_some (find (is_active_for user_id exam_id) s.sessions))) [
              | inl busy ↦ rw (here, there, busy) refl
              | inr idle ↦
                  rw (here, there, idle) (begin_remark user_id exam_id session_id now found s)
            ]
      ]

  answer_start :
      (user_id code exam_id session_id : String) (now : ℕ) (s : Db redis.Store)
      → (handle_start_exam env user_id code exam_id session_id now s).0
        ≡ map_ok start_response (start_exam env user_id code exam_id session_id now s).0
  unfolding handle_start_exam
  answer_start user_id code exam_id session_id now s =
      elim (Outcome-cases (start_exam env user_id code exam_id session_id now s)) [
        | inl (a, t, h) ↦
            ap (λ o. o.0)
              (bind_ok (start_exam env user_id code exam_id session_id now)
                (λ r. pure (start_response r)) s a t h)
            ∙ sym (ap (λ o. map_ok start_response o.0) h)
        | inr (e, t, h) ↦
            ap (λ o. o.0)
              (bind_err (start_exam env user_id code exam_id session_id now)
                (λ r. pure (start_response r)) s e t h)
            ∙ sym (ap (λ o. map_ok start_response o.0) h)
      ]

  unmarked :
      (r : Result (ExamAccessCode × Exam))
      → map_ok (λ found. access_response (found.1, found.0.id)) (map_ok remark_found r)
        ≡ map_ok (λ found. access_response (found.1, found.0.id)) r
  unmarked (ok (c, e)) = refl
  unmarked (err e) = refl

  answer_access :
      (user_id code exam_id : String) (now : ℕ) (s : Db redis.Store)
      → (handle_validate_access env user_id code exam_id now s).0
        ≡ map_ok
            (λ found. access_response (found.1, found.0.id))
            (find_and_verify_code env user_id code exam_id now s).0
  unfolding handle_validate_access validate_access
  answer_access user_id code exam_id now s =
      let check = find_and_verify_code env user_id code exam_id now in
      let first : ExamAccessCode × Exam → Action (Db redis.Store) (Exam × String) =
        λ found. pure (found.1, found.0.id) in
      elim (Outcome-cases (check s)) [
        | inl (a, t, h) ↦
            ap (λ o. o.0)
              (bind_ok (check >>= first) (λ f. pure (access_response f)) s (a.1, a.0.id) t
                (bind_ok check first s a t h))
            ∙ sym (ap (λ o. map_ok (λ found. access_response (found.1, found.0.id)) o.0) h)
        | inr (e, t, h) ↦
            ap (λ o. o.0)
              (bind_err (check >>= first) (λ f. pure (access_response f)) s e t
                (bind_err check first s e t h))
            ∙ sym (ap (λ o. map_ok (λ found. access_response (found.1, found.0.id)) o.0) h)
      ]

-- Whichever options of an exam are the right ones, a student who starts it is answered the same,
-- with the same questions or the same refusal: the answer to a start holds nothing about the
-- solution.
pub handle_start_exam-remark :
    (env : Platform) (key : ExamQuestionOption → Bool) (user_id code exam_id session_id : String)
    (now : ℕ) (s : Db env.redis.Store)
    → (handle_start_exam env user_id code exam_id session_id now (remark key s)).0
      ≡ (handle_start_exam env user_id code exam_id session_id now s).0
handle_start_exam-remark env key user_id code exam_id session_id now s =
    answer_start env key user_id code exam_id session_id now (remark key s)
    ∙ (start_remark env key user_id code exam_id session_id now s
        ∙ sym (answer_start env key user_id code exam_id session_id now s))

-- Nor does the check of an access code tell anything about the solution.
pub handle_validate_access-remark :
    (env : Platform) (key : ExamQuestionOption → Bool) (user_id code exam_id : String) (now : ℕ)
    (s : Db env.redis.Store)
    → (handle_validate_access env user_id code exam_id now (remark key s)).0
      ≡ (handle_validate_access env user_id code exam_id now s).0
handle_validate_access-remark env key user_id code exam_id now s =
    answer_access env key user_id code exam_id now (remark key s)
    ∙ (ap (λ o. map_ok (λ found. access_response (found.1, found.0.id)) o.0)
          (verify_remark env key user_id code exam_id now s)
        ∙ (unmarked env key (find_and_verify_code env user_id code exam_id now s).0
            ∙ sym (answer_access env key user_id code exam_id now s)))
