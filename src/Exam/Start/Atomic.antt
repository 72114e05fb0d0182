-- ===== src/Exam/Start/Atomic.antt =====
-- A start that fails leaves no trace.
use ios_backend.Base.{
  ℕ, ◌≡◌, refl, true, sym, ap, ◌∙◌, ◌⊎◌, find, inl, inr, false, ◌&&◌, ◌==◌, none, some, String,
  List, [], ◌∷◌, is_some, count, update, Bool-cases, err, Outcome-cases, Exception, arith, eq_refl,
  delete_none, HasUniqueKeys, All-alone,
}
use ios_backend.Exam.Types.{
  Exam, ExamAccessCode, TestSession, Db, is_active_for, session_has_id, is_unused_with_id,
  code_has_id,
}
use ios_backend.Exam.Platform.{Platform}
use ios_backend.Exam.Codes.{find_and_verify_code}
use ios_backend.Exam.Codes.Matching.{find_and_verify_code_sound}
use ios_backend.Exam.Start.{mark_used, begin_session, start_exam}
use ios_backend.Exam.Start.Outcome.{begin_session-cases, find_and_verify_code-keeps}

abbrev pub code_id : ExamAccessCode → String
code_id c = c.id

abbrev pub session_id_of : TestSession → String
session_id_of s = s.id

-- Every code with this id is unused.
abbrev pub OnlyUnused : List ExamAccessCode → String → Type 0
OnlyUnused codes id = count (λ c. c.id == id && is_some c.used_at) codes ≡ 0

-- Using a code up and freeing it again gives back the table, where no other row shares its id.
restore_codes :
    (now : ℕ) (id : String) (codes : List ExamAccessCode)
    → OnlyUnused codes id
    → update
        (code_has_id id)
        (mark_used none)
        (update (is_unused_with_id id) (mark_used (some now)) codes)
      ≡ codes
restore_codes now id [] h = refl
restore_codes now id (c ∷ cs) h = ground (arith, restore_codes now id cs)

module _ (env : Platform) where
  open env use {redis, start_faults}

  -- The tables are as they were, and so is Redis, unless its answer was lost.
  abbrev IsTakenBack : String → Db redis.Store → Db redis.Store → Type 0
  IsTakenBack session_id s t =
      (t ≡ record s { redis = t.redis })
      × ((t.redis ≡ s.redis) ⊎ ((start_faults session_id).lost_reply ≡ true))

  same-IsTakenBack :
      (session_id : String) (s t : Db redis.Store) → t ≡ s → IsTakenBack session_id s t
  same-IsTakenBack session_id s t h =
      (h ∙ ap (λ u. record s { redis = u.redis }) (sym h), inl (ap (λ u. u.redis) h))

  -- A start whose code is verified and then fails gives back every table as it was, if the new
  -- row's id is new and the code is the only one of its id that could be in use.
  begin_session-IsTakenBack :
      (user_id exam_id session_id : String) (now : ℕ) (found : ExamAccessCode × Exam)
      (s t : Db redis.Store) (e : Exception)
      → count (session_has_id session_id) s.sessions ≡ 0
      → OnlyUnused s.codes found.0.id
      → (start_faults session_id).compensation ≡ false
      → (start_faults session_id).load ≡ false
      → begin_session env user_id exam_id session_id now found s ≡ (err e, t)
      → IsTakenBack session_id s t
  begin_session-IsTakenBack user_id exam_id session_id now found s t e fresh unused undone loaded
        h =
      elim (begin_session-cases env user_id exam_id session_id now found s) [
        | inl used ↦ (cc (sym used ∙ h), inl (cc (ap (λ o. o.1.redis) (sym used ∙ h))))
        | inr (inl (r, failed, why)) ↦
            let back : t ≡ record s { redis = r } = ground (
              arith,
              failed,
              undone,
              h,
              restore_codes now found.0.id s.codes,
              delete_none (session_has_id session_id) s.sessions,
              eq_refl session_id,
            ) in
            (
              back ∙ ap (λ u. record s { redis = u.redis }) (sym back),
              elim why [ inl same ↦ inl (ap (λ u. u.redis) back ∙ same) | inr lost ↦ inr lost ],
            )
        | inr (inr (q, accepted, free, done)) ↦ absurd (ground (arith, done, loaded, h))
      ]

  -- If the ids of codes are distinct and the id of the new session is new, a `startExam` that throws
  -- has changed no table, Redis refusing the key included, and no key of Redis, unless the key was
  -- set and only the answer of Redis was lost. It is taken that the transaction that takes the start
  -- back does not fail, nor the reading of the questions at the end: each of these leaves the session
  -- and the used code behind.
  pub start_exam_fails :
      (user_id code exam_id session_id : String) (now : ℕ) (s t : Db redis.Store) (e : Exception)
      → HasUniqueKeys code_id s.codes
      → count (session_has_id session_id) s.sessions ≡ 0
      → (start_faults session_id).compensation ≡ false
      → (start_faults session_id).load ≡ false
      → start_exam env user_id code exam_id session_id now s ≡ (err e, t)
      → (t ≡ record s { redis = t.redis })
        × ((t.redis ≡ s.redis) ⊎ ((start_faults session_id).lost_reply ≡ true))
  unfolding start_exam
  start_exam_fails user_id code exam_id session_id now s t e unique fresh undone loaded h =
      let keeps = find_and_verify_code-keeps env user_id code exam_id now s in
      elim (Outcome-cases (find_and_verify_code env user_id code exam_id now s)) [
        | inr (x, u, bad) ↦ same-IsTakenBack session_id s t (ground (arith, bad, keeps, h))
        | inl ((c, exam), u, good) ↦
            let (_, _, (_, _, unused), _, alone) =
              find_and_verify_code_sound env
                (λ y. is_some y.used_at ≡ false → OnlyUnused s.codes y.id) user_id code exam_id now
                s u c exam good (All-alone code_id (λ y. is_some y.used_at) s.codes unique) in
            elim (Bool-cases (is_some (find (is_active_for user_id exam_id) s.sessions))) [
              | inl active ↦
                  same-IsTakenBack session_id s t (ground (arith, good, keeps, active, h))
              | inr idle ↦
                  begin_session-IsTakenBack user_id exam_id session_id now (c, exam) s t e fresh
                    (alone (ground arith)) undone loaded (ground (arith, good, keeps, idle, h))
            ]
      ]
