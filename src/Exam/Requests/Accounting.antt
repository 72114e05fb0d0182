-- ===== src/Exam/Requests/Accounting.antt =====
-- Every attempt is paid for by the closing of one session.
use ios_backend.Base.{
  ℕ, ◌+◌, ◌≡◌, refl, ◌∙◌, ◌&&◌, ◌==◌, inl, inr, Bool, true, false, some, String, List, [], ◌∷◌,
  nat_eq, find, count, update, update_none, find_holds, if◌then◌else◌, Bool-cases, arith, eq_iff,
  All, All-map, All-Memᴰ, HasUniqueKeys, update-HasUniqueKeys, All-absent, All-update, ap, sym,
  count-update,
}
use ios_backend.Exam.Types.{
  TestSession, TestSessionStatus, ExamAttempt, Answers, AttemptStatus, Db, is_active,
  session_has_id, is_open_with_id, is_closed,
}
use ios_backend.Exam.Platform.{Platform}
use ios_backend.Exam.Submit.{close_session, closing_status, score_and_persist}
use ios_backend.Exam.Submit.Outcome.{score_and_persist_commits, score_and_persist_closed}
use ios_backend.Exam.Requests.{
  World, with_db, Step, Reach, reads, closes, mirrors, starts, expires, assigns, assigns_next,
  redis_moves, here, next,
}
use ios_backend.Exam.Requests.Rows.{
  handle_session_expiry-rows, start_exam-rows, assign_exam-rows, assign_next_exam-rows,
}
use ios_backend.Exam.Start.{start_exam}
use ios_backend.Exam.Start.Outcome.{started_row}
use ios_backend.Exam.Sessions.{mirror_snapshot}
use ios_backend.Exam.Keyspace.{handle_session_expiry}
use ios_backend.Exam.Start.Atomic.{session_id_of}

-- A closed session of the student for the exam, and an attempt of the same.
abbrev pub is_closed_for : String → String → TestSession → Bool
is_closed_for user_id exam_id s = s.user_id == user_id && s.exam_id == exam_id && is_closed s

abbrev pub is_attempt_for : String → String → ExamAttempt → Bool
is_attempt_for user_id exam_id a = a.user_id == user_id && a.exam_id == exam_id

-- The rows of the same id have the same student and exam.
abbrev pub Agrees : TestSession → TestSession → Type 0
Agrees row t = t.id ≡ row.id → (t.user_id ≡ row.user_id) × (t.exam_id ≡ row.exam_id)

-- Closing the open rows of an id.
abbrev close_rows : String → TestSessionStatus → ℕ → Answers → List TestSession → List TestSession
close_rows id status now answers = update (is_open_with_id id) (close_session status now answers)

module _ (user_id exam_id : String) where
  count-close :
      (row : TestSession) (status : AttemptStatus) (now : ℕ) (answers : Answers)
      (xs : List TestSession)
      → All (Agrees row) xs
      → count
          (is_closed_for user_id exam_id)
          (close_rows row.id (closing_status status) now answers xs)
        ≡ count (is_closed_for user_id exam_id) xs
          + (if row.user_id == user_id && row.exam_id == exam_id
              then count (is_open_with_id row.id) xs
              else 0)
  count-close row status now answers [] h = ground arith
  count-close row status now answers (x ∷ xs) h = elim (Bool-cases (x.id == row.id)) [
    | inl same ↦
        let (user, exam) = h.0 ((eq_iff x.id row.id).0 same) in
        ground (arith, same, user, exam, count-close row status now answers xs h.1)
    | inr other ↦ ground (arith, other, count-close row status now answers xs h.1)
  ]

  count-expire :
      (id : String) (row : TestSession) (xs : List TestSession)
      → HasUniqueKeys session_id_of xs
      → find (session_has_id id) xs ≡ some row
      → is_active row.status ≡ true
      → count
          (is_closed_for user_id exam_id)
          (update (session_has_id id) (λ t. record t { status = TestSessionStatus.expired }) xs)
        ≡ count (is_closed_for user_id exam_id) xs
  count-expire id row [] u e a = refl
  count-expire id row (x ∷ xs) u e a = elim (Bool-cases (x.id == id)) [
    | inl same ↦ ground (
      arith,
      same,
      eq_iff x.id id,
      update_none (session_has_id id) (λ t. record t { status = TestSessionStatus.expired }) xs,
    )
    | inr other ↦ ground (arith, other, count-expire id row xs u.1)
  ]

find-Agrees :
    (id : String) (row : TestSession) (xs : List TestSession)
    → HasUniqueKeys session_id_of xs
    → find (session_has_id id) xs ≡ some row
    → All (Agrees row) xs
find-Agrees id row [] u e = tt
find-Agrees id row (x ∷ xs) u e = elim (Bool-cases (x.id == id)) [
  | inl same ↦
      let is_row : x ≡ row = ground (arith, same) in
      (
        (λ _. ground (arith, is_row)),
        All-map (λ y. (y.id == x.id) ≡ false) (Agrees row) xs
            (λ y ne k. ground (arith, is_row, eq_iff y.id x.id))
            (All-absent session_id_of x.id xs u.0),
      )
  | inr other ↦
      let there : find (session_has_id id) xs ≡ some row = ground (arith, other) in
      let held = find_holds (session_has_id id) xs row there in
      (
        (λ k. absurd (ground (arith, other, held, eq_iff x.id id, eq_iff row.id id))),
        find-Agrees id row xs u.1 there,
      )
]

-- The requests of one student for one exam.
module _ (env : Platform) (user_id exam_id : String) where
  open env use {redis}

  -- The ids of sessions are distinct, the rows that requests hold are up to date in their ids, and there
  -- are as many attempts as closed sessions.
  pub record IsAccounted (w : World redis.Store) : Type 0 where
    pub unique : HasUniqueKeys session_id_of w.db.sessions
    pub agree : All (λ row. All (Agrees row) w.db.sessions) w.held
    pub balance :
        count (is_attempt_for user_id exam_id) w.db.attempts
        ≡ count (is_closed_for user_id exam_id) w.db.sessions

  -- A write of rows that leaves their ids, students and exams alone.
  rewritten :
      (p : TestSession → Bool) (f : TestSession → TestSession) (w : World redis.Store)
      (s : Db redis.Store)
      → ((x : TestSession)
          → ((f x).id ≡ x.id) × ((f x).user_id ≡ x.user_id) × ((f x).exam_id ≡ x.exam_id))
      → s.sessions ≡ update p f w.db.sessions
      → count (is_attempt_for user_id exam_id) s.attempts
        ≡ count (is_closed_for user_id exam_id) (update p f w.db.sessions)
      → IsAccounted w
      → IsAccounted (with_db w s)
  rewritten p f w s same e balance v = record {
    unique = rw e (update-HasUniqueKeys session_id_of p f w.db.sessions (λ x. (same x).0) v.unique);
    agree = rw e (
        All-map (λ row. All (Agrees row) w.db.sessions)
          (λ row. All (Agrees row) (update p f w.db.sessions)) w.held
          (λ row h.
            All-update (Agrees row) p f w.db.sessions
              (λ x _ k j. ground (arith, same x, k (ground (arith, same x)))) h)
          v.agree);
    balance = rw e balance;
  }

  unchanged :
      (w : World redis.Store) (s : Db redis.Store)
      → s.sessions ≡ w.db.sessions
      → s.attempts ≡ w.db.attempts
      → IsAccounted w
      → IsAccounted (with_db w s)
  unchanged w s e f v = record {
    unique = rw e v.unique;
    agree = rw e v.agree;
    balance = rw (e, f) v.balance;
  }

  closes-IsAccounted :
      (w : World redis.Store) (row : TestSession) (answers : Answers) (status : AttemptStatus)
      (late : Bool) (now : ℕ) (id : String)
      → All (Agrees row) w.db.sessions
      → IsAccounted w
      → IsAccounted (with_db w (score_and_persist env row answers status late now id w.db).1)
  closes-IsAccounted w row answers status late now id h v =
      elim (Bool-cases (nat_eq (count (is_open_with_id row.id) w.db.sessions) 1)) [
        | inl one ↦
            let done =
              score_and_persist_commits env row answers status late now id w.db (ground arith) in
            rewritten (is_open_with_id row.id) (close_session (closing_status status) now answers) w
              _ (λ x. (refl, refl, refl)) (ap (λ d. d.sessions) done.0)
              (rw (ap (λ d. d.attempts) done.0) (
                ground (
                  arith,
                  count-close user_id exam_id row status now answers w.db.sessions h,
                  v.balance,
                )))
              v
        | inr other ↦
            rw (score_and_persist_closed env row answers status late now id w.db (ground arith))
              (unchanged w w.db refl refl v)
      ]

  mirrors-IsAccounted :
      (w : World redis.Store) (row : TestSession) (answers : Answers)
      → IsAccounted w
      → IsAccounted (with_db w (mirror_snapshot env row answers w.db).1)
  unfolding mirror_snapshot
  mirrors-IsAccounted w row answers v =
      rewritten (session_has_id row.id) (λ t. record t { snapshot = some answers }) w _
        (λ x. (refl, refl, refl)) refl
        (v.balance
          ∙ sym (
              count-update (session_has_id row.id) (is_closed_for user_id exam_id)
                (λ t. record t { snapshot = some answers }) w.db.sessions (λ x. refl)))
        v

  expires-IsAccounted :
      (w : World redis.Store) (id : String) (now : ℕ)
      → IsAccounted w
      → IsAccounted (with_db w (handle_session_expiry env id now w.db).1)
  expires-IsAccounted w id now v =
      let (attempts, rows) = handle_session_expiry-rows env id now w.db in
      elim rows [
        | inl same ↦ unchanged w _ same attempts v
        | inr (row, found, active, done) ↦
            rewritten (session_has_id id) (λ t. record t { status = TestSessionStatus.expired }) w _
              (λ x. (refl, refl, refl)) done
              (rw attempts (
                v.balance
                ∙ sym (count-expire user_id exam_id id row w.db.sessions v.unique found active)))
              v
      ]

  -- A new active row under a new id.
  added :
      (w : World redis.Store) (s : Db redis.Store) (x : TestSession)
      → count (session_has_id x.id) w.db.sessions ≡ 0
      → All (λ row. (row.id == x.id) ≡ false) w.held
      → is_closed x ≡ false
      → s.sessions ≡ x ∷ w.db.sessions
      → s.attempts ≡ w.db.attempts
      → IsAccounted w
      → IsAccounted (with_db w s)
  added w s x fresh unheld idle rows attempts v = record {
    unique = rw rows (fresh, v.unique);
    agree = rw rows (agrees w.held unheld v.agree);
    balance = rw (rows, attempts) (ground (arith, v.balance));
  }
    where
      agrees :
          (held : List TestSession)
          → All (λ row. (row.id == x.id) ≡ false) held
          → All (λ row. All (Agrees row) w.db.sessions) held
          → All (λ row. All (Agrees row) (x ∷ w.db.sessions)) held
      agrees [] u h = tt
      agrees (r ∷ rs) u h = (((λ k. ground (arith, u.0, eq_iff r.id x.id)), h.0), agrees rs u.1 h.1)

  starts-IsAccounted :
      (w : World redis.Store) (user code exam id : String) (now : ℕ)
      → count (session_has_id id) w.db.sessions ≡ 0
      → All (λ row. (row.id == id) ≡ false) w.held
      → IsAccounted w
      → IsAccounted (with_db w (start_exam env user code exam id now w.db).1)
  starts-IsAccounted w user code exam id now fresh unheld v =
      let (attempts, rows) = start_exam-rows env user code exam id now w.db fresh in
      elim rows [
        | inl same ↦ unchanged w _ same attempts v
        | inr (found, done) ↦
            added w _ (started_row env user exam id now found) fresh unheld refl done attempts v
      ]

  -- Every step keeps the account.
  step-IsAccounted : {w u : World redis.Store} → Step env w u → IsAccounted w → IsAccounted u
  step-IsAccounted {w} (reads id row found) v = record {
    unique = v.unique;
    agree = (find-Agrees id row w.db.sessions v.unique found, v.agree);
    balance = v.balance;
  }
  step-IsAccounted {w} (closes row answers status late now id held) v =
      closes-IsAccounted w row answers status late now id
        (All-Memᴰ (λ r. All (Agrees r) w.db.sessions) held v.agree) v
  step-IsAccounted {w} (mirrors row answers held) v = mirrors-IsAccounted w row answers v
  step-IsAccounted {w} (starts user code exam id now fresh unheld) v =
      starts-IsAccounted w user code exam id now fresh unheld v
  step-IsAccounted {w} (expires id now) v = expires-IsAccounted w id now v
  step-IsAccounted {w} (assigns user exam cert fresh now) v =
      let (rows, attempts) = assign_exam-rows env user exam cert fresh now w.db in
      unchanged w _ rows attempts v
  step-IsAccounted {w} (assigns_next user cert fresh now) v =
      let (rows, attempts) = assign_next_exam-rows env user cert fresh now w.db in
      unchanged w _ rows attempts v
  step-IsAccounted {w} (redis_moves t) v = unchanged w _ refl refl v

  -- From a state in which session ids are distinct, the rows that requests hold agree with the
  -- table, and a student has for an exam as many attempts as closed sessions, every
  -- interleaving of requests leads to such a state again: no session is scored twice, and none
  -- is closed without its attempt. The expiry handler reads and writes in one step here, and
  -- the ids of new sessions are new.
  pub Reach-IsAccounted : {w u : World redis.Store} → Reach env w u → IsAccounted w → IsAccounted u
  Reach-IsAccounted here v = v
  Reach-IsAccounted (next r st) v = step-IsAccounted st (Reach-IsAccounted r v)
