-- ===== src/Exam/Platform.antt =====
-- What the exam services take from outside the repository: bcrypt, JSON and the Redis client; and
-- how a method over the Redis store runs inside one over the whole store.
use ios_backend.Base.{ℕ, ◌+◌, ◌*◌, ◌≤◌, ◌<◌, ◌≡◌, Bool, String, Action}
use ios_backend.Crypto.{Bcrypt}
use ios_backend.Redis.Client.{RedisClient, Json}
use ios_backend.Exam.Types.{Answers, Db}

-- `ExamSessionData` of test-session.service.ts, the JSON at `exam:session:{id}`.
pub record ExamSessionData : Type 0 where
  pub session_id : String
  pub user_id : String
  pub exam_id : String
  pub cert_id : String
  pub started_at : ℕ
  pub answers : Answers

-- The JSON at `exam:grace:{id}`.
pub record GraceData : Type 0 where
  pub snapshot : Answers

-- `parseFloat((earned / total * 100).toFixed(2))` in hundredths, for marks that are not negative, in
-- the doubles of the runtime: it grows with the marks, the whole is 100.00, and as far as the doubles
-- resolve the quotient, it is a nearest hundredth. At a tie it may be the one above or the one below.
pub record Rounding : Type 0 where
  pub round : ℕ → ℕ → ℕ
  pub round_mono : (a b total : ℕ) → a ≤ b → round a total ≤ round b total
  pub round_all : (total : ℕ) → 0 < total → round total total ≡ 10000
  pub round_nearest :
      (earned total : ℕ)
      → 0 < total
      → earned ≤ total
      → total ≤ 100000000000
      → (2 * total * round earned total ≤ earned * 20000 + total)
        × (earned * 20000 ≤ 2 * total * round earned total + total)

-- What goes wrong in a start after its transaction: the answer of Redis to the new key is lost although
-- the key is set, the transaction that takes the start back fails, or the questions cannot be read.
pub record StartFaults : Type 0 where
  pub lost_reply : Bool
  pub compensation : Bool
  pub load : Bool

-- `start_faults` is for the start of the session with this id, and as ids are new, for one start.
pub record Platform : Type 1 where
  pub redis : RedisClient
  pub session_json : Json ExamSessionData
  pub grace_json : Json GraceData
  pub bcrypt : Bcrypt
  pub rounding : Rounding
  pub start_faults : String → StartFaults

abbrev pub on_redis : {R A : Type 0} → Action R A → Action (Db R) A
on_redis m s = let (r, t) = m s.redis in (r, record s { redis = t })
