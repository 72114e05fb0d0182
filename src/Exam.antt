-- ===== src/Exam.antt =====
-- src/modules/exam: the life of an exam, from the access code to the attempt.
pub mod Types
pub mod Platform
pub mod Scoring
pub mod TestSessions
pub mod Codes
pub mod Sessions
pub mod Start
pub mod Submit
pub mod Keyspace
pub mod Gateway
pub mod Controller
pub mod Requests
