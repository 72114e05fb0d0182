-- ===== src/Examples.antt =====
-- Concrete runs: a platform whose Redis, JSON, bcrypt and tokens are plain functions, and the
-- theorems of the library applied to it.
mod Encoding
mod Rounding
mod Setting
mod Exam
mod Requests
mod Scoring
mod Auth
mod Learning
mod Ordering
mod Catalog
mod Gateway
mod Texts
mod Accounts
mod Controllers
