-- ===== src/Learning/Platform.antt =====
-- What the learning service takes from elsewhere: the links that `StorageService.getSignedUrl`
-- makes, and `Math.round((part / total) * 100)` in doubles, of which the order and the two ends are
-- kept and no rounding in between is assumed.
use ios_backend.Base.{ℕ, ◌≤◌, ◌<◌, ◌≡◌, String}

pub record LearningPlatform : Type 0 where
  pub sign_video : String → String
  pub percent_of : ℕ → ℕ → ℕ
  pub percent_of_none : (total : ℕ) → 0 < total → percent_of 0 total ≡ 0
  pub percent_of_all : (total : ℕ) → 0 < total → percent_of total total ≡ 100
  pub percent_of_mono :
      (a b total : ℕ) → a ≤ b → 0 < total → percent_of a total ≤ percent_of b total
