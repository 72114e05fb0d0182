-- ===== src/Crypto.antt =====
-- bcrypt, which is not part of the repository: a hash of a text at a cost under a salt, and the
-- test of a text against a hash.
use ios_backend.Base.{ℕ, Bool, true, ◌≡◌, String}

pub record Bcrypt : Type 0 where
  pub hash : String → ℕ → String → String
  pub compare : String → String → Bool
  pub compare-hash :
      (plain : String) (cost : ℕ) (salt : String) → compare plain (hash plain cost salt) ≡ true
