-- ===== src/Auth/Tokens/OneTime.antt =====
-- One-time tokens: who may use one, and how often.
use ios_backend.Base.{
  ℕ, ◌≡◌, ◌≢◌, refl, true, String, List, [], ◌∷◌, count, update, Bool-cases, inl, inr, arith, ok,
  err, All, Exception, bad_request, eq_refl, Memᴰ,
}
use ios_backend.Auth.Types.{
  AuthToken, AuthTokenPurpose, AuthDb, is_unused_of, is_unused_token, same_purpose,
}
use ios_backend.Auth.Platform.{AuthPlatform}
use ios_backend.Auth.Tokens.{use_token, use_up, consume_from, issue_auth_token, accepts, FreshToken}

count_used :
    (id now : ℕ) (rows : List AuthToken)
    → count (is_unused_token id) (update (is_unused_token id) (use_token now) rows) ≡ 0
count_used id now [] = refl
count_used id now (x ∷ xs) = ground (arith, count_used id now xs)

count_withdrawn :
    (user_id : String) (purpose : AuthTokenPurpose) (now : ℕ) (rows : List AuthToken)
    → count
        (is_unused_of user_id purpose)
        (update (is_unused_of user_id purpose) (use_token now) rows)
      ≡ 0
count_withdrawn user_id purpose now [] = refl
count_withdrawn user_id purpose now (x ∷ xs) =
    ground (arith, count_withdrawn user_id purpose now xs)

pub same_purpose_refl : (purpose : AuthTokenPurpose) → same_purpose purpose purpose ≡ true
same_purpose_refl AuthTokenPurpose.email_verification = refl
same_purpose_refl AuthTokenPurpose.password_reset = refl

module _ (env : AuthPlatform) where
  open env use {bcrypt}

  -- After a token has been issued, it is the only unused one of its user and purpose.
  pub issue_auth_token-count :
      (user_id : String) (purpose : AuthTokenPurpose) (ttl_hours : ℕ) (fresh : FreshToken) (now : ℕ)
      (s : AuthDb)
      → count
          (is_unused_of user_id purpose)
          (issue_auth_token env user_id purpose ttl_hours fresh now s).1.auth_tokens
        ≡ 1
  unfolding issue_auth_token
  issue_auth_token-count user_id purpose ttl_hours fresh now s = ground (
    arith,
    eq_refl user_id,
    same_purpose_refl purpose,
    count_withdrawn user_id purpose now s.auth_tokens,
  )

  -- Whoever gets through the loop over candidates that were read earlier has the text of one of
  -- them, which is not expired; its row was still unused at the conditional update, and no row of
  -- that id is unused after it.
  pub consume_from_sound :
      (rows : List AuthToken) (plain : String) (now : ℕ) (s t : AuthDb) (user_id : String)
      → consume_from env rows plain now s ≡ (ok user_id, t)
      → (row : AuthToken) × Memᴰ row rows
        × (row.user_id ≡ user_id)
        × (accepts env plain now row ≡ true)
        × (count (is_unused_token row.id) s.auth_tokens ≢ 0)
        × (count (is_unused_token row.id) t.auth_tokens ≡ 0)
  unfolding consume_from use_up
  consume_from_sound [] plain now s t user_id h = absurd (ground arith)
  consume_from_sound (row ∷ rows) plain now s t user_id h =
      elim (Bool-cases (accepts env plain now row)) [
        | inl taken ↦ (
          row,
          Memᴰ.head refl,
          ground arith,
          taken,
          ground arith,
          ground (arith, count_used row.id now s.auth_tokens),
        )
        | inr passed ↦
            let (r, m, own, taken, was, gone) =
              consume_from_sound rows plain now s t user_id (ground arith) in
            (r, Memᴰ.tail m, own, taken, was, gone)
      ]

  -- A request whose candidates have all been used up since it read them gets nothing, and changes
  -- nothing.
  pub consume_from_late :
      (rows : List AuthToken) (plain : String) (now : ℕ) (s : AuthDb)
      → All (λ row. count (is_unused_token row.id) s.auth_tokens ≡ 0) rows
      → (e : Exception) × (consume_from env rows plain now s ≡ (err e, s))
  unfolding consume_from use_up
  consume_from_late [] plain now s h = (bad_request "Token invalid or expired", refl)
  consume_from_late (row ∷ rows) plain now s (here, there) =
      let (e, rest) = consume_from_late rows plain now s there in
      elim (Bool-cases (accepts env plain now row)) [
        | inl taken ↦ (bad_request "Token invalid or already used", ground arith)
        | inr passed ↦ (e, ground arith)
      ]
