-- ===== src/Auth/Tokens.antt =====
-- The tokens of src/modules/auth/auth.service.ts: `issueAuthToken`, `consumeAuthToken`,
-- `issueRefreshToken` and `revokeAllRefreshTokens`. Random texts, salts and the time come in as
-- arguments. The candidates that `consumeAuthToken` reads are an argument of its loop, since
-- requests of others can come between the read and the conditional update.
pub mod Revocation
pub mod OneTime
pub mod RoundTrip
use ios_backend.Base.{
  ℕ, ◌+◌, ◌-◌, ◌*◌, Bool, not, ◌&&◌, Option, none, some, String, List, [], ◌∷◌, ltb, nat_eq,
  if◌then◌else◌, count, select, update, sort_by, descending, Action, Result, ok, err, pure, raise,
  gets, modify, ◌>>=◌, ◌>>◌, bad_request, take,
}
use ios_backend.Auth.Types.{
  AccountType, RefreshToken, TokenOwnerType, AuthToken, AuthTokenPurpose, RefreshTokenPayload,
  AuthDb, refresh_has_id, is_unrevoked_of, is_unused_of, is_unused_for_purpose, is_unused_token,
}
use ios_backend.Auth.Platform.{AuthPlatform}

abbrev pub bcrypt_token_cost : ℕ
bcrypt_token_cost = 10

-- What an issued token draws.
pub record FreshToken : Type 0 where
  pub plain : String
  pub salt : String

abbrev pub revoke : ℕ → RefreshToken → RefreshToken
revoke now t = record t { revoked_at = some now }

abbrev pub use_token : ℕ → AuthToken → AuthToken
use_token now t = record t { used_at = some now }

abbrev pub set_hash : String → RefreshToken → RefreshToken
set_hash h t = record t { token_hash = h }

abbrev pub auth_token_id : AuthToken → ℕ
auth_token_id t = t.id

abbrev student_id : AccountType → String → Option String
student_id AccountType.student subject_id = some subject_id
student_id AccountType.admin subject_id = none

abbrev admin_id : AccountType → String → Option String
admin_id AccountType.student subject_id = none
admin_id AccountType.admin subject_id = some subject_id

abbrev owner_of : AccountType → TokenOwnerType
owner_of AccountType.student = TokenOwnerType.user_owner
owner_of AccountType.admin = TokenOwnerType.admin_owner

unfoldable pub revoke_all_refresh_tokens : String → AccountType → ℕ → Action AuthDb (Unit {0})
revoke_all_refresh_tokens subject_id kind now = modify (λ s. record s {
  refresh_tokens = update (is_unrevoked_of subject_id kind) (revoke now) s.refresh_tokens;
})

module _ (env : AuthPlatform) where
  open env use {bcrypt, sign_refresh, refresh_ttl_sec}

  abbrev pub new_refresh_token : String → AccountType → ℕ → ℕ → RefreshToken
  new_refresh_token subject_id kind now id = record {
    id = id;
    user_id = student_id kind subject_id;
    admin_id = admin_id kind subject_id;
    owner_type = owner_of kind;
    token_hash = "pending";
    expires_at = now + refresh_ttl_sec * 1000;
    revoked_at = none;
  }

  -- The row gets its hash after it has been inserted, because the token holds the id of the row.
  unfoldable pub issue_refresh_token : String → AccountType → ℕ → String → Action AuthDb String
  issue_refresh_token subject_id kind now salt = do
    id ← gets (λ s. s.next_refresh_id)
    modify (λ s. record s {
      refresh_tokens = new_refresh_token subject_id kind now id ∷ s.refresh_tokens;
      next_refresh_id = id + 1;
    })
    let jwt_token = sign_refresh (record { sub = subject_id; account_type = kind; jti = id }) now
    modify (λ s. record s {
      refresh_tokens =
          update (refresh_has_id id) (set_hash (bcrypt.hash jwt_token bcrypt_token_cost salt))
            s.refresh_tokens;
    })
    pure jwt_token

  abbrev pub new_auth_token : String → AuthTokenPurpose → ℕ → FreshToken → ℕ → ℕ → AuthToken
  new_auth_token user_id purpose ttl_hours fresh now id = record {
    id = id;
    user_id = user_id;
    purpose = purpose;
    token_hash = bcrypt.hash fresh.plain bcrypt_token_cost fresh.salt;
    expires_at = now + ttl_hours * 60 * 60 * 1000;
    used_at = none;
  }

  unfoldable pub issue_auth_token :
      String → AuthTokenPurpose → ℕ → FreshToken → ℕ → Action AuthDb String
  issue_auth_token user_id purpose ttl_hours fresh now = do
    modify (λ s. record s {
      auth_tokens = update (is_unused_of user_id purpose) (use_token now) s.auth_tokens;
    })
    modify (λ s. record s {
      auth_tokens =
          new_auth_token user_id purpose ttl_hours fresh now s.next_auth_id ∷ s.auth_tokens;
      next_auth_id = s.next_auth_id + 1;
    })
    pure fresh.plain

  -- `UPDATE … WHERE id = row.id AND used_at IS NULL`, which must affect a row.
  unfoldable pub use_up : AuthToken → ℕ → Action AuthDb String
  use_up row now s =
      if nat_eq (count (is_unused_token row.id) s.auth_tokens) 0
      then (err (bad_request "Token invalid or already used"), s)
      else (
        ok row.user_id,
        record s { auth_tokens = update (is_unused_token row.id) (use_token now) s.auth_tokens },
      )

  -- A candidate that the loop takes.
  abbrev pub accepts : String → ℕ → AuthToken → Bool
  accepts plain now row = not (ltb row.expires_at now) && bcrypt.compare plain row.token_hash

  -- The loop over the candidates.
  unfoldable pub consume_from : List AuthToken → String → ℕ → Action AuthDb String
  unfolding use_up
  consume_from [] plain now s = (err (bad_request "Token invalid or expired"), s)
  consume_from (row ∷ rows) plain now s =
      let rest = consume_from rows plain now s in
      if ltb row.expires_at now
      then rest
      else (if bcrypt.compare plain row.token_hash then use_up row now s else rest)

  abbrev pub token_candidates : AuthTokenPurpose → AuthDb → List AuthToken
  token_candidates purpose s =
      take 50
        (sort_by (descending auth_token_id) (select (is_unused_for_purpose purpose) s.auth_tokens))

  unfoldable pub consume_auth_token : String → AuthTokenPurpose → ℕ → Action AuthDb String
  unfolding consume_from
  consume_auth_token plain purpose now s = consume_from (token_candidates purpose s) plain now s
