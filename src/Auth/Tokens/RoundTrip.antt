-- ===== src/Auth/Tokens/RoundTrip.antt =====
-- An issued token, taken to the flow that consumes it.
use ios_backend.Base.{
  ℕ, ◌+◌, ◌*◌, ◌≤◌, ◌≡◌, refl, String, List, [], ◌∷◌, select, update, le→leb, arith, ok, All,
  All-select, All-sort_by, All-update, sort_by, insert_by, descending, take,
}
use ios_backend.Auth.Types.{
  AuthToken, AuthTokenPurpose, AuthDb, is_unused_of, is_unused_for_purpose, is_unused_token,
}
use ios_backend.Auth.Platform.{AuthPlatform}
use ios_backend.Auth.Tokens.{
  use_token, use_up, consume_from, consume_auth_token, issue_auth_token, FreshToken, new_auth_token,
  auth_token_id, token_candidates, bcrypt_token_cost,
}
use ios_backend.Auth.Tokens.OneTime.{same_purpose_refl}

-- The serial has handed out no id from `n` on.
abbrev pub IdsBelow : ℕ → List AuthToken → Type 0
IdsBelow n = All (λ row. row.id ≤ n)

insert_newest :
    (x : AuthToken) (rows : List AuthToken)
    → IdsBelow x.id rows
    → insert_by (descending auth_token_id) x rows ≡ x ∷ rows
insert_newest x [] h = refl
insert_newest x (y ∷ ys) h = ground (arith, le→leb y.id x.id h.0)

module _ (env : AuthPlatform) where
  open env use {bcrypt}

  -- The rows that the issuing of a token withdraws.
  abbrev pub withdrawn : String → AuthTokenPurpose → ℕ → AuthDb → List AuthToken
  withdrawn user_id purpose now s =
      update (is_unused_of user_id purpose) (use_token now) s.auth_tokens

  -- The database after a token has been issued.
  abbrev pub issued_db : String → AuthTokenPurpose → ℕ → FreshToken → ℕ → AuthDb → AuthDb
  issued_db user_id purpose ttl_hours fresh now s = record s {
    auth_tokens =
        new_auth_token env user_id purpose ttl_hours fresh now s.next_auth_id
        ∷ withdrawn user_id purpose now s;
    next_auth_id = s.next_auth_id + 1;
  }

  pub issue_auth_token_lem :
      (user_id : String) (purpose : AuthTokenPurpose) (ttl_hours : ℕ) (fresh : FreshToken) (now : ℕ)
      (s : AuthDb)
      → issue_auth_token env user_id purpose ttl_hours fresh now s
        ≡ (ok fresh.plain, issued_db user_id purpose ttl_hours fresh now s)
  unfolding issue_auth_token
  issue_auth_token_lem user_id purpose ttl_hours fresh now s = refl

  candidates_newest :
      (user_id : String) (purpose : AuthTokenPurpose) (ttl_hours : ℕ) (fresh : FreshToken) (now : ℕ)
      (s t : AuthDb)
      → IdsBelow s.next_auth_id s.auth_tokens
      → t.auth_tokens ≡ (issued_db user_id purpose ttl_hours fresh now s).auth_tokens
      → token_candidates env purpose t
        ≡ new_auth_token env user_id purpose ttl_hours fresh now s.next_auth_id
          ∷ take 49 (
              sort_by
                (descending auth_token_id)
                (select (is_unused_for_purpose purpose) (withdrawn user_id purpose now s)))
  candidates_newest user_id purpose ttl_hours fresh now s t below rows =
      let before : IdsBelow s.next_auth_id (withdrawn user_id purpose now s) =
        All-update (λ row. row.id ≤ s.next_auth_id) (is_unused_of user_id purpose) (use_token now)
          s.auth_tokens (λ row e h. h) below in
      ground (
        arith,
        rows,
        same_purpose_refl purpose,
        insert_newest (new_auth_token env user_id purpose ttl_hours fresh now s.next_auth_id)
            (sort_by (descending auth_token_id)
              (select (is_unused_for_purpose purpose) (withdrawn user_id purpose now s)))
            (All-sort_by (λ row. row.id ≤ s.next_auth_id) (descending auth_token_id)
              (select (is_unused_for_purpose purpose) (withdrawn user_id purpose now s))
              (All-select (λ row. row.id ≤ s.next_auth_id) (is_unused_for_purpose purpose)
                (withdrawn user_id purpose now s) before)),
      )

  -- If no token id is above the serial, a token that has just been issued is accepted until it
  -- expires, for its purpose and as its user's, by a request that finds the tokens so; only
  -- its own row is used up.
  pub issue-consume :
      (user_id : String) (purpose : AuthTokenPurpose) (ttl_hours : ℕ) (fresh : FreshToken)
      (now later : ℕ) (s t : AuthDb)
      → IdsBelow s.next_auth_id s.auth_tokens
      → t.auth_tokens ≡ (issue_auth_token env user_id purpose ttl_hours fresh now s).1.auth_tokens
      → later ≤ now + ttl_hours * 60 * 60 * 1000
      → consume_auth_token env fresh.plain purpose later t ≡ (
        ok user_id,
        record t {
          auth_tokens = update (is_unused_token s.next_auth_id) (use_token later) t.auth_tokens;
        },
      )
  unfolding consume_auth_token consume_from use_up issue_auth_token
  issue-consume user_id purpose ttl_hours fresh now later s t below rows early = ground (
    arith,
    candidates_newest user_id purpose ttl_hours fresh now s t below rows,
    rows,
    bcrypt.compare-hash fresh.plain bcrypt_token_cost fresh.salt,
  )
