-- ===== src/Auth/Sessions/Rotation.antt =====
-- Refresh tokens: rotation, the detection of reuse, and two requests with one token.
use ios_backend.Base.{
  ℕ, ◌<◌, ◌≤◌, ◌≡◌, ◌≢◌, ap, true, none, some, String, ◌∷◌, count, find, find_holds, update,
  Option-cases, inl, inr, arith, ok, err, unauthorized,
}
use ios_backend.Auth.Types.{
  AccountType, RefreshToken, RefreshTokenPayload, Login, AuthDb, is_unrevoked_of, refresh_has_id,
  is_unrevoked_with_id, user_has_id, admin_has_id,
}
use ios_backend.Auth.Platform.{AuthPlatform}
use ios_backend.Auth.Tokens.{
  revoke, revoke_all_refresh_tokens, issue_refresh_token, new_refresh_token, bcrypt_token_cost,
}
use ios_backend.Auth.Tokens.Revocation.{
  revoke_all_refresh_tokens-count, count_claimed, count_hashed,
}
use ios_backend.Auth.Sessions.{
  rotate, claim_token, refresh, session_of, issue_student_session, issue_admin_session,
}

module _ (env : AuthPlatform) where
  open env use {bcrypt, sign_refresh, refresh_ttl_sec}

  -- A refresh with a token that has been revoked, but has not expired, is refused and ends every
  -- session of the subject, whatever the token's text: exactly the subject's unrevoked rows of the
  -- same kind of account are revoked, every other row of a token stays as it is, and nothing else
  -- changes.
  pub refresh_replayed :
      (payload : RefreshTokenPayload) (raw_token : String) (now : ℕ) (salt : String) (s : AuthDb)
      (stored : RefreshToken)
      → find (refresh_has_id payload.jti) s.refresh_tokens ≡ some stored
      → now ≤ stored.expires_at
      → stored.revoked_at ≢ none
      → let (r, t) = refresh env payload raw_token now salt s in
        (r ≡ err (unauthorized "Session invalidated. Please log in again."))
        × (count (is_unrevoked_of payload.sub payload.account_type) t.refresh_tokens ≡ 0)
        × (t ≡ record s {
          refresh_tokens =
              update
                (is_unrevoked_of payload.sub payload.account_type)
                (λ row. record row { revoked_at = some now })
                s.refresh_tokens;
        })
  unfolding refresh rotate revoke_all_refresh_tokens
  refresh_replayed payload raw_token now salt s stored found early revoked =
      elim (Option-cases stored.revoked_at) [
        | inl e ↦ absurd (revoked e)
        | inr (time, e) ↦ (
          ground (arith, found, e),
          ground (
            arith,
            found,
            e,
            revoke_all_refresh_tokens-count payload.sub payload.account_type now s,
          ),
          ground (arith, found, e),
        )
      ]

  -- A request that has read a token as unrevoked, while another request revoked the row, loses:
  -- it is refused, and every session of the subject ends.
  pub rotate_late :
      (stored : RefreshToken) (payload : RefreshTokenPayload) (raw_token : String) (now : ℕ)
      (salt : String) (s : AuthDb)
      → stored.revoked_at ≡ none
      → bcrypt.compare raw_token stored.token_hash ≡ true
      → count (is_unrevoked_with_id stored.id) s.refresh_tokens ≡ 0
      → let (r, t) = rotate env stored payload raw_token now salt s in
        (r ≡ err (unauthorized "Session invalidated. Please log in again."))
        × (count (is_unrevoked_of payload.sub payload.account_type) t.refresh_tokens ≡ 0)
  unfolding rotate claim_token revoke_all_refresh_tokens
  rotate_late stored payload raw_token now salt s fresh matches gone = (
    ground (arith, fresh, matches, gone),
    ground (
      arith,
      fresh,
      matches,
      gone,
      revoke_all_refresh_tokens-count payload.sub payload.account_type now (record s {
        refresh_tokens = update (is_unrevoked_with_id stored.id) (revoke now) s.refresh_tokens;
      }),
    ),
  )

  -- Issuing a token under a new serial leaves the unrevoked rows of another id as they are.
  issue_refresh_token-others :
      (sub : String) (kind : AccountType) (now : ℕ) (salt : String) (id : ℕ) (s : AuthDb)
      → id < s.next_refresh_id
      → count
          (is_unrevoked_with_id id)
          (issue_refresh_token env sub kind now salt s).1.refresh_tokens
        ≡ count (is_unrevoked_with_id id) s.refresh_tokens
  unfolding issue_refresh_token
  issue_refresh_token-others sub kind now salt id s below = ground (
    arith,
    count_hashed
        (bcrypt.hash
          (sign_refresh (record { sub = sub; account_type = kind; jti = s.next_refresh_id }) now)
          bcrypt_token_cost salt)
        s.next_refresh_id id
        (new_refresh_token env sub kind now s.next_refresh_id ∷ s.refresh_tokens),
  )

  session_of-others :
      (kind : AccountType) (sub : String) (now : ℕ) (salt : String) (id : ℕ) (s : AuthDb)
      → id < s.next_refresh_id
      → count (is_unrevoked_with_id id) (session_of env kind sub now salt s).1.refresh_tokens
        ≡ count (is_unrevoked_with_id id) s.refresh_tokens
  unfolding issue_student_session issue_admin_session
  session_of-others AccountType.student sub now salt id s below =
      elim (Option-cases (find (user_has_id sub) s.users)) [
        | inl missing ↦ ground (arith, missing)
        | inr (user, found) ↦ ground (
          arith,
          found,
          issue_refresh_token-others user.id AccountType.student now salt id s below,
        )
      ]
  session_of-others AccountType.admin sub now salt id s below =
      elim (Option-cases (find (admin_has_id sub) s.admins)) [
        | inl missing ↦ ground (arith, missing)
        | inr (admin, found) ↦ ground (
          arith,
          found,
          issue_refresh_token-others admin.id AccountType.admin now salt id s below,
        )
      ]

  -- A token that has minted a session is spent.
  claim_token-spent :
      (stored : RefreshToken) (payload : RefreshTokenPayload) (now : ℕ) (salt : String) (s : AuthDb)
      → stored.id < s.next_refresh_id
      → count (is_unrevoked_with_id stored.id) s.refresh_tokens ≡ 1
      → count
          (is_unrevoked_with_id stored.id)
          (claim_token env stored payload now salt s).1.refresh_tokens
        ≡ 0
  unfolding claim_token
  claim_token-spent stored payload now salt s below one =
      let claimed = update (is_unrevoked_with_id stored.id) (revoke now) s.refresh_tokens in
      ground (
        arith,
        one,
        count_claimed stored.id now s.refresh_tokens,
        session_of-others payload.account_type payload.sub now salt stored.id
            (record s { refresh_tokens = claimed }) below,
      )

  -- First writer wins: two requests have read one unrevoked row, whose id the serial has
  -- handed out before. Once the first has its session, the second, whose text also fits the
  -- row's hash, is refused, and every session of the second's subject ends then.
  pub rotate_once :
      (stored : RefreshToken) (payload other : RefreshTokenPayload) (raw_token raw_other : String)
      (now later : ℕ) (salt salt_other : String) (s t : AuthDb) (login : Login)
      → stored.revoked_at ≡ none
      → stored.id < s.next_refresh_id
      → rotate env stored payload raw_token now salt s ≡ (ok login, t)
      → bcrypt.compare raw_other stored.token_hash ≡ true
      → let (r, u) = rotate env stored other raw_other later salt_other t in
        (r ≡ err (unauthorized "Session invalidated. Please log in again."))
        × (count (is_unrevoked_of other.sub other.account_type) u.refresh_tokens ≡ 0)
  unfolding rotate claim_token
  rotate_once stored payload other raw_token raw_other now later salt salt_other s t login fresh
        below h matches =
      let claimed : claim_token env stored payload now salt s ≡ (ok login, t) =
        ground (arith, fresh) in
      let one : count (is_unrevoked_with_id stored.id) s.refresh_tokens ≡ 1 =
        ground (arith, fresh, claimed) in
      let spent : count (is_unrevoked_with_id stored.id) t.refresh_tokens ≡ 0 = ground (
        arith,
        ap (λ o. count (is_unrevoked_with_id stored.id) o.1.refresh_tokens) claimed,
        claim_token-spent stored payload now salt s below one,
      ) in
      rotate_late stored other raw_other later salt_other t fresh matches spent

  -- A refresh that succeeds, with a token id that the serial has handed out, was made with a
  -- token whose row was there, had not expired or been revoked, and has the hash of the
  -- token's text; no row of that id is unrevoked afterwards.
  pub refresh_succeeds :
      (payload : RefreshTokenPayload) (raw_token : String) (now : ℕ) (salt : String) (s t : AuthDb)
      (login : Login)
      → payload.jti < s.next_refresh_id
      → refresh env payload raw_token now salt s ≡ (ok login, t)
      → (stored : RefreshToken) × (find (refresh_has_id payload.jti) s.refresh_tokens ≡ some stored)
        × (now ≤ stored.expires_at)
        × (stored.revoked_at ≡ none)
        × (bcrypt.compare raw_token stored.token_hash ≡ true)
        × (count (is_unrevoked_with_id payload.jti) t.refresh_tokens ≡ 0)
  unfolding refresh rotate claim_token
  refresh_succeeds payload raw_token now salt s t login below h =
      elim (Option-cases (find (refresh_has_id payload.jti) s.refresh_tokens)) [
        | inl missing ↦ absurd (ground (arith, missing))
        | inr (stored, found) ↦
            let same : stored.id ≡ payload.jti =
              ground
                (arith, find_holds (refresh_has_id payload.jti) s.refresh_tokens stored found) in
            let fresh : stored.revoked_at ≡ none = ground (arith, found) in
            let claimed : claim_token env stored payload now salt s ≡ (ok login, t) =
              ground (arith, found) in
            let one : count (is_unrevoked_with_id stored.id) s.refresh_tokens ≡ 1 =
              ground (arith, claimed) in
            (
              stored,
              found,
              ground (arith, found),
              fresh,
              ground (arith, found),
              ground (
                arith,
                same,
                ap (λ o. count (is_unrevoked_with_id stored.id) o.1.refresh_tokens) claimed,
                claim_token-spent stored payload now salt s (ground (arith, same)) one,
              ),
            )
      ]
