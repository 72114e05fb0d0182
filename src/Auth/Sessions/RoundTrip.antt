-- ===== src/Auth/Sessions/RoundTrip.antt =====
-- Logging in, and the first refresh after it.
use ios_backend.Base.{
  ℕ, ◌+◌, ◌*◌, ◌≤◌, ◌≡◌, refl, ◌∙◌, Bool, true, false, ◌&&◌, Option, none, some, String, List, [],
  ◌∷◌, count, find, update, Option-cases, inl, inr, arith, ok, err, unauthorized, eq_refl,
  update_none,
}
use ios_backend.Auth.Types.{
  AccountType, User, EmailParams, RefreshToken, RefreshTokenPayload, AuthTokenPurpose, AuthDb,
  refresh_has_id, is_unrevoked_with_id, user_has_id, user_has_email, is_unused_token,
}
use ios_backend.Auth.Platform.{AuthPlatform}
use ios_backend.Auth.Tokens.{
  revoke, issue_refresh_token, new_refresh_token, set_hash, bcrypt_token_cost, issue_auth_token,
  use_token,
}
use ios_backend.Auth.Tokens.RoundTrip.{IdsBelow, issued_db, issue-consume}
use ios_backend.Auth.Accounts.{
  normalised, register, verify_email, RegisterDto, FreshUser, new_user, bcrypt_password_cost,
  set_verified, email_verification_ttl_hours,
}
use ios_backend.Auth.Sessions.{
  rotate, claim_token, refresh, issue_student_session, login_student, student_login,
}

module _ (env : AuthPlatform) where
  open env use {bcrypt, sign_refresh, refresh_ttl_sec}

  abbrev pub has_password : Option User → String → Bool
  has_password none password = false
  has_password (some user) password = user.active && bcrypt.compare password user.password_hash

  -- An unknown email, an inactive account and a wrong password get one and the same answer, and
  -- nothing changes.
  pub login_student_refused :
      (email password : String) (now : ℕ) (salt : String) (s : AuthDb)
      → has_password (find (user_has_email (normalised env email)) s.users) password ≡ false
      → login_student env email password now salt s ≡ (err (unauthorized "Invalid credentials"), s)
  unfolding login_student
  login_student_refused email password now salt s bad =
      elim (Option-cases (find (user_has_email (normalised env email)) s.users)) [
        | inl missing ↦ ground (arith, missing)
        | inr (user, found) ↦ ground (arith, found)
      ]

  abbrev pub refresh_payload : User → ℕ → RefreshTokenPayload
  refresh_payload user id = record { sub = user.id; account_type = AccountType.student; jti = id }

  -- The row of a session that has been issued to a student.
  abbrev pub session_row : User → ℕ → String → ℕ → RefreshToken
  session_row user now salt id =
      set_hash (bcrypt.hash (sign_refresh (refresh_payload user id) now) bcrypt_token_cost salt)
        (new_refresh_token env user.id AccountType.student now id)

  rehash_none :
      (hash : String) (id : ℕ) (rows : List RefreshToken)
      → count (refresh_has_id id) rows ≡ 0
      → update (refresh_has_id id) (set_hash hash) rows ≡ rows
  rehash_none hash id rows h = update_none (refresh_has_id id) (set_hash hash) rows h

  -- A session adds one row, under the next serial, with the hash of the token that it returns.
  pub issue_student_session_lem :
      (user : User) (now : ℕ) (salt : String) (s : AuthDb)
      → count (refresh_has_id s.next_refresh_id) s.refresh_tokens ≡ 0
      → issue_student_session env user now salt s ≡ (
        ok (student_login env user now (sign_refresh (refresh_payload user s.next_refresh_id) now)),
        record s {
          refresh_tokens = session_row user now salt s.next_refresh_id ∷ s.refresh_tokens;
          next_refresh_id = s.next_refresh_id + 1;
        },
      )
  unfolding issue_student_session issue_refresh_token
  issue_student_session_lem user now salt s fresh = ground (
    arith,
    rehash_none
        (bcrypt.hash (sign_refresh (refresh_payload user s.next_refresh_id) now) bcrypt_token_cost
          salt)
        s.next_refresh_id s.refresh_tokens fresh,
  )

  -- The account of a student, right password and verified, gets a session.
  pub login_student_accepted :
      (email password : String) (now : ℕ) (salt : String) (s : AuthDb) (user : User)
      → find (user_has_email (normalised env email)) s.users ≡ some user
      → (user.active && bcrypt.compare password user.password_hash) && user.email_verified ≡ true
      → login_student env email password now salt s ≡ issue_student_session env user now salt s
  unfolding login_student
  login_student_accepted email password now salt s user found good = ground (arith, found)

  count_of_none :
      (id : ℕ) (rows : List RefreshToken)
      → count (refresh_has_id id) rows ≡ 0
      → count (is_unrevoked_with_id id) rows ≡ 0
  count_of_none id [] h = refl
  count_of_none id (x ∷ xs) h = ground (arith, count_of_none id xs)

  -- Log in, then refresh: for the active and verified account that has the email and the
  -- password, and is found by its id, the login succeeds, and its refresh token, until it
  -- expires, mints a second session of the same account; the first row is then revoked and the
  -- second is not. The next two serials are unused.
  pub login-refresh :
      (email password : String) (now later : ℕ) (salt salt_later : String) (s : AuthDb)
      (user : User)
      → find (user_has_email (normalised env email)) s.users ≡ some user
      → find (user_has_id user.id) s.users ≡ some user
      → (user.active && bcrypt.compare password user.password_hash) && user.email_verified ≡ true
      → count (refresh_has_id s.next_refresh_id) s.refresh_tokens ≡ 0
      → count (refresh_has_id (s.next_refresh_id + 1)) s.refresh_tokens ≡ 0
      → later ≤ now + refresh_ttl_sec * 1000
      → let t = (login_student env email password now salt s).1 in
        let raw_token = sign_refresh (refresh_payload user s.next_refresh_id) now in
        let (r, u) =
          refresh env (refresh_payload user s.next_refresh_id) raw_token later salt_later t in
        ((login_student env email password now salt s).0
          ≡ ok (student_login env user now raw_token))
        × (r
            ≡ ok (
                student_login env user later
                  (sign_refresh (refresh_payload user (s.next_refresh_id + 1)) later)))
        × (u.refresh_tokens
            ≡ session_row user later salt_later (s.next_refresh_id + 1)
              ∷ revoke later (session_row user now salt s.next_refresh_id)
              ∷ s.refresh_tokens)
  unfolding refresh rotate claim_token
  login-refresh email password now later salt salt_later s user found own good fresh next early =
      let id = s.next_refresh_id in
      let hash = bcrypt.hash (sign_refresh (refresh_payload user id) now) bcrypt_token_cost salt in
      let logged_in = record s {
        refresh_tokens = session_row user now salt id ∷ s.refresh_tokens;
        next_refresh_id = id + 1;
      } in
      let claimed = record logged_in {
        refresh_tokens = revoke later (session_row user now salt id) ∷ s.refresh_tokens;
      } in
      let first =
        login_student_accepted email password now salt s user found good
        ∙ issue_student_session_lem user now salt s fresh in
      let none_left = count_of_none id s.refresh_tokens fresh in
      let second : refresh env (refresh_payload user id)
            (sign_refresh (refresh_payload user id) now) later salt_later logged_in
          ≡ issue_student_session env user later salt_later claimed =
        ground (
          arith,
          none_left,
          update_none (is_unrevoked_with_id id) (revoke later) s.refresh_tokens none_left,
          bcrypt.compare-hash (sign_refresh (refresh_payload user id) now) bcrypt_token_cost salt,
          own,
        ) in
      let third = issue_student_session_lem user later salt_later claimed (ground arith) in
      rw first (rw (second ∙ third) (refl, refl, refl))

  -- Register with an email that no account has, then log in with it and the same password: the
  -- account is there, but the login is refused, and changes nothing, until the email is
  -- verified.
  pub register-login :
      (dto : RegisterDto) (fresh : FreshUser) (now later : ℕ) (salt : String) (s : AuthDb)
      → find (user_has_email (normalised env dto.email)) s.users ≡ none
      → let (r, t) = register env dto fresh now s in
        (r ≡ ok fresh.id)
        × (login_student env dto.email dto.password later salt t
            ≡ (err (unauthorized "Email not verified. Check your inbox."), t))
  unfolding register login_student issue_auth_token
  register-login dto fresh now later salt s free = (
    ground (arith, free),
    ground (
      arith,
      free,
      eq_refl (normalised env dto.email),
      bcrypt.compare-hash dto.password bcrypt_password_cost fresh.salt,
    ),
  )

  -- Register, verify, log in: with an email that no account has, and no token id above the
  -- serial, the token of the verification mail, presented within a day, verifies the new
  -- account, and from then on a login with its email and password gives a session.
  pub register-verify-login :
      (dto : RegisterDto) (fresh : FreshUser) (now later last : ℕ) (salt : String) (s : AuthDb)
      → find (user_has_email (normalised env dto.email)) s.users ≡ none
      → IdsBelow s.next_auth_id s.auth_tokens
      → later ≤ now + 24 * 60 * 60 * 1000
      → let t = (register env dto fresh now s).1 in
        let (r, u) = verify_email env fresh.token.plain later t in
        (r ≡ ok "Email verified. You can now log in.")
        × (login_student env dto.email dto.password last salt u
            ≡ issue_student_session env (set_verified later (new_user env dto fresh)) last salt u)
  unfolding register verify_email issue_auth_token
  register-verify-login dto fresh now later last salt s free below early =
      let user = new_user env dto fresh in
      let registered =
        record (issued_db env fresh.id AuthTokenPurpose.email_verification
          email_verification_ttl_hours fresh.token now s) {
            users = user ∷ s.users;
            mails = EmailParams.verification_email user.email user.id fresh.token.plain ∷ s.mails;
          } in
      let created : (register env dto fresh now s).1 ≡ registered = ground (arith, free) in
      let consumed =
        issue-consume env fresh.id AuthTokenPurpose.email_verification email_verification_ttl_hours
          fresh.token now later s registered below refl (omega arith) in
      let done = record registered {
        auth_tokens =
            update (is_unused_token s.next_auth_id) (use_token later) registered.auth_tokens;
        users = update (user_has_id fresh.id) (set_verified later) registered.users;
      } in
      let verified : verify_email env fresh.token.plain later registered
          ≡ (ok "Email verified. You can now log in.", done) =
        ground (arith, consumed) in
      let verified_user = set_verified later user in
      let others = update (user_has_id fresh.id) (set_verified later) s.users in
      let marked : update (user_has_id fresh.id) (set_verified later) (user ∷ s.users)
          ≡ verified_user ∷ others =
        ground (arith, eq_refl fresh.id) in
      let there : find (user_has_email (normalised env dto.email)) done.users ≡ some verified_user =
        ground (arith, marked, eq_refl user.email) in
      let good : bcrypt.compare dto.password
            (bcrypt.hash dto.password bcrypt_password_cost fresh.salt)
          ≡ true =
        bcrypt.compare-hash dto.password bcrypt_password_cost fresh.salt in
      rw created (
        rw verified (
          refl,
          login_student_accepted dto.email dto.password last salt done verified_user there
              (ground (arith, good)),
        ))
