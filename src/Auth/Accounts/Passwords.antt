-- ===== src/Auth/Accounts/Passwords.antt =====
-- Changing a password: by a mailed token, and by the current password.
use ios_backend.Base.{
  ℕ, ◌+◌, ◌*◌, ◌≤◌, ◌≡◌, refl, Bool, true, false, not, ◌&&◌, ◌==◌, Option, none, some, String, List,
  [], ◌∷◌, count, find, update, Option-cases, Outcome-cases, inl, inr, arith, ok, err, unauthorized,
  bad_request, All, select, subst, if◌then◌else◌,
}
use ios_backend.Auth.Types.{
  AccountType, User, EmailParams, AuthTokenPurpose, AuthDb, is_unrevoked_of, user_has_id,
  user_has_email, is_unused_token,
}
use ios_backend.Auth.Platform.{AuthPlatform}
use ios_backend.Auth.Tokens.{
  FreshToken, use_token, revoke_all_refresh_tokens, consume_auth_token, issue_auth_token,
}
use ios_backend.Auth.Tokens.Revocation.{revoke_all_refresh_tokens-count}
use ios_backend.Auth.Tokens.RoundTrip.{IdsBelow, issued_db, issue-consume}
use ios_backend.Auth.Accounts.{
  forgot_password, reset_password, change_password, write_password, normalised, set_password,
  bcrypt_password_cost, password_reset_ttl_hours,
}

module _ (env : AuthPlatform) where
  open env use {bcrypt}

  abbrev pub may_change : Option User → String → Bool
  may_change none current_password = false
  may_change (some user) current_password =
      user.active && bcrypt.compare current_password user.password_hash

  -- The user's rows take the password, and no session of the user is left.
  abbrev pub HasPassword : String → String → AuthDb → Type 0
  HasPassword user_id password s =
      All (λ u. bcrypt.compare password u.password_hash ≡ true)
        (select (user_has_id user_id) s.users)
      × (count (is_unrevoked_of user_id AccountType.student) s.refresh_tokens ≡ 0)

  set_password-All :
      (user_id password salt : String) (users : List User)
      → All
          (λ u. bcrypt.compare password u.password_hash ≡ true)
          (select (user_has_id user_id) (
            update
              (user_has_id user_id)
              (set_password (bcrypt.hash password bcrypt_password_cost salt))
              users))
  set_password-All user_id password salt [] = tt
  set_password-All user_id password salt (u ∷ us) = ground (
    arith,
    bcrypt.compare-hash password bcrypt_password_cost salt,
    set_password-All user_id password salt us,
  )

  write_password-HasPassword :
      (user_id password salt : String) (now : ℕ) (s : AuthDb)
      → HasPassword user_id password (write_password env user_id password salt now s).1
  unfolding revoke_all_refresh_tokens
  write_password-HasPassword user_id password salt now s = (
    set_password-All user_id password salt s.users,
    revoke_all_refresh_tokens-count user_id AccountType.student now s,
  )

  -- A change of password is refused, and changes nothing, if the two passwords are one text, if
  -- there is no active account of that id, or if the current password is wrong; a missing account
  -- and a wrong password get the same answer.
  pub change_password_refused :
      (user_id current_password new_password salt : String) (now : ℕ) (s : AuthDb)
      → not (current_password == new_password)
          && may_change (find (user_has_id user_id) s.users) current_password
        ≡ false
      → change_password env user_id current_password new_password salt now s ≡ (
        err (
            if current_password == new_password
            then bad_request "New password must be different from current password"
            else unauthorized "Invalid credentials"),
        s,
      )
  unfolding change_password revoke_all_refresh_tokens
  change_password_refused user_id current_password new_password salt now s bad =
      elim (Option-cases (find (user_has_id user_id) s.users)) [
        | inl missing ↦ ground (arith, missing)
        | inr (user, found) ↦ ground (arith, found)
      ]

  -- A change of password of an active account, with the right current password and another new
  -- one, succeeds: the account takes the new password, and no session of it is left.
  pub change_password_accepted :
      (user_id current_password new_password salt : String) (now : ℕ) (s : AuthDb)
      → not (current_password == new_password)
          && may_change (find (user_has_id user_id) s.users) current_password
        ≡ true
      → let (r, t) = change_password env user_id current_password new_password salt now s in
        (r ≡ ok "Password changed. All active sessions have been signed out — please log in again.")
        × HasPassword user_id new_password t
  unfolding change_password revoke_all_refresh_tokens
  change_password_accepted user_id current_password new_password salt now s good =
      elim (Option-cases (find (user_has_id user_id) s.users)) [
        | inl missing ↦ absurd (ground (arith, missing))
        | inr (user, found) ↦
            let done : change_password env user_id current_password new_password salt now s ≡ (
              ok
                  "Password changed. All active sessions have been signed out — please log in again.",
              (write_password env user_id new_password salt now s).1,
            ) =
              ground (arith, found) in
            rw done (refl, write_password-HasPassword user_id new_password salt now s)
      ]

  reset_password_lem :
      (plain new_password salt : String) (now : ℕ) (s u : AuthDb) (user_id : String)
      → consume_auth_token env plain AuthTokenPurpose.password_reset now s ≡ (ok user_id, u)
      → reset_password env plain new_password salt now s ≡ (
        ok "Password reset successful. Please log in.",
        (write_password env user_id new_password salt now u).1,
      )
  unfolding reset_password revoke_all_refresh_tokens
  reset_password_lem plain new_password salt now s u user_id consumed = ground (arith, consumed)

  -- A reset that succeeds leaves the account with the new password and without a session.
  pub reset_password_succeeds :
      (plain new_password salt : String) (now : ℕ) (s t : AuthDb) (message : String)
      → reset_password env plain new_password salt now s ≡ (ok message, t)
      → (user_id : String) × HasPassword user_id new_password t
        × ((consume_auth_token env plain AuthTokenPurpose.password_reset now s).0 ≡ ok user_id)
  unfolding reset_password revoke_all_refresh_tokens
  reset_password_succeeds plain new_password salt now s t message h =
      elim (Outcome-cases (consume_auth_token env plain AuthTokenPurpose.password_reset now s)) [
        | inr (e, u, bad) ↦ absurd (ground (arith, bad))
        | inl (user_id, u, good) ↦
            let done : (write_password env user_id new_password salt now u).1 ≡ t =
              ground (arith, good) in
            (
              user_id,
              subst (HasPassword user_id new_password) done
                  (write_password-HasPassword user_id new_password salt now u),
              ground (arith, good),
            )
      ]

  -- The database after a reset link has been mailed to a user.
  abbrev mailed : User → FreshToken → ℕ → AuthDb → AuthDb
  mailed user fresh now s =
      record (issued_db env user.id AuthTokenPurpose.password_reset password_reset_ttl_hours fresh
        now s) { mails = EmailParams.password_reset_email user.email user.id fresh.plain ∷ s.mails }

  forgot_password-mailed :
      (email : String) (fresh : FreshToken) (now : ℕ) (s : AuthDb) (user : User)
      → find (user_has_email (normalised env email)) s.users ≡ some user
      → user.active ≡ true
      → (forgot_password env email fresh now s).1 ≡ mailed user fresh now s
  unfolding forgot_password issue_auth_token
  forgot_password-mailed email fresh now s user found active = ground (arith, found, active)

  -- Forgetting and resetting: if no token id is above the serial, the token mailed to an
  -- active account sets a new password when it is presented within the hour, whatever the
  -- password was, and no session of the account is left.
  pub forgot-reset :
      (email new_password salt : String) (fresh : FreshToken) (now later : ℕ) (s : AuthDb)
      (user : User)
      → find (user_has_email (normalised env email)) s.users ≡ some user
      → user.active ≡ true
      → IdsBelow s.next_auth_id s.auth_tokens
      → later ≤ now + 60 * 60 * 1000
      → let t = (forgot_password env email fresh now s).1 in
        let (r, u) = reset_password env fresh.plain new_password salt later t in
        (r ≡ ok "Password reset successful. Please log in.") × HasPassword user.id new_password u
  unfolding forgot_password reset_password revoke_all_refresh_tokens issue_auth_token
  forgot-reset email new_password salt fresh now later s user found active below early =
      let consumed =
        issue-consume env user.id AuthTokenPurpose.password_reset password_reset_ttl_hours fresh now
          later s (mailed user fresh now s) below refl (omega arith) in
      let used_up = record (mailed user fresh now s) {
        auth_tokens =
            update (is_unused_token s.next_auth_id) (use_token later)
              (mailed user fresh now s).auth_tokens;
      } in
      rw (forgot_password-mailed email fresh now s user found active) (
        rw
          (reset_password_lem fresh.plain new_password salt later (mailed user fresh now s) used_up
            user.id consumed)
          (refl, write_password-HasPassword user.id new_password salt later used_up))
