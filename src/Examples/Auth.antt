-- ===== src/Examples/Auth.antt =====
-- An account that logs in, refreshes, forgets its password and sets another, and a new one.
use ios_backend.Auth.Accounts.{
  FreshUser, RegisterDto, forgot_password, new_user, register, reset_password, set_verified,
  verify_email,
}
use ios_backend.Auth.Accounts.Passwords.{HasPassword, forgot-reset}
use ios_backend.Auth.Platform.{AuthPlatform}
use ios_backend.Auth.Sessions.{issue_student_session, login_student, refresh, rotate, student_login}
use ios_backend.Auth.Sessions.Rotation.{refresh_replayed, refresh_succeeds, rotate_once}
use ios_backend.Auth.Sessions.RoundTrip.{
  login-refresh, refresh_payload, register-login, register-verify-login, session_row,
}
use ios_backend.Auth.Tokens.{
  FreshToken, accepts, consume_auth_token, consume_from, issue_auth_token, revoke, use_token,
}
use ios_backend.Auth.Tokens.OneTime.{consume_from_sound}
use ios_backend.Auth.Tokens.RoundTrip.{issue-consume, issued_db}
use ios_backend.Auth.Types.{
  AccountType, AuthDb, AuthToken, AuthTokenPurpose, Login, RefreshToken, RefreshTokenPayload, User,
  is_unrevoked_of, is_unrevoked_with_id, is_unused_token, refresh_has_id, user_owner,
}
use ios_backend.Base.{
  List, Memᴰ, Option, String, [], arith, count, err, find, none, ok, refl, some, true, unauthorized,
  update, ℕ, ◌+◌, ◌∷◌, ◌≡◌, ◌≢◌, ◌≤◌,
}
use ios_backend.Examples.Setting.{plain_bcrypt}

abbrev sign : RefreshTokenPayload → ℕ → String
sign payload now = payload.sub

abbrev auth : AuthPlatform
auth = record {
  bcrypt = plain_bcrypt;
  sign_access = λ payload now. payload.sub;
  sign_refresh = sign;
  trim = λ text. text;
  to_lower_case = λ text. text;
  access_ttl_sec = 900;
  refresh_ttl_sec = 604800;
}

abbrev ann : User
ann = record {
  id = "u1";
  email = "ann@x.org";
  password_hash = "old";
  first_name = "Ann";
  last_name = "Lee";
  phone = none;
  country = none;
  city = none;
  street = none;
  address = none;
  postal_code = none;
  occupation = none;
  position = none;
  company = none;
  locale = "en";
  email_verified = true;
  email_verified_at = none;
  active = true;
}

abbrev token_with : Option ℕ → RefreshToken
token_with revoked = record {
  id = 1;
  user_id = some "u1";
  admin_id = none;
  owner_type = user_owner;
  token_hash = "u1";
  expires_at = 1000;
  revoked_at = revoked;
}

abbrev live_token : RefreshToken
live_token = token_with none

abbrev dead_token : RefreshToken
dead_token = token_with (some 3)

abbrev db_with : List RefreshToken → AuthDb
db_with tokens = record {
  users = ann ∷ [];
  admins = [];
  refresh_tokens = tokens;
  auth_tokens = [];
  next_refresh_id = 2;
  next_auth_id = 1;
  mails = [];
}

abbrev live_db : AuthDb
live_db = db_with (live_token ∷ [])

abbrev dead_db : AuthDb
dead_db = db_with (dead_token ∷ [])

abbrev ann_payload : RefreshTokenPayload
ann_payload = record { sub = "u1"; account_type = AccountType.student; jti = 1 }

abbrev rotated_db : AuthDb
rotated_db = (rotate auth live_token ann_payload "u1" 10 "" live_db).1

abbrev ann_login : Login
ann_login = student_login auth ann 10 "u1"

abbrev reset_token : AuthToken
reset_token = record {
  id = 4;
  user_id = "u1";
  purpose = AuthTokenPurpose.password_reset;
  token_hash = "link";
  expires_at = 1000;
  used_at = none;
}

abbrev token_db : AuthDb
token_db = record live_db { auth_tokens = reset_token ∷ []; next_auth_id = 5 }

abbrev used_db : AuthDb
used_db = (consume_from auth (reset_token ∷ []) "link" 10 token_db).1

abbrev reset_db : AuthDb
reset_db = (reset_password auth "link" "new" "" 10 token_db).1

abbrev link : FreshToken
link = record { plain = "fresh"; salt = "" }

abbrev issued : AuthDb
issued = issued_db auth "u1" AuthTokenPurpose.password_reset 1 link 10 token_db

abbrev bob : RegisterDto
bob = record {
  email = "bob@x.org";
  password = "pw";
  first_name = "Bob";
  last_name = "Ray";
  phone = none;
  locale = none;
  country = none;
  city = none;
  street = none;
  address = none;
  postal_code = none;
  occupation = none;
  position = none;
  company = none;
}

abbrev bob_fresh : FreshUser
bob_fresh = record { id = "u2"; salt = ""; token = link }

rotate_once_example :
    let (r, u) = rotate auth live_token ann_payload "u1" 11 "" rotated_db in
    (r ≡ err (unauthorized "Session invalidated. Please log in again."))
    × (count (is_unrevoked_of ann_payload.sub ann_payload.account_type) u.refresh_tokens ≡ 0)
unfolding rotate
rotate_once_example =
    rotate_once auth live_token ann_payload ann_payload "u1" "u1" 10 11 "" "" live_db rotated_db
      ann_login refl (omega arith) refl refl

refresh_succeeds_example :
    (stored : RefreshToken) × (find (refresh_has_id ann_payload.jti) live_db.refresh_tokens
      ≡ some stored)
    × (10 ≤ stored.expires_at)
    × (stored.revoked_at ≡ none)
    × (plain_bcrypt.compare "u1" stored.token_hash ≡ true)
    × (count (is_unrevoked_with_id ann_payload.jti) rotated_db.refresh_tokens ≡ 0)
unfolding refresh
refresh_succeeds_example =
    refresh_succeeds auth ann_payload "u1" 10 "" live_db rotated_db ann_login (omega arith) refl

refresh_replayed_example :
    let (r, t) = refresh auth ann_payload "u1" 10 "" dead_db in
    (r ≡ err (unauthorized "Session invalidated. Please log in again."))
    × (count (is_unrevoked_of ann_payload.sub ann_payload.account_type) t.refresh_tokens ≡ 0)
    × (t ≡ record dead_db {
      refresh_tokens =
          update
            (is_unrevoked_of ann_payload.sub ann_payload.account_type)
            (λ row. record row { revoked_at = some 10 })
            dead_db.refresh_tokens;
    })
refresh_replayed_example =
    refresh_replayed auth ann_payload "u1" 10 "" dead_db dead_token refl (omega arith) (λ e. cc)

consume_from_sound_example :
    (row : AuthToken) × Memᴰ row (reset_token ∷ [])
    × (row.user_id ≡ "u1")
    × (accepts auth "link" 10 row ≡ true)
    × (count (is_unused_token row.id) token_db.auth_tokens ≢ 0)
    × (count (is_unused_token row.id) used_db.auth_tokens ≡ 0)
unfolding consume_from
consume_from_sound_example =
    consume_from_sound auth (reset_token ∷ []) "link" 10 token_db used_db "u1" refl

issue-consume_example :
    consume_auth_token auth link.plain AuthTokenPurpose.password_reset 20 issued ≡ (
      ok "u1",
      record issued {
        auth_tokens =
            update (is_unused_token token_db.next_auth_id) (use_token 20) issued.auth_tokens;
      },
    )
unfolding issue_auth_token
issue-consume_example =
    issue-consume auth "u1" AuthTokenPurpose.password_reset 1 link 10 20 token_db issued
      (omega arith, tt) refl (omega arith)

login-refresh_example :
    let t = (login_student auth "ann@x.org" "old" 10 "" live_db).1 in
    let raw_token = sign (refresh_payload auth ann live_db.next_refresh_id) 10 in
    let (r, u) =
      refresh auth (refresh_payload auth ann live_db.next_refresh_id) raw_token 20 "" t in
    ((login_student auth "ann@x.org" "old" 10 "" live_db).0
      ≡ ok (student_login auth ann 10 raw_token))
    × (r
        ≡ ok (
            student_login auth ann 20
              (sign (refresh_payload auth ann (live_db.next_refresh_id + 1)) 20)))
    × (u.refresh_tokens
        ≡ session_row auth ann 20 "" (live_db.next_refresh_id + 1)
          ∷ revoke 20 (session_row auth ann 10 "" live_db.next_refresh_id)
          ∷ live_db.refresh_tokens)
login-refresh_example =
    login-refresh auth "ann@x.org" "old" 10 20 "" "" live_db ann refl refl refl refl refl
      (omega arith)

register-login_example :
    let (r, t) = register auth bob bob_fresh 10 live_db in
    (r ≡ ok bob_fresh.id)
    × (login_student auth bob.email bob.password 20 "" t
        ≡ (err (unauthorized "Email not verified. Check your inbox."), t))
register-login_example = register-login auth bob bob_fresh 10 20 "" live_db refl

register-verify-login_example :
    let t = (register auth bob bob_fresh 10 live_db).1 in
    let (r, u) = verify_email auth bob_fresh.token.plain 20 t in
    (r ≡ ok "Email verified. You can now log in.")
    × (login_student auth bob.email bob.password 30 "" u
        ≡ issue_student_session auth (set_verified 20 (new_user auth bob bob_fresh)) 30 "" u)
register-verify-login_example =
    register-verify-login auth bob bob_fresh 10 20 30 "" live_db refl tt (omega arith)

forgot-reset_example :
    let t = (forgot_password auth "ann@x.org" link 10 live_db).1 in
    let (r, u) = reset_password auth link.plain "new" "" 20 t in
    (r ≡ ok "Password reset successful. Please log in.") × HasPassword auth ann.id "new" u
forgot-reset_example =
    forgot-reset auth "ann@x.org" "new" "" link 10 20 live_db ann refl refl tt (omega arith)
