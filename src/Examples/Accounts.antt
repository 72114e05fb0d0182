-- ===== src/Examples/Accounts.antt =====
-- A request whose commit fails, and an update of a profile with keys that no form has.
use ios_backend.Base.{ℕ, true, false, none, some, List, [], ◌∷◌, map, ok, Action, ◌≡◌, refl}
use ios_backend.Common.Rls.{
  AuthenticatedUser, RlsVariables, Faults, run_with_rls_context, IsAllOrNothing, IsGivenBack,
  run_with_rls_context-IsAllOrNothing,
}
use ios_backend.Auth.Types.{User}
use ios_backend.Profile.{ProfileRow, RequestBody, update_profile}
use ios_backend.Profile.Protected.{protected_of, update_profile-protected_of}

abbrev student : AuthenticatedUser
student = record {
  id = some "u";
  admin_id = none;
  account_type = none;
  role = none;
  email = none;
  locale = none;
}

abbrev broken_commit : Faults
broken_commit = record {
  connect = false;
  start_transaction = false;
  set_user = false;
  set_admin = false;
  set_ip = false;
  commit = true;
  rollback = false;
}

abbrev add_row : RlsVariables → Action (List ℕ) ℕ
add_row variables s = (ok 1, 7 ∷ s)

run_with_rls_context-IsAllOrNothing_example :
    IsAllOrNothing add_row
      (record { current_user_id = some "u"; current_admin_id = none; current_ip = some "::1" })
      []
      (run_with_rls_context broken_commit student "::1" add_row [])
    × IsGivenBack broken_commit (run_with_rls_context broken_commit student "::1" add_row [])
run_with_rls_context-IsAllOrNothing_example =
    run_with_rls_context-IsAllOrNothing broken_commit student "::1" add_row [] refl refl

abbrev jane : User
jane = record {
  id = "u";
  email = "jane@example.com";
  password_hash = "h";
  first_name = "Jane";
  last_name = "Doe";
  phone = none;
  country = none;
  city = none;
  street = none;
  address = none;
  postal_code = none;
  occupation = none;
  position = none;
  company = none;
  locale = "en";
  email_verified = false;
  email_verified_at = none;
  active = true;
}

abbrev jane_row : ProfileRow
jane_row = record { user = jane; avatar_url = none; created_at = 0; updated_at = 0 }

abbrev greedy : RequestBody
greedy = ("passwordHash", some "mine") ∷ ("firstName", some "J.") ∷ []

update_profile-protected_of_example :
    map protected_of (update_profile (λ t. t) "u" greedy 5 (jane_row ∷ [])).1
    ≡ map protected_of (jane_row ∷ [])
update_profile-protected_of_example =
    update_profile-protected_of (λ t. t) "u" greedy 5 (jane_row ∷ [])
