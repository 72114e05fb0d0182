-- ===== src/Auth/Strategies/Composition.antt =====
-- A token taken through src/modules/auth/strategies/jwt.strategy.ts, the guard of the roles and the
-- interceptor of the row level security.
use ios_backend.Base.{
  false, Option, none, some, String, ◌==◌, List, ◌≡◌, refl, sym, ap, Bool-cases, inl, inr, arith,
  ok, Action, subst, ◌∙◌,
}
use ios_backend.Auth.Types.{AccountType, AdminRole, AccessTokenPayload}
use ios_backend.Auth.Strategies.{user_of, validate_payload}
use ios_backend.Common.Roles.{can_activate}
use ios_backend.Common.Rls.{
  AuthenticatedUser, Faults, RlsVariables, intercept, run_with_rls_context, variables_of,
  IsAllOrNothing, run_with_rls_context-IsAllOrNothing,
}

-- The variables of a request by an account: its own id, under the name for its kind.
abbrev pub own_variables : AccountType → String → String → RlsVariables
own_variables AccountType.student sub ip = record {
  current_user_id = some sub;
  current_admin_id = none;
  current_ip = some ip;
}
own_variables AccountType.admin sub ip = record {
  current_user_id = none;
  current_admin_id = some sub;
  current_ip = some ip;
}

-- The role that counts: none for a student, whatever the token says.
abbrev pub effective_role : AccountType → Option AdminRole → Option AdminRole
effective_role AccountType.student role = none
effective_role AccountType.admin role = role

validated :
    (payload : AccessTokenPayload) (user : AuthenticatedUser)
    → validate_payload payload ≡ ok user
    → ((payload.sub == "") ≡ false) × (user_of payload.account_type payload ≡ user)
unfolding validate_payload
validated payload user h = elim (Bool-cases (payload.sub == "")) [
  | inl e ↦ absurd (ground (arith, e))
  | inr e ↦ (e, ground (arith, e))
]

-- A user with an id goes through the transaction.
intercept_own :
    {S A : Type 0} (faults : Faults) (kind : AccountType) (payload : AccessTokenPayload)
    (ip : String) (handler : RlsVariables → Action S A) (s : S)
    → ((payload.sub == "") ≡ false)
    → (intercept faults (some (user_of kind payload)) ip handler s
        ≡ run_with_rls_context faults (user_of kind payload) ip handler s)
      × (variables_of (user_of kind payload) ip ≡ own_variables kind payload.sub ip)
unfolding intercept
intercept_own faults AccountType.student payload ip handler s named = (rw named refl, rw named refl)
intercept_own faults AccountType.admin payload ip handler s named = (rw named refl, rw named refl)

role_own :
    (kind : AccountType) (payload : AccessTokenPayload)
    → (user_of kind payload).role ≡ effective_role kind payload.role
role_own AccountType.student payload = refl
role_own AccountType.admin payload = refl

-- A request with a valid access token, whose connection is made and whose transaction begins, is
-- all or nothing under the variables of the very account that the token names, and never under an
-- id of the other kind; and the roles guard decides it by the token's role for an admin, and as
-- without any role for a student, even if a student's token claims one.
pub validate_payload-IsAllOrNothing :
    {S A : Type 0} (payload : AccessTokenPayload) (user : AuthenticatedUser) (faults : Faults)
    (ip : String) (handler : RlsVariables → Action S A) (s : S) (required : Option (List AdminRole))
    → validate_payload payload ≡ ok user
    → faults.connect ≡ false
    → faults.start_transaction ≡ false
    → IsAllOrNothing handler
        (own_variables payload.account_type payload.sub ip)
        s
        (intercept faults (some user) ip handler s)
      × (can_activate required user.role
          ≡ can_activate required (effective_role payload.account_type payload.role))
validate_payload-IsAllOrNothing payload user faults ip handler s required h connected started =
    let (named, made) = validated payload user h in
    let (inside, own) = intercept_own faults payload.account_type payload ip handler s named in
    let whole =
      (run_with_rls_context-IsAllOrNothing faults (user_of payload.account_type payload) ip handler
        s connected started).0 in
    let over : IsAllOrNothing handler (own_variables payload.account_type payload.sub ip) s
        (run_with_rls_context faults (user_of payload.account_type payload) ip handler s) =
      subst
        (λ v.
          IsAllOrNothing handler v s
            (run_with_rls_context faults (user_of payload.account_type payload) ip handler s))
        own whole in
    (
      subst
          (λ u.
            IsAllOrNothing handler (own_variables payload.account_type payload.sub ip) s
              (intercept faults (some u) ip handler s))
          made
          (subst
            (λ o. IsAllOrNothing handler (own_variables payload.account_type payload.sub ip) s o)
            (sym inside) over),
      ap (can_activate required)
          (sym (ap (λ u. u.role) made) ∙ role_own payload.account_type payload),
    )
