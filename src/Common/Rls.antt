-- ===== src/Common/Rls.antt =====
-- `RlsInterceptor` of src/common/interceptors/rls.interceptor.ts: the transaction around a request,
-- with the variables that the row level security reads. Which commands of the connection fail is an
-- argument, and so is the address of the client. The state is what is read and written through the
-- runner of the request; a repository uses another connection and is not part of it. The database
-- discards what a transaction that did not commit has written.
use ios_backend.Base.{
  Bool, true, false, Option, none, some, String, ◌≡◌, refl, is_some, Exception, Result, ok, err,
  Action, failure, if◌then◌else◌, or_else, not, ◌&&◌, arith, Bool-cases, inl, inr,
}
use ios_backend.Auth.Types.{AccountType, AdminRole}
use ios_backend.Common.I18n.{non_empty}

-- `AuthenticatedUser`.
pub record AuthenticatedUser : Type 0 where
  pub id : Option String
  pub admin_id : Option String
  pub account_type : Option AccountType
  pub role : Option AdminRole
  pub email : Option String
  pub locale : Option String

-- `app.current_user_id`, `app.current_admin_id` and `app.current_ip`.
pub record RlsVariables : Type 0 where
  pub current_user_id : Option String
  pub current_admin_id : Option String
  pub current_ip : Option String

abbrev pub no_variables : RlsVariables
no_variables = record { current_user_id = none; current_admin_id = none; current_ip = none }

-- The commands of a connection that fail.
pub record Faults : Type 0 where
  pub connect : Bool
  pub start_transaction : Bool
  pub set_user : Bool
  pub set_admin : Bool
  pub set_ip : Bool
  pub commit : Bool
  pub rollback : Bool

-- What became of the connection.
pub record RunnerState : Type 0 where
  pub opened : Bool
  pub released : Bool

abbrev pub lost_connection : Exception
lost_connection = failure "connection"

-- The rows that others see, and those of an open transaction.
pub record Connection (S : Type 0) : Type 0 where
  pub committed : S
  pub pending : Option S

abbrev pub quiet : {S : Type 0} → S → Connection S
quiet s = record { committed = s; pending = none }

abbrev pub write_pending : {S : Type 0} → S → Connection S → Connection S
write_pending s c = record c { pending = some s }

abbrev pub commit_transaction : {S : Type 0} → Connection S → Connection S
commit_transaction c = quiet (or_else c.pending c.committed)

abbrev pub rollback_transaction : {S : Type 0} → Connection S → Connection S
rollback_transaction c = quiet c.committed

-- What the rest of the request gives, the connection with its rows, and what became of the runner.
abbrev pub Served : Type 0 → Type 0 → Type 0
Served S A = Result A × (Connection S × RunnerState)

-- `set_config` where there is a value to set.
abbrev pub set_config : Option String → Bool → Bool
set_config none fails = true
set_config (some value) fails = if fails then false else true

-- The `catch` and the `finally`: a rollback that fails throws its own error and leaves the
-- transaction open, and the runner is released in any case.
abbrev pub abandon : {S A : Type 0} → Faults → Connection S → Exception → Served S A
abandon faults c e =
    if faults.rollback
    then (err lost_connection, (c, record { opened = true; released = true }))
    else (err e, (rollback_transaction c, record { opened = true; released = true }))

-- The end of the `try`, once the handler has returned or thrown and left these rows.
abbrev pub commit_or_abandon : {S A : Type 0} → Faults → Connection S → Result A × S → Served S A
commit_or_abandon faults c (err e, after) = abandon faults (write_pending after c) e
commit_or_abandon faults c (ok a, after) =
    if faults.commit then abandon faults (write_pending after c) lost_connection else (
      ok a,
      (commit_transaction (write_pending after c), record { opened = true; released = true }),
    )

abbrev pub variables_of : AuthenticatedUser → String → RlsVariables
variables_of user ip = record {
  current_user_id = non_empty user.id;
  current_admin_id = non_empty user.admin_id;
  current_ip = some ip;
}

-- Whether all the variables could be set, in turn.
abbrev pub sets_all : Faults → AuthenticatedUser → Bool
sets_all faults user =
    if set_config (non_empty user.id) faults.set_user
    then (if set_config (non_empty user.admin_id) faults.set_admin
        then (if faults.set_ip then false else true)
        else false)
    else false

-- The handler runs with the variables in force.
unfoldable pub run_with_rls_context :
    {S A : Type 0}
    → Faults
    → AuthenticatedUser
    → String
    → (RlsVariables → Action S A)
    → S
    → Served S A
run_with_rls_context faults user ip handler s =
    if faults.connect
    then (err lost_connection, (quiet s, record { opened = false; released = false }))
    else if faults.start_transaction
    then (err lost_connection, (quiet s, record { opened = true; released = false }))
    else if sets_all faults user
    then commit_or_abandon faults (write_pending s (quiet s)) (handler (variables_of user ip) s)
    else abandon faults (write_pending s (quiet s)) lost_connection

-- A request without a user runs outside, with no variables and no transaction.
unfoldable pub intercept :
    {S A : Type 0}
    → Faults
    → Option AuthenticatedUser
    → String
    → (RlsVariables → Action S A)
    → S
    → Served S A
unfolding run_with_rls_context
intercept faults none ip handler s =
    let (r, t) = handler no_variables s in
    (r, (quiet t, record { opened = false; released = false }))
intercept faults (some user) ip handler s =
    if is_some (non_empty user.id)
    then run_with_rls_context faults user ip handler s
    else if is_some (non_empty user.admin_id)
    then run_with_rls_context faults user ip handler s
    else (let (r, t) = handler no_variables s in
        (r, (quiet t, record { opened = false; released = false })))

-- What a request leaves behind: nothing, or what its handler wrote under these variables.
abbrev pub IsAllOrNothing :
    {S A : Type 0} → (RlsVariables → Action S A) → RlsVariables → S → Served S A → Type 0
IsAllOrNothing handler variables s (ok a, (c, runner)) = handler variables s ≡ (ok a, c.committed)
IsAllOrNothing handler variables s (err e, (c, runner)) = c.committed ≡ s

-- The runner has been released, and where the rollback works, without an open transaction.
abbrev pub IsGivenBack : {S A : Type 0} → Faults → Served S A → Type 0
IsGivenBack faults (r, (c, runner)) =
    (runner.released ≡ true) × (is_some c.pending && not faults.rollback ≡ false)

abandon-IsAllOrNothing :
    {S A : Type 0} (faults : Faults) (handler : RlsVariables → Action S A) (v : RlsVariables)
    (c : Connection S) (e : Exception)
    → IsAllOrNothing handler v c.committed (abandon faults c e)
      × IsGivenBack faults (abandon {S = S} {A = A} faults c e)
abandon-IsAllOrNothing faults handler v c e = elim (Bool-cases faults.rollback) [
  | inl h ↦ rw h (refl, (refl, ground arith))
  | inr h ↦ rw h (refl, (refl, refl))
]

commit-IsAllOrNothing :
    {S A : Type 0} (faults : Faults) (handler : RlsVariables → Action S A) (v : RlsVariables)
    (c : Connection S) (o : Result A × S)
    → handler v c.committed ≡ o
    → IsAllOrNothing handler v c.committed (commit_or_abandon faults c o)
      × IsGivenBack faults (commit_or_abandon faults c o)
commit-IsAllOrNothing faults handler v c (err e, t) h =
    abandon-IsAllOrNothing faults handler v (write_pending t c) e
commit-IsAllOrNothing faults handler v c (ok a, t) h = elim (Bool-cases faults.commit) [
  | inl f ↦ rw f (abandon-IsAllOrNothing faults handler v (write_pending t c) lost_connection)
  | inr f ↦ rw f (h, (refl, refl))
]

-- For a user whose connection is made and whose transaction begins, what a request does through its
-- runner is all or nothing: if it is answered, the committed rows are those that the handler left
-- when run with the user's id and admin id, each only if it is not empty, and the address in their
-- own variables; and if anything then fails, the handler, a command of the connection or the commit,
-- no committed row has changed. In each case the runner is released, and unless the rollback fails
-- no transaction is left open on its connection.
pub run_with_rls_context-IsAllOrNothing :
    {S A : Type 0} (faults : Faults) (user : AuthenticatedUser) (ip : String)
    (handler : RlsVariables → Action S A) (s : S)
    → faults.connect ≡ false
    → faults.start_transaction ≡ false
    → IsAllOrNothing handler
        (record {
          current_user_id = non_empty user.id;
          current_admin_id = non_empty user.admin_id;
          current_ip = some ip;
        })
        s
        (run_with_rls_context faults user ip handler s)
      × IsGivenBack faults (run_with_rls_context faults user ip handler s)
unfolding run_with_rls_context
run_with_rls_context-IsAllOrNothing faults user ip handler s connected started =
    elim (Bool-cases (sets_all faults user)) [
      | inr unset ↦
          rw (connected, started, unset)
            (abandon-IsAllOrNothing faults handler (variables_of user ip)
              (write_pending s (quiet s)) lost_connection)
      | inl set ↦
          rw (connected, started, set)
            (commit-IsAllOrNothing faults handler (variables_of user ip) (write_pending s (quiet s))
              (handler (variables_of user ip) s) refl)
    ]
