-- ===== src/Common/Roles.antt =====
-- `RolesGuard` (src/common/guards/roles.guard.ts). The roles that a handler or its class requires
-- come from the reflector; a request without a user, or whose user has no role, has none.
use ios_backend.Base.{
  ◌≡◌, refl, sym, Bool, true, false, ◌||◌, Option, none, some, List, [], ◌∷◌, is_empty, Memᴰ,
  Bool-cases, inl, inr, ◌⊎◌, Result, ok, err, if◌then◌else◌, forbidden, arith,
}
use ios_backend.Auth.Types.{
  AdminRole, super_admin, learning_admin, content_creator, finance_admin, support_admin,
}

abbrev pub is_super : AdminRole → Bool
is_super super_admin = true
is_super learning_admin = false
is_super content_creator = false
is_super finance_admin = false
is_super support_admin = false

abbrev pub same_role : AdminRole → AdminRole → Bool
same_role super_admin super_admin = true
same_role super_admin learning_admin = false
same_role super_admin content_creator = false
same_role super_admin finance_admin = false
same_role super_admin support_admin = false
same_role learning_admin learning_admin = true
same_role learning_admin super_admin = false
same_role learning_admin content_creator = false
same_role learning_admin finance_admin = false
same_role learning_admin support_admin = false
same_role content_creator content_creator = true
same_role content_creator super_admin = false
same_role content_creator learning_admin = false
same_role content_creator finance_admin = false
same_role content_creator support_admin = false
same_role finance_admin finance_admin = true
same_role finance_admin super_admin = false
same_role finance_admin learning_admin = false
same_role finance_admin content_creator = false
same_role finance_admin support_admin = false
same_role support_admin support_admin = true
same_role support_admin super_admin = false
same_role support_admin learning_admin = false
same_role support_admin content_creator = false
same_role support_admin finance_admin = false

abbrev pub includes : List AdminRole → AdminRole → Bool
includes [] r = false
includes (q ∷ qs) r = same_role q r || includes qs r

abbrev check_role : List AdminRole → Option AdminRole → Result Bool
check_role required none = err (forbidden "Insufficient permissions")
check_role required (some role) =
    if is_super role || includes required role
    then ok true
    else err (forbidden "Insufficient permissions")

-- `canActivate`, for the decorator's roles, if there is one.
unfoldable pub can_activate : Option (List AdminRole) → Option AdminRole → Result Bool
can_activate none role = ok true
can_activate (some required) role = if is_empty required then ok true else check_role required role

same_role_lem : (a b : AdminRole) → same_role a b ≡ true → a ≡ b
same_role_lem super_admin super_admin h = refl
same_role_lem super_admin learning_admin h = absurd (ground arith)
same_role_lem super_admin content_creator h = absurd (ground arith)
same_role_lem super_admin finance_admin h = absurd (ground arith)
same_role_lem super_admin support_admin h = absurd (ground arith)
same_role_lem learning_admin super_admin h = absurd (ground arith)
same_role_lem learning_admin learning_admin h = refl
same_role_lem learning_admin content_creator h = absurd (ground arith)
same_role_lem learning_admin finance_admin h = absurd (ground arith)
same_role_lem learning_admin support_admin h = absurd (ground arith)
same_role_lem content_creator super_admin h = absurd (ground arith)
same_role_lem content_creator learning_admin h = absurd (ground arith)
same_role_lem content_creator content_creator h = refl
same_role_lem content_creator finance_admin h = absurd (ground arith)
same_role_lem content_creator support_admin h = absurd (ground arith)
same_role_lem finance_admin super_admin h = absurd (ground arith)
same_role_lem finance_admin learning_admin h = absurd (ground arith)
same_role_lem finance_admin content_creator h = absurd (ground arith)
same_role_lem finance_admin finance_admin h = refl
same_role_lem finance_admin support_admin h = absurd (ground arith)
same_role_lem support_admin super_admin h = absurd (ground arith)
same_role_lem support_admin learning_admin h = absurd (ground arith)
same_role_lem support_admin content_creator h = absurd (ground arith)
same_role_lem support_admin finance_admin h = absurd (ground arith)
same_role_lem support_admin support_admin h = refl

is_super_lem : (a : AdminRole) → is_super a ≡ true → a ≡ super_admin
is_super_lem super_admin h = refl
is_super_lem learning_admin h = absurd (ground arith)
is_super_lem content_creator h = absurd (ground arith)
is_super_lem finance_admin h = absurd (ground arith)
is_super_lem support_admin h = absurd (ground arith)

includes-Memᴰ :
    (required : List AdminRole) (r : AdminRole) → includes required r ≡ true → Memᴰ r required
includes-Memᴰ [] r h = absurd (ground arith)
includes-Memᴰ (q ∷ qs) r h = elim (Bool-cases (same_role q r)) [
  | inl e ↦ Memᴰ.head (sym (same_role_lem q r e))
  | inr e ↦ Memᴰ.tail (includes-Memᴰ qs r (ground arith))
]

-- Where roles are required, whoever gets through is a super admin or has one of these very roles:
-- no other role stands in for a listed one.
pub can_activate_exact :
    (required : List AdminRole) (role : Option AdminRole)
    → is_empty required ≡ false
    → can_activate (some required) role ≡ ok true
    → (r : AdminRole) × (role ≡ some r) × ((r ≡ super_admin) ⊎ Memᴰ r required)
unfolding can_activate
can_activate_exact required none some_required h = absurd (ground arith)
can_activate_exact required (some r) some_required h = elim (Bool-cases (is_super r)) [
  | inl e ↦ (r, refl, inl (is_super_lem r e))
  | inr e ↦ (r, refl, inr (includes-Memᴰ required r (ground arith)))
]
