-- ===== src/Base/Actions.antt =====
-- A service method: it reads and writes a store, and returns or throws. What was written before a
-- throw stays written, except inside `transaction`.
use Prim.Native.String.{String}
use mathlib.Core.Path.{◌≡◌, refl, ap}
use mathlib.Core.Logic.{◌⊎◌, inl, inr}
use mathlib.Core.Bool.{Bool}
use mathlib.Core.Option.{Option, none, some}
use ios_backend.Base.Tests.{if◌then◌else◌}

-- The exceptions of @nestjs/common that the services throw; `failure` is any other error.
pub data Exception : Type 0 where
  bad_request unauthorized forbidden not_found conflict unprocessable failure : String → Exception

pub data Result (A : Type 0) : Type 0 where
  ok : A → Result A
  err : Exception → Result A

abbrev pub Action : Type 0 → Type 0 → Type 0
Action S A = S → Result A × S

module _ {S A : Type 0} where
  abbrev pub pure : A → Action S A
  pure a s = (ok a, s)

  abbrev pub raise : Exception → Action S A
  raise e s = (err e, s)

  abbrev pub gets : (S → A) → Action S A
  gets f s = (ok (f s), s)

  abbrev pub or_raise : Option A → Exception → Action S A
  or_raise none e = raise e
  or_raise (some a) e = pure a

  -- A throw undoes what was written since the transaction began.
  abbrev pub transaction : Action S A → Action S A
  transaction m s = let (r, s') = m s in elim r [ ok a ↦ (ok a, s') | err e ↦ (err e, s) ]

abbrev pub modify : {S : Type 0} → (S → S) → Action S (Unit {0})
modify f s = (ok tt, f s)

abbrev pub raise_if : {S : Type 0} → Bool → Exception → Action S (Unit {0})
raise_if c e s = (if c then err e else ok tt, s)

infixl 5 ◌>>=◌ ◌>>◌
abbrev pub ◌>>=◌ : {S A B : Type 0} → Action S A → (A → Action S B) → Action S B
◌>>=◌ m f s = let (r, s') = m s in elim r [ ok a ↦ f a s' | err e ↦ (err e, s') ]

-- What follows a step that returned.
pub bind_ok :
    {S A B : Type 0} (m : Action S A) (f : A → Action S B) (s : S) (a : A) (t : S)
    → m s ≡ (ok a, t)
    → (m >>= f) s ≡ f a t
bind_ok m f s a t h = ap (λ o. elim (o.0) [ ok b ↦ f b (o.1) | err e ↦ (err e, o.1) ]) h

pub bind_err :
    {S A B : Type 0} (m : Action S A) (f : A → Action S B) (s : S) (e : Exception) (t : S)
    → m s ≡ (err e, t)
    → (m >>= f) s ≡ (err e, t)
bind_err m f s e t h = ap (λ o. elim (o.0) [ ok b ↦ f b (o.1) | err e' ↦ (err e', o.1) ]) h

abbrev pub ◌>>◌ : {S A B : Type 0} → Action S A → Action S B → Action S B
m >> k = m >>= λ _. k

-- `try { … } catch (err) { … }`
abbrev pub handle : {S A : Type 0} → Action S A → (Exception → Action S A) → Action S A
handle m h s = let (r, t) = m s in elim r [ ok a ↦ (ok a, t) | err e ↦ h e t ]

-- How a call ended, with the store that it left.
pub Outcome-cases :
    {S A : Type 0} (o : Result A × S)
    → ((a : A) × (t : S) × (o ≡ (ok a, t))) ⊎ ((e : Exception) × (t : S) × (o ≡ (err e, t)))
Outcome-cases (ok a, t) = inl (a, t, refl)
Outcome-cases (err e, t) = inr (e, t, refl)
