-- ===== src/Prelude/Result.antt =====
-- A call that returns or throws. The exceptions are the classes that the source raises.
use stock_mgt.Prelude.{◌≡◌, refl, Bool, true, false}

pub data Error : Type 0 where
  -- RangeError and Error
  range plain : Error
  -- BadRequestException (400), ForbiddenException (403), NotFoundException (404), ConflictException (409)
  bad_request forbidden not_found conflict : Error
  -- a unique constraint that failed in the database (P2002)
  unique : Error

pub data Result {ℓ} (A : Type ℓ) : Type ℓ where
  err : (thrown : Error) → Result A
  ok : (value : A) → Result A

-- `if (test) throw e`
abbrev pub throw_if : Bool → Error → Result (Unit {0})
throw_if false e = ok tt
throw_if true e = err e

-- What holds of the value, if a call returns one.
abbrev pub Returns {ℓ κ} : {A : Type ℓ} → (A → Type κ) → Result A → Type κ
Returns P (err e) = Unit
Returns P (ok a) = P a

infixl 5 ◌>>=◌
-- What comes after a call does not run when the call throws.
abbrev pub ◌>>=◌ {ℓ κ} :
    {Before : Type ℓ} {After : Type κ} → Result Before → (Before → Result After) → Result After
err thrown >>= next = err thrown
ok value >>= next = next value

infixl 5 ◌>>◌
abbrev pub ◌>>◌ {κ} : {After : Type κ} → Result (Unit {0}) → Result After → Result After
check >> after = check >>= λ (passed : Unit {0}). after

pub >>=-eq-ok {ℓ κ} :
    {Before : Type ℓ} {After : Type κ} (m : Result Before) (next : Before → Result After)
    {end : After}
    → (m >>= next) ≡ ok end
    → (value : Before) × (m ≡ ok value) × (next value ≡ ok end)
>>=-eq-ok (err thrown) next h = cc
>>=-eq-ok (ok value) next h = (value, refl, h)
