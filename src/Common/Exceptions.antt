-- ===== src/Common/Exceptions.antt =====
-- Exceptions: a call returns `ok`, or `err` with the class of the exception and its message.
use Prim.Native.String.{String}
use mathlib.Core.Path.{◌≡◌, refl}
use mathlib.Core.Logic.{◌⊎◌, inl, inr}
use mathlib.Core.Bool.{Bool, true, false}
use mathlib.Core.Option.{Option}

pub data Error : Type 0 where
  value_error : String → Error
  sync_state_error : String → Error
  sync_apply_error : String → Error
  base_adoption_error : String → Error
  apply_error : String → Error
  apply_plan_error : String → Error
  approved_push_error : String → Error
  lifecycle_error : String → Error
  stage_error : String → Error
  remote_error : String → Error
  config_error : String → Error
  fanout_error : String → Error
  os_error : String → Error
  reconcile_error : String → Error

-- How a file operation ends: it works, or it raises and leaves something, or nothing, at the path
-- that it was to change.
pub data Attempt {ℓ} (Content : Type ℓ) : Type ℓ where
  works : Attempt Content
  fails : Option Content → Attempt Content

pub Attempt-cases {ℓ} :
    {Content : Type ℓ} (a : Attempt Content)
    → (a ≡ works) ⊎ ((left : Option Content) × (a ≡ fails left))
Attempt-cases works = inl refl
Attempt-cases (fails left) = inr (left, refl)

-- What a call of a function that may raise leaves to its caller.
pub data Result {ℓ} (Value : Type ℓ) : Type ℓ where
  err : Error → Result Value
  ok : Value → Result Value

-- `if not passed: raise e`
abbrev pub require : (passed : Bool) → Error → Result (Unit {0})
require passed e = elim passed [ true ↦ ok tt | false ↦ err e ]

-- The statements that follow a call run only if it returned.
infixl 5 ◌>>=◌ ◌>>◌
abbrev pub ◌>>=◌ {ℓ κ} :
    {Value : Type ℓ} {Next : Type κ} → Result Value → (Value → Result Next) → Result Next
err e >>= rest = err e
ok v >>= rest = rest v

abbrev pub ◌>>◌ {ℓ κ} : {Value : Type ℓ} {Next : Type κ} → Result Value → Result Next → Result Next
call >> rest = call >>= λ ignored. rest

-- A body that returned has had its first call return.
pub >>=-eq-ok {ℓ κ} :
    {Value : Type ℓ} {Next : Type κ} (call : Result Value) (rest : Value → Result Next) {end : Next}
    → (call >>= rest) ≡ ok end
    → (v : Value) × (call ≡ ok v) × (rest v ≡ ok end)
>>=-eq-ok (err e) rest returned = cc
>>=-eq-ok (ok v) rest returned = (v, refl, returned)

pub Result-cases {ℓ} :
    {Value : Type ℓ} (call : Result Value)
    → ((v : Value) × (call ≡ ok v)) ⊎ ((e : Error) × (call ≡ err e))
Result-cases (err e) = inr (e, refl)
Result-cases (ok v) = inl (v, refl)

-- A body that returned has passed its first check.
pub require-eq-ok {ℓ} :
    {Next : Type ℓ} (passed : Bool) (e : Error) (rest : Unit {0} → Result Next) {end : Next}
    → (require passed e >>= rest) ≡ ok end
    → (passed ≡ true) × (rest tt ≡ ok end)
require-eq-ok true e rest returned = (refl, returned)
require-eq-ok false e rest returned = cc

-- The same, for a goal that is proved from the value of the first call.
pub from_value {ℓ κ ν} :
    {Value : Type ℓ} {Next : Type κ} {Goal : Type ν} (call : Result Value)
    (rest : Value → Result Next) {end : Next}
    → (call >>= rest) ≡ ok end
    → ((v : Value) → call ≡ ok v → rest v ≡ ok end → Goal)
    → Goal
from_value (err e) rest returned goal = cc
from_value (ok v) rest returned goal = goal v refl returned
