-- ===== src/Base/Errors.antt =====
-- Python's exceptions as values: the class of the exception and its message.
use Prim.Native.String.{String}
use mathlib.Core.Path.{◌≡◌, refl}
use mathlib.Core.Bool.{Bool, true, false}

pub data Exn : Type 0 where
  value_error : String → Exn
  runtime_error : String → Exn
  permission_error : String → Exn
  -- the signal `decimal.Overflow`, which the default context traps
  decimal_overflow : Exn
  -- a UNIQUE or PRIMARY KEY constraint of the database
  constraint_violation : Exn

-- A call that raised, or the value that it returned.
pub data Result {ℓ} (Value : Type ℓ) : Type ℓ where
  err : Exn → Result Value
  ok : Value → Result Value

-- `if condition: raise exception`
abbrev pub raise_if : (condition : Bool) → Exn → Result (Unit {0})
raise_if false exception = ok tt
raise_if true exception = err exception

-- What follows a call runs on its value.
infixl 5 ◌>>=◌
abbrev pub ◌>>=◌ {ℓ κ} :
    {Value : Type ℓ} {Next : Type κ} → Result Value → (Value → Result Next) → Result Next
err exception >>= next = err exception
ok value >>= next = next value

-- What follows a guard.
infixl 5 ◌>>◌
abbrev pub ◌>>◌ {κ} : {Next : Type κ} → Result (Unit {0}) → Result Next → Result Next
guard >> next = guard >>= (λ done. next)

-- A call that led to a value has returned one, on which the rest led to that value.
pub >>=-eq-ok {ℓ κ} :
    {Value : Type ℓ} {Next : Type κ} (call : Result Value) (rest : Value → Result Next) {y : Next}
    → (call >>= rest) ≡ ok y
    → (x : Value) × (call ≡ ok x) × (rest x ≡ ok y)
>>=-eq-ok (err exception) rest raised = cc
>>=-eq-ok (ok x) rest returned = (x, refl, returned)

-- A guard that let the rest of the function run.
pub raise_if-passed {ℓ} :
    {B : Type ℓ} (b : Bool) (e : Exn) (k : Result B) {x : B}
    → (raise_if b e >> k) ≡ ok x
    → (b ≡ false) × (k ≡ ok x)
raise_if-passed true e k h = absurd (cc h)
raise_if-passed false e k h = (refl, h)

pub ok-fst {ℓ κ} : {A : Type ℓ} {B : Type κ} (x y : A × B) → ok x ≡ ok y → x.0 ≡ y.0
ok-fst x y h = cc

pub ok-snd {ℓ κ} : {A : Type ℓ} {B : Type κ} (x y : A × B) → ok x ≡ ok y → x.1 ≡ y.1
ok-snd x y h = cc

pub ok-last {ℓ κ ι} :
    {A : Type ℓ} {B : Type κ} {C : Type ι} (x y : A × B × C) → ok x ≡ ok y → x.2 ≡ y.2
ok-last x y h = cc

pub ok_eq {ℓ} : {A : Type ℓ} (x y : A) → ok x ≡ ok y → x ≡ y
ok_eq x y h = cc
