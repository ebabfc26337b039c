-- ===== src/Prelude/Exc.antt =====
-- Python exceptions in code that changes no object that outlives them.
use mathlib.Core.Path.{◌≡◌, refl}
use mathlib.Core.Bool.{Bool, true, false}
use mathlib.Core.Option.{Option, none, some}

-- The built-in exceptions that the code raises or catches, and the ones that LNST defines.
pub data Error : Type 0 where
  key_error index_error value_error type_error attribute_error os_error eof_error : Error
  zero_division not_implemented timeout : Error
  lnst_error param_error requirement_error recipe_error mapper_error : Error
  pool_manager_error config_error resource_cache_error connection_error job_error : Error
  wait_timeout_error empty_slice measurement_error remote_exception machine_error device_error :
      Error

pub data Result {ℓ} (A : Type ℓ) : Type ℓ where
  err : Error → Result A
  ok : A → Result A

abbrev pub guard : Bool → Error → Result (Unit {0})
guard false raised = err raised
guard true raised = ok tt

infixl 5 ◌>>=◌
abbrev pub ◌>>=◌ {ℓ κ} : {A : Type ℓ} {B : Type κ} → Result A → (A → Result B) → Result B
err raised >>= next = err raised
ok a >>= next = next a

-- d[k] and l.pop(): the value, or the exception
abbrev pub or_raise {ℓ} : {A : Type ℓ} → Option A → Error → Result A
or_raise none e = err e
or_raise (some a) e = ok a

infixl 5 ◌>>◌
abbrev pub ◌>>◌ {κ} : {B : Type κ} → Result (Unit {0}) → Result B → Result B
first >> rest = first >>= λ _. rest

-- What a chain of calls that ends well did first.
pub >>=-eq-ok {ℓ κ} :
    {A : Type ℓ} {B : Type κ} (first : Result A) (next : A → Result B) {end : B}
    → first >>= next ≡ ok end
    → (value : A) × (first ≡ ok value) × (next value ≡ ok end)
>>=-eq-ok (err raised) next same = cc
>>=-eq-ok (ok a) next same = (a, refl, same)
