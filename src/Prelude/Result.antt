-- ===== src/Prelude/Result.antt =====
-- Fallible operations: a value, or the exception that the code sets before it returns NULL or -1,
-- or behaviour that C leaves undefined.

-- The exceptions of objects/exceptionobject.h that the modelled code raises.
pub data Exception : Type 0 where
  system_error undefined_error type_error value_error overflow_error : Exception
  index_error key_error name_error memory_error : Exception

-- `undefined` stands for an access outside an allocation, a division by zero, a failed assertion
-- or a loop that does not end.
pub data Result {ℓ} (A : Type ℓ) : Type ℓ where
  ok : A → Result A
  raise : Exception → Result A
  undefined : Result A

infixl 5 ◌>>=◌
abbrev pub ◌>>=◌ {ℓ κ} : {A : Type ℓ} {B : Type κ} → Result A → (A → Result B) → Result B
ok a >>= f = f a
raise e >>= f = raise e
undefined >>= f = undefined
