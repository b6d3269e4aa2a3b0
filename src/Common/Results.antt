-- ===== src/Common/Results.antt =====
-- Outcomes of the source's functions: a value, a C++ exception, undefined behaviour (a null
-- dereference, a division by zero), or a wait that nothing ends.

pub data Error : Type 0 where
  logic_error runtime_error out_of_range null_deref div_by_zero : Error

pub data Result {ℓ} (A : Type ℓ) : Type ℓ where
  ok : A → Result A
  err : Error → Result A
  blocked : Result A

infixl 5 ◌>>=◌
abbrev pub ◌>>=◌ {ℓ κ} : {A : Type ℓ} {B : Type κ} → Result A → (A → Result B) → Result B
ok a >>= f = f a
err e >>= f = err e
blocked >>= f = blocked
