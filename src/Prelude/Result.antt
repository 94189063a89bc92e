-- ===== src/Prelude/Result.antt =====
-- A computation that may raise. `os_error` and `value_error` are the exceptions that the readers'
-- callers handle, with their `str(exc)`; `struct_error` is what `struct` raises on a short buffer.
use hang_analyzer.Prelude.Texts.{Text}

pub data Error : Type 0 where
  os_error : Text → Error
  value_error : Text → Error
  struct_error : Error

pub data Result {ℓ} (A : Type ℓ) : Type ℓ where
  ok : A → Result A
  err : Error → Result A

infixl 5 ◌>>=◌
abbrev pub ◌>>=◌ {ℓ κ} : {A : Type ℓ} {B : Type κ} → Result A → (A → Result B) → Result B
ok a >>= f = f a
err e >>= f = err e
