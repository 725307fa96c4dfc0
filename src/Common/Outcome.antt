-- ===== src/Common/Outcome.antt =====
-- How a call of kernel code ends.

-- `panic` is a call of `kpanic`, which halts the machine; `fault` an access that the C standard or
-- the processor does not allow (a null pointer, an index out of bounds); `hang` a loop that does
-- not end within the fuel it is given.
pub data Run {ℓ} (A : Type ℓ) : Type ℓ where
  done : A → Run A
  panic : Run A
  fault : Run A
  hang : Run A

infixl 5 ◌>>=◌
abbrev pub ◌>>=◌ {ℓ κ} : {A : Type ℓ} {B : Type κ} → Run A → (A → Run B) → Run B
done a >>= f = f a
panic >>= f = panic
fault >>= f = fault
hang >>= f = hang
