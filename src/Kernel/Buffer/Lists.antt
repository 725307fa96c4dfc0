-- ===== src/Kernel/Buffer/Lists.antt =====
-- The list that stands for a growing array: an element at its end.
use tomat_os_old.Common.{
  ℕ, zero, suc, ◌+◌, ◌<◌, ◌≡◌, refl, some, List, [], ◌∷◌, length, get_elem?, arith,
}
use tomat_os_old.Kernel.{buf_push}

module _ {ℓ} {A : Type ℓ} where
  pub length-buf_push : (xs : List A) (x : A) → length (buf_push xs x) ≡ length xs + 1
  unfolding buf_push
  length-buf_push [] x = refl
  length-buf_push (y ∷ xs) x = omega (arith, length-buf_push xs x)

  pub buf_push_last : (xs : List A) (x : A) → get_elem? (buf_push xs x) (length xs) ≡ some x
  unfolding buf_push
  buf_push_last [] x = refl
  buf_push_last (y ∷ xs) x = buf_push_last xs x

  pub buf_push_before :
      (xs : List A) (x : A) (i : ℕ) → i < length xs → get_elem? (buf_push xs x) i ≡ get_elem? xs i
  unfolding buf_push
  buf_push_before [] x i lt = absurd (omega (arith, lt))
  buf_push_before (y ∷ xs) x zero lt = refl
  buf_push_before (y ∷ xs) x (suc i) lt = buf_push_before xs x i (omega (arith, lt))
