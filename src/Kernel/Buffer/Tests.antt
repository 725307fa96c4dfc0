-- ===== src/Kernel/Buffer/Tests.antt =====
-- The first push on a null pointer, and one on a full buffer.
use tomat_os_old.Common.{ℕ, zero, suc, ◌<◌, get_elem?, ◌+◌, ◌≡◌, refl, some, [], ◌∷◌, done, arith}
use tomat_os_old.Kernel
use tomat_os_old.Kernel.Buffer.{Buf, kept, buf_push}
use tomat_os_old.Kernel.Buffer.Growth.{Holds, buf_push-Holds}

-- The numbers 5 and 6 in elements of 4 bytes.
abbrev full : Buf ℕ
full = record { len = 2; cap = 2; elements = λ i. 5 + i; bytes = 16 }

full-Holds : Holds 4 (5 ∷ 6 ∷ []) full
full-Holds = record {
  len_is = refl;
  within = omega arith;
  room = omega arith;
  modest = omega arith;
  elements_are = at;
}
  where
    at : (i : ℕ) → i < 2 → get_elem? (5 ∷ 6 ∷ []) i ≡ some (5 + i)
    at zero lt = refl
    at (suc zero) lt = refl
    at (suc (suc i)) lt = absurd (omega (arith, lt))

buf_push_example :
    (b' : Buf ℕ) × (buf_push kept (λ i. 0) 4 7 (some full) ≡ done b')
    × Holds 4 (Kernel.buf_push (5 ∷ 6 ∷ []) 7) b'
buf_push_example =
    buf_push-Holds (λ i. 0) 4 7 (5 ∷ 6 ∷ []) (some full) full-Holds (omega arith) (omega arith)
