-- ===== src/Klibc/Strings/Tests.antt =====
-- Runs of the string functions.
use tomat_os_old.Common.{
  ℕ, ◌+◌, ◌-◌, ◌%◌, ◌≤◌, ◌≡◌, ◌↔◌, ◌==◌, ◌&&◌, inl, inr, refl, done, leb, ltb, if◌then◌else◌, arith,
}
use tomat_os_old.Klibc.Strings.{
  Bytes, strlen, count_from, swap_ends, strrev, put_digits, uitoa, strcmp, memcmp, memmove,
}
use tomat_os_old.Klibc.Strings.Uitoa.{Prints, uitoa_lem}
use tomat_os_old.Klibc.Strings.Compare.{Same, strcmp_lem, memcmp_lem}
use tomat_os_old.Klibc.Strings.Copy.{memmove_lem}

-- The bytes 0, 1, ... 7, over and over.
abbrev cycle : Bytes
cycle j = j % 8

-- 0xBEEF in hexadecimal.
uitoa_example :
    (num : ℕ) × (mem' : Bytes) × (uitoa 34 48879 100 16 cycle ≡ done (num, mem'))
    × (num ≤ 32)
    × Prints 16 48879 100 num cycle mem'
uitoa_example =
    uitoa_lem 34 48879 100 16 cycle (omega arith) (omega arith) (omega arith) (omega arith)
      (omega arith) (inl (omega arith))

memmove_example :
    memmove 200 12 10 8 cycle 15
    ≡ (if leb 12 15 && ltb 15 (12 + 8) then cycle (10 + (15 - 12)) else cycle 15)
memmove_example = memmove_lem 200 12 10 8 cycle (inr (omega arith)) (inr (omega arith)) 15 refl

strcmp_example : (r : ℕ) × (strcmp 8 1 9 cycle ≡ done r) × ((r ≡ 0) ↔ Same 1 9 8 cycle)
strcmp_example =
    strcmp_lem 8 1 9 7 cycle (λ j. omega arith) (omega arith)
      (record { end = refl; inside = λ j lt. omega (arith, lt) })

memcmp_example : (memcmp 1 9 20 cycle ≡ 0) ↔ Same 1 9 20 cycle
memcmp_example = memcmp_lem 1 9 20 cycle (λ j. omega arith)

-- 0 has no digit in hexadecimal: only the end of the string is written.
uitoa_zero : uitoa 34 0 100 16 cycle ≡ done (0, λ j. if (100 + 0) == j then 0 else cycle j)
unfolding uitoa put_digits strrev strlen count_from swap_ends
uitoa_zero = refl
