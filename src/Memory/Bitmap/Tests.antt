-- ===== src/Memory/Bitmap/Tests.antt =====
-- Runs of the page bitmap.
use tomat_os_old.Common.{ℕ, ◌*◌, ◌%◌, ◌≡◌, refl, true, false, done, hang, arith}
use tomat_os_old.Common.Bits.{test_bit_of_full}
use tomat_os_old.Memory.Bitmap.{Bitmap, allocate_new_page, free_page, page_used}
use tomat_os_old.Memory.Bitmap.Inv.{IsValid, free_page_lem, free_page-IsValid}
use tomat_os_old.Memory.Bitmap.Allocate.{Allocated}
use tomat_os_old.Memory.Bitmap.Returns.{OnlyFree, allocate-lowest, allocate-hang}

abbrev taken : Bitmap
taken = record { page_bitmap = λ i. 255; first_free = 0 }

taken-IsValid : IsValid taken
taken-IsValid = record { bytes = λ i. omega arith; small = omega arith; full = λ i h. refl }

page_used-taken : (q : ℕ) → page_used taken q ≡ true
unfolding page_used
page_used-taken q = test_bit_of_full (q % 8) (omega arith)

-- Every page but number 24 is taken.
abbrev one_left : Bitmap
one_left = free_page (24 * 4096) taken

one_left-OnlyFree : OnlyFree one_left 24
one_left-OnlyFree q small ne =
    ground (arith, free_page_lem (24 * 4096) q taken taken-IsValid, page_used-taken q, ne)

one_left-IsValid : IsValid one_left
one_left-IsValid = free_page-IsValid (24 * 4096) taken-IsValid

-- Pages 24 and 77 are free.
abbrev two_left : Bitmap
two_left = free_page (77 * 4096) one_left

first_free : page_used two_left 24 ≡ false
first_free = ground (
  arith,
  free_page_lem (77 * 4096) 24 one_left one_left-IsValid,
  free_page_lem (24 * 4096) 24 taken taken-IsValid,
)

second_free : page_used two_left 77 ≡ false
second_free = ground (arith, free_page_lem (77 * 4096) 77 one_left one_left-IsValid)

allocate-lowest_example :
    (p : ℕ) × (s' : Bitmap) × (allocate_new_page two_left ≡ done (p * 4096, s'))
    × Allocated two_left p s'
allocate-lowest_example =
    allocate-lowest 24 77 (free_page-IsValid (77 * 4096) one_left-IsValid) (omega arith)
      (omega arith) first_free second_free

allocate-hang_example : allocate_new_page one_left ≡ hang
allocate-hang_example = allocate-hang 24 one_left-IsValid (omega arith) one_left-OnlyFree
