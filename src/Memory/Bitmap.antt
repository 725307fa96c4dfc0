-- ===== src/Memory/Bitmap.antt =====
-- TomatKernel/core/memory/paging.c, lines 14-67: the bitmap of physical pages. Each function takes
-- the two static variables as a record and returns them.
pub mod Inv
pub mod Allocate
pub mod Returns
mod Tests
use tomat_os_old.Common.{
  ℕ, zero, suc, ◌+◌, ◌-◌, ◌*◌, ◌/◌, ◌%◌, ◌^◌, Bool, Option, none, some, ltb, ◌==◌, if◌then◌else◌,
  update, Run, done, hang,
}
use tomat_os_old.Common.Bits.{test_bit, set_bit, clear_bit}

-- `page_bitmap` and `first_free` (a uint16_t). A page address is below 2^32, so every index that is
-- used lies within the 131072 bytes of the array.
pub record Bitmap : Type 0 where
  pub page_bitmap : ℕ → ℕ
  pub first_free : ℕ

-- for (; i < 8; i++) if ((byte & (1 << i)) == 0) break;
pub find_bit : (rounds i byte : ℕ) → ℕ
find_bit zero i byte = i
find_bit (suc k) i byte = let rest = find_bit k (i + 1) byte in if test_bit byte i then rest else i

-- while (!BITMAP_HAS_FREE(first_free)) first_free++;
-- After 2^16 rounds a uint16_t has taken every value, so the loop goes on for ever.
pub skip_full : (rounds : ℕ) → (ℕ → ℕ) → (first_free : ℕ) → Option ℕ
skip_full zero bitmap f = none
skip_full (suc k) bitmap f =
    let rest = skip_full k bitmap ((f + 1) % 2 ^ 16) in if bitmap f == 255 then rest else some f

-- The body, whose last statement may call the function again.
pub allocate_rounds : (calls : ℕ) → Bitmap → Run (ℕ × Bitmap)
allocate_rounds zero s = hang
allocate_rounds (suc k) s =
    let current = s.first_free in
    let i = find_bit 8 0 (s.page_bitmap current) in
    let bitmap =
      if ltb i 8
      then update s.page_bitmap current (set_bit (s.page_bitmap current) i)
      else s.page_bitmap in
    elim (skip_full (2 ^ 16) bitmap current) [
      | none ↦ hang
      | some f ↦
          let s' : Bitmap = record { page_bitmap = bitmap; first_free = f } in
          let again = allocate_rounds k s' in
          if i == 8 then again else done ((current * 8 + i) * 4096, s')
    ]

-- The second call finds a free bit at once.
pub allocate_new_page : Bitmap → Run (ℕ × Bitmap)
allocate_new_page s = allocate_rounds 2 s

pub allocate_page : ℕ → Bitmap → Bitmap
allocate_page addr s =
    let bit = addr / 4096 % 8 in
    let index = (addr / 4096 - bit) / 8 in
    record s { page_bitmap = update s.page_bitmap index (set_bit (s.page_bitmap index) bit) }

pub free_page : ℕ → Bitmap → Bitmap
free_page addr s =
    let bit = addr / 4096 % 8 in
    let index = (addr / 4096 - bit) / 8 in
    record {
      page_bitmap = update s.page_bitmap index (clear_bit (s.page_bitmap index) bit);
      first_free = if ltb index s.first_free then index else s.first_free;
    }

-- Whether the bitmap marks physical page `n` as taken.
pub page_used : Bitmap → ℕ → Bool
page_used s n = test_bit (s.page_bitmap (n / 8)) (n % 8)
