-- ===== src/Memory/Bitmap/Inv.antt =====
-- The invariant of the page bitmap, and what marking and freeing one page do.
use tomat_os_old.Common.{
  ℕ, ◌-◌, ◌/◌, ◌%◌, ◌^◌, ◌<◌, ◌≡◌, true, false, ◌==◌, if◌then◌else◌, update, arith,
}
use tomat_os_old.Common.Bits.{
  set_bit, clear_bit, test_bit-set_bit, test_bit-clear_bit, set_bit-lt, clear_bit-lt,
  set_bit_of_full,
}
use tomat_os_old.Memory.Bitmap.{Bitmap, allocate_page, free_page, page_used}

-- Entries are bytes, and no page below byte `first_free` is free.
pub record IsValid (s : Bitmap) : Type 0 where
  pub bytes : (i : ℕ) → s.page_bitmap i < 256
  pub small : s.first_free < 2 ^ 16
  pub full : (i : ℕ) → i < s.first_free → s.page_bitmap i ≡ 255

-- One bit of one byte is one page.
pub page_of_bits : (p q : ℕ) → p / 8 ≡ q / 8 → p % 8 ≡ q % 8 → p ≡ q
page_of_bits p q h k = omega arith

pub page_used-set :
    (s : Bitmap) (f p q : ℕ)
    → ((i : ℕ) → s.page_bitmap i < 256)
    → let b = update s.page_bitmap (p / 8) (set_bit (s.page_bitmap (p / 8)) (p % 8)) in
      page_used (record { page_bitmap = b; first_free = f }) q
      ≡ (if p == q then true else page_used s q)
unfolding page_used
page_used-set s f p q bytes = ground (
  arith,
  page_of_bits p q,
  test_bit-set_bit (s.page_bitmap (p / 8)) (p % 8) (q % 8) (bytes (p / 8)) (omega arith)
      (omega arith),
)

page_used-clear :
    (s : Bitmap) (f p q : ℕ)
    → ((i : ℕ) → s.page_bitmap i < 256)
    → let b = update s.page_bitmap (p / 8) (clear_bit (s.page_bitmap (p / 8)) (p % 8)) in
      page_used (record { page_bitmap = b; first_free = f }) q
      ≡ (if p == q then false else page_used s q)
unfolding page_used
page_used-clear s f p q bytes = ground (
  arith,
  page_of_bits p q,
  test_bit-clear_bit (s.page_bitmap (p / 8)) (p % 8) (q % 8) (bytes (p / 8)) (omega arith)
      (omega arith),
)

index_eq : (n : ℕ) → (n - n % 8) / 8 ≡ n / 8
index_eq n = omega arith

-- On a valid bitmap `paging_allocate_page` marks the page of the address, and no other page.
page_used-allocate_page :
    (addr q : ℕ) (s : Bitmap)
    → IsValid s
    → page_used (allocate_page addr s) q ≡ (if addr / 4096 == q then true else page_used s q)
unfolding allocate_page
page_used-allocate_page addr q s v =
    rw (index_eq (addr / 4096)) (page_used-set s s.first_free (addr / 4096) q v.bytes)

pub allocate_page-IsValid : {s : Bitmap} (addr : ℕ) → IsValid s → IsValid (allocate_page addr s)
unfolding allocate_page
allocate_page-IsValid {s} addr v = rw (index_eq (addr / 4096)) (record {
  bytes = λ i.
      ground (
        arith,
        v.bytes i,
        set_bit-lt (s.page_bitmap i) (addr / 4096 % 8) (v.bytes i) (omega arith),
      );
  small = v.small;
  full = λ i h. ground (arith, v.full i h, set_bit_of_full (addr / 4096 % 8) (omega arith));
})

-- On a valid bitmap `paging_free_page` frees the page of the address, and no other page.
pub free_page_lem :
    (addr q : ℕ) (s : Bitmap)
    → IsValid s
    → page_used (free_page addr s) q ≡ (if addr / 4096 == q then false else page_used s q)
unfolding free_page
free_page_lem addr q s v = rw (index_eq (addr / 4096)) (page_used-clear s _ (addr / 4096) q v.bytes)

pub free_page-IsValid : {s : Bitmap} (addr : ℕ) → IsValid s → IsValid (free_page addr s)
unfolding free_page
free_page-IsValid {s} addr v = rw (index_eq (addr / 4096)) (record {
  bytes = λ i. ground (
    arith,
    v.bytes i,
    clear_bit-lt (s.page_bitmap i) (addr / 4096 % 8) (v.bytes i) (omega arith),
  );
  small = ground (arith, v.small);
  full = λ i h. ground (arith, v.full i);
})
