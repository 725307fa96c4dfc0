-- ===== src/Memory/Directory/Tests.antt =====
-- Runs of the page directories.
use tomat_os_old.Common.{
  ℕ, ◌+◌, ◌*◌, ◌%◌, ◌≡◌, ◌≢◌, ◌⊎◌, refl, true, false, ◌==◌, if◌then◌else◌, done, arith,
}
use tomat_os_old.Memory.Bitmap.{Bitmap, free_page, page_used}
use tomat_os_old.Memory.Bitmap.Inv.{IsValid, free_page_lem, free_page-IsValid}
use tomat_os_old.Memory.Directory.{Memory, no_entry, ptindex, table_of, map, get_physical_address}
use tomat_os_old.Memory.Directory.Translate.{map-get_physical_address}

abbrev taken : Bitmap
taken = record { page_bitmap = λ i. 255; first_free = 0 }

taken-IsValid : IsValid taken
taken-IsValid = record { bytes = λ i. omega arith; small = omega arith; full = λ i h. refl }

abbrev two_left : Bitmap
two_left = free_page (77 * 4096) (free_page (24 * 4096) taken)

one_left-IsValid : IsValid (free_page (24 * 4096) taken)
one_left-IsValid = free_page-IsValid (24 * 4096) taken-IsValid

first_free : page_used two_left 24 ≡ false
first_free = ground (
  arith,
  free_page_lem (77 * 4096) 24 (free_page (24 * 4096) taken) one_left-IsValid,
  free_page_lem (24 * 4096) 24 taken taken-IsValid,
)

second_free : page_used two_left 77 ≡ false
second_free =
    ground (arith, free_page_lem (77 * 4096) 77 (free_page (24 * 4096) taken) one_left-IsValid)

-- The directory in page 1 has its first page table in page 2.
abbrev memory : Memory
memory = record {
  bitmap = two_left;
  tables = λ page i.
      if page == 0x1000
      then (if i == 0
          then record { present = true; read_write = true; user = true; address = 2 }
          else no_entry)
      else no_entry;
}

map_example :
    (p : ℕ) × (m' : Memory) × (map 0x1000 0x3007 memory ≡ done m')
    × (page_used m'.bitmap p ≡ true)
    × (get_physical_address m' 0x1000 0x3007 ≡ p * 4096 + 0x3007 % 4096)
    × ((other : ℕ)
        → (table_of memory 0x1000 other ≢ table_of memory 0x1000 0x3007)
          ⊎ (ptindex other ≢ ptindex 0x3007)
        → get_physical_address m' 0x1000 other ≡ get_physical_address memory 0x1000 other)
map_example =
    map-get_physical_address 0x1000 0x3007 24 77 memory
      (free_page-IsValid (77 * 4096) one_left-IsValid) refl (omega arith) (omega arith)
      (omega arith) first_free second_free
