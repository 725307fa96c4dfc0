-- ===== src/Memory/Directory.antt =====
-- TomatKernel/core/memory/paging.c, lines 92-260, and paging.h: page directories and page tables.
-- Paging is off while they are written, so a table is found at its physical address: `tables`
-- gives the 1024 entries of the page at an address. The linker's symbols are parameters.
pub mod Translate
mod Tests
use tomat_os_old.Common.{
  ℕ, zero, suc, ◌+◌, ◌-◌, ◌*◌, ◌/◌, ◌%◌, ◌^◌, Bool, true, false, Option, none, some, ltb, ◌==◌,
  if◌then◌else◌, update, add32, sub32, shr, Run, done, ◌>>=◌,
}
use tomat_os_old.Memory.Bitmap.{Bitmap, allocate_new_page, allocate_page, free_page}

-- `page_directory_entry_t` and `page_table_entry_t`: the fields that the kernel writes.
pub record Entry : Type 0 where
  pub present : Bool
  pub read_write : Bool
  pub user : Bool
  pub address : ℕ

pub record Memory : Type 0 where
  pub bitmap : Bitmap
  pub tables : ℕ → ℕ → Entry

abbrev pub no_entry : Entry
no_entry = record { present = false; read_write = false; user = false; address = 0 }

-- Writes entry `i` of the directory or table at `table`.
abbrev pub set_entry : ℕ → ℕ → Entry → Memory → Memory
set_entry table i e m = record m { tables = update m.tables table (update (m.tables table) i e) }

-- memset(table, 0, 4096)
abbrev pub clear_page : ℕ → Memory → Memory
clear_page table m = record m { tables = update m.tables table (λ i. no_entry) }

abbrev pub pdindex : ℕ → ℕ
pdindex addr = shr addr 22

abbrev pub ptindex : ℕ → ℕ
ptindex addr = shr addr 12 % 1024

-- A missing page table is allocated, cleared and entered into the directory.
pub ensure_table : (directory addr : ℕ) → Memory → Run Memory
ensure_table directory addr m =
    if (m.tables directory (pdindex addr)).present
    then done m
    else allocate_new_page m.bitmap >>= (λ (table, bitmap). done (
        set_entry directory (pdindex addr)
          (record { present = true; read_write = true; user = true; address = shr table 12 })
          (clear_page table (record m { bitmap = bitmap }))))

-- The page table that the directory names for `addr`.
abbrev pub table_of : Memory → (directory addr : ℕ) → ℕ
table_of m directory addr = (m.tables directory (pdindex addr)).address * 4096

-- The page of an entry that is present is freed.
pub release : (table i : ℕ) → Memory → Memory
release table i m =
    let e = m.tables table i in
    if e.present then record m { bitmap = free_page (e.address * 4096) m.bitmap } else m

-- `paging_map_identity`
pub map_identity : (directory addr : ℕ) (user read_write : Bool) → Memory → Run Memory
map_identity directory addr user read_write m = ensure_table directory addr m >>= (λ m.
    let table = table_of m directory addr in
    let e : Entry = record {
      present = true;
      read_write = read_write;
      user = user;
      address = shr addr 12;
    } in
    done (set_entry table (ptindex addr) e (release table (ptindex addr) m)))

-- `paging_map`
pub map : (directory addr : ℕ) → Memory → Run Memory
map directory addr m = ensure_table directory addr m >>= (λ m.
    let table = table_of m directory addr in
    let m = release table (ptindex addr) m in
    allocate_new_page m.bitmap >>= (λ (page, bitmap).
      let e : Entry = record {
        present = true;
        read_write = true;
        user = true;
        address = shr page 12;
      } in
      done (set_entry table (ptindex addr) e (record m { bitmap = bitmap }))))

-- for (int i = 0; i < pageCount; i++) paging_map(directory, virtAddr + i * 4096);
pub map_pages : (count directory addr : ℕ) → Memory → Run Memory
unfolding map
map_pages zero directory addr m = done m
map_pages (suc n) directory addr m =
    map directory addr m >>= map_pages n directory (add32 addr 4096)

-- (size - 1) / 4096 + 1, on size_t.
abbrev pub page_count : ℕ → ℕ
page_count size = sub32 size 1 / 4096 + 1

-- `paging_map_range`
pub map_range : (directory addr size : ℕ) → Memory → Run Memory
unfolding map_pages
map_range directory addr size m = map_pages (page_count size) directory addr m

pub identity_pages : (count directory addr : ℕ) (user : Bool) → Memory → Run Memory
unfolding map_identity
identity_pages zero directory addr user m = done m
identity_pages (suc n) directory addr user m =
    map_identity directory addr user false m >>= identity_pages n directory (add32 addr 4096) user

pub allocate_pages : (count addr : ℕ) → Bitmap → Bitmap
allocate_pages zero addr s = s
allocate_pages (suc n) addr s = allocate_pages n (add32 addr 4096) (allocate_page addr s)

-- ((tomatkernel_end + 1024 * 1024) >> 12) << 12
abbrev pub kernel_heap_start : ℕ → ℕ
kernel_heap_start kernel_end = add32 kernel_end (1024 * 1024) / 4096 * 4096

-- `paging_init`
pub init : (kernel_start kernel_size kernel_end : ℕ) → Bitmap
unfolding allocate_pages
init kernel_start kernel_size kernel_end =
    let s = allocate_page 0 (record { page_bitmap = λ i. 0; first_free = 0 }) in
    let s = allocate_pages (page_count kernel_size) kernel_start s in
    let s = allocate_pages (page_count (1024 * 1024 * 45)) (kernel_heap_start kernel_end) s in
    allocate_page 0xA0000 (allocate_page 0xB8000 s)

-- `paging_init_directory`
pub init_directory : (kernel_start kernel_size kernel_end directory : ℕ) → Memory → Run Memory
unfolding identity_pages map_identity
init_directory kernel_start kernel_size kernel_end directory m =
    identity_pages (page_count kernel_size) directory kernel_start false (clear_page directory m)
    >>= identity_pages (page_count (1024 * 1024 * 45)) directory (kernel_heap_start kernel_end) true
    >>= map_identity directory 0xB8000 true false
    >>= map_identity directory 0xA0000 true false

-- The inner loop of `paging_free_directory`, from entry `i` on.
pub free_entries : (count i : ℕ) → (ℕ → Entry) → Bitmap → Bitmap
free_entries zero i table s = s
free_entries (suc n) i table s =
    free_entries n (i + 1) table
      (if (table i).present then free_page ((table i).address * 4096) s else s)

pub free_tables : (count i : ℕ) → (ℕ → ℕ → Entry) → (ℕ → Entry) → Bitmap → Bitmap
unfolding free_entries
free_tables zero i tables directory s = s
free_tables (suc n) i tables directory s =
    let table = (directory i).address * 4096 in
    free_tables n (i + 1) tables directory
      (if (directory i).present then free_page table (free_entries 1024 0 (tables table) s) else s)

-- `paging_free_directory`
pub free_directory : ℕ → Memory → Memory
unfolding free_tables
free_directory directory m = record m {
  bitmap = free_page directory (free_tables 1024 0 m.tables (m.tables directory) m.bitmap);
}

-- `paging_get_physical_address`; 0 is NULL.
pub get_physical_address : Memory → (directory address : ℕ) → ℕ
get_physical_address m directory address =
    let entry = m.tables (table_of m directory address) (ptindex address) in
    if (m.tables directory (pdindex address)).present
    then (if entry.present then entry.address * 4096 + address % 4096 else 0)
    else 0
