-- ===== src/Memory/Directory/Translate.antt =====
-- What `paging_get_physical_address` finds after `paging_map` (paging.c, lines 190-260).
use tomat_os_old.Common.{
  ℕ, ◌+◌, ◌*◌, ◌/◌, ◌%◌, ◌^◌, ◌<◌, ◌≡◌, ◌≢◌, ◌⊎◌, inl, inr, refl, ap, true, false, Run, done, arith,
  Bool-cases,
}
use tomat_os_old.Memory.Bitmap.{Bitmap, allocate_new_page, page_used}
use tomat_os_old.Memory.Bitmap.Inv.{IsValid, free_page_lem, free_page-IsValid}
use tomat_os_old.Memory.Bitmap.Returns.{allocate-lowest}
use tomat_os_old.Memory.Directory.{
  Entry, Memory, set_entry, pdindex, ptindex, ensure_table, table_of, release, map,
  get_physical_address,
}

-- The entry that `paging_map` writes for physical page `p`.
abbrev pub entry_of : ℕ → Entry
entry_of p = record { present = true; read_write = true; user = true; address = p * 4096 / 2 ^ 12 }

-- Memory once `addr` is mapped to page `p`: the bitmap is `s`, one entry of one table is new.
abbrev pub mapped : (directory addr p : ℕ) → Bitmap → Memory → Memory
mapped directory addr p s m =
    set_entry (table_of m directory addr) (ptindex addr) (entry_of p) (record m { bitmap = s })

release-tables : (table i : ℕ) (m : Memory) → (release table i m).tables ≡ m.tables
unfolding release
release-tables table i m = ground arith

release-IsValid : (table i : ℕ) (m : Memory) → IsValid m.bitmap → IsValid (release table i m).bitmap
unfolding release
release-IsValid table i m v = elim (Bool-cases (m.tables table i).present) [
  | inl e ↦ rw e (free_page-IsValid ((m.tables table i).address * 4096) v)
  | inr e ↦ rw e v
]

release-free :
    (table i q : ℕ) (m : Memory)
    → IsValid m.bitmap
    → page_used m.bitmap q ≡ false
    → page_used (release table i m).bitmap q ≡ false
unfolding release
release-free table i q m v free =
    ground (arith, free, free_page_lem ((m.tables table i).address * 4096) q m.bitmap v)

ensure_table_here :
    (directory addr : ℕ) (m : Memory)
    → (m.tables directory (pdindex addr)).present ≡ true
    → ensure_table directory addr m ≡ done m
unfolding ensure_table
ensure_table_here directory addr m here = rw here refl

map_run :
    (directory addr p : ℕ) (s : Bitmap) (m : Memory)
    → ensure_table directory addr m ≡ done m
    → allocate_new_page (release (table_of m directory addr) (ptindex addr) m).bitmap
      ≡ done (p * 4096, s)
    → map directory addr m ≡ done (mapped directory addr p s m)
unfolding map
map_run directory addr p s m ready returns =
    let t = table_of m directory addr in
    let write : (ℕ → ℕ → Entry) → Run Memory = λ tables.
      done (set_entry t (ptindex addr) (entry_of p) (record { bitmap = s; tables = tables })) in
    rw (ready, returns) (ap write (release-tables t (ptindex addr) m))

-- Where the directory has a page table for the address, another page than the directory itself, and
-- two pages below 2^19 are free, `paging_map` returns: some page that is marked as taken then stands
-- behind the address, which is translated to it with its offset kept, and an address with another
-- page table, or another place in the table, keeps its translation.
pub map-get_physical_address :
    (directory addr i j : ℕ) (m : Memory)
    → IsValid m.bitmap
    → (m.tables directory (pdindex addr)).present ≡ true
    → directory ≢ table_of m directory addr
    → i < j
    → j < 2 ^ 19
    → page_used m.bitmap i ≡ false
    → page_used m.bitmap j ≡ false
    → (p : ℕ) × (m' : Memory) × (map directory addr m ≡ done m')
      × (page_used m'.bitmap p ≡ true)
      × (get_physical_address m' directory addr ≡ p * 4096 + addr % 4096)
      × ((other : ℕ)
          → (table_of m directory other ≢ table_of m directory addr)
            ⊎ (ptindex other ≢ ptindex addr)
          → get_physical_address m' directory other ≡ get_physical_address m directory other)
unfolding get_physical_address
map-get_physical_address directory addr i j m v here apart lt small fi fj =
    let t = table_of m directory addr in
    let m1 = release t (ptindex addr) m in
    let (p, s, returns, a) =
      allocate-lowest i j (release-IsValid t (ptindex addr) m v) lt small
        (release-free t (ptindex addr) i m v fi) (release-free t (ptindex addr) j m v fj) in
    let run = map_run directory addr p s m (ensure_table_here directory addr m here) returns in
    (
      p,
      mapped directory addr p s m,
      run,
      ground (arith, a.marked p),
      ground arith,
      λ other differs. ground arith,
    )
