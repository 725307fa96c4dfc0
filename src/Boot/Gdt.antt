-- ===== src/Boot/Gdt.antt =====
-- TomatKernel/boot/gdt/gdt.h and gdt.c: the segment descriptors.
pub mod Descriptor
mod Tests
use tomat_os_old.Common.{ℕ, ◌+◌, ◌*◌, ◌/◌, ◌%◌, ◌^◌, update, u32, shr}

-- `gdt_entry_t`, its fields from the lowest bit on.
pub record GdtEntry : Type 0 where
  pub limit_low : ℕ
  pub base_low : ℕ
  pub accessed : ℕ
  pub read_write : ℕ
  pub conforming_expand_down : ℕ
  pub code : ℕ
  pub always_1 : ℕ
  pub dpl : ℕ
  pub present : ℕ
  pub limit_high : ℕ
  pub available : ℕ
  pub always_0 : ℕ
  pub big : ℕ
  pub gran : ℕ
  pub base_high : ℕ

-- The 64 bits of an entry.
pub pack : GdtEntry → ℕ
pack e =
    e.limit_low
    + 2 ^ 16
      * (e.base_low
          + 2 ^ 24
            * (e.accessed
                + 2
                  * (e.read_write
                      + 2
                        * (e.conforming_expand_down
                            + 2
                              * (e.code
                                  + 2
                                    * (e.always_1
                                        + 2
                                          * (e.dpl
                                              + 4
                                                * (e.present
                                                    + 2
                                                      * (e.limit_high
                                                          + 16
                                                            * (e.available
                                                            + 2
                                                            * (e.always_0
                                                            + 2
                                                            * (e.big
                                                            + 2
                                                            * (e.gran + 2 * e.base_high)))))))))))))

abbrev pub segment_code : ℕ
segment_code = 8

abbrev pub segment_data : ℕ
segment_data = 16

abbrev pub segment_user_code : ℕ
segment_user_code = 24

abbrev pub segment_user_data : ℕ
segment_user_data = 32

-- `gdt_t`; the entries by their index.
pub record Gdt : Type 0 where
  pub size : ℕ
  pub entries : ℕ → GdtEntry

-- What `gdt_entry_set` writes.
pub described : (base limit : ℕ) → (access : GdtEntry) → GdtEntry
described base limit access = record access {
  always_0 = 0;
  always_1 = 1;
  base_low = base % 2 ^ 24;
  base_high = shr base 24 % 2 ^ 8;
  limit_low = limit % 2 ^ 16;
  limit_high = shr limit 16 % 2 ^ 4;
}

pub gdt_entry_set : (index base limit : ℕ) → (access : GdtEntry) → Gdt → Gdt
gdt_entry_set index base limit access gdt = record gdt {
  entries = update gdt.entries (index / 8) (described base limit access);
}

-- gdt_entry_t entry = {0};
abbrev pub no_gdt_entry : GdtEntry
no_gdt_entry = record {
  limit_low = 0;
  base_low = 0;
  accessed = 0;
  read_write = 0;
  conforming_expand_down = 0;
  code = 0;
  always_1 = 0;
  dpl = 0;
  present = 0;
  limit_high = 0;
  available = 0;
  always_0 = 0;
  big = 0;
  gran = 0;
  base_high = 0;
}

-- `tomatkernel_end` is the linker's symbol; the processor's registers are not part of the state.
pub gdt_init : (tomatkernel_end : ℕ) → Gdt → Gdt
gdt_init tomatkernel_end gdt =
    let gdt = gdt_entry_set 0 0 0 no_gdt_entry (record gdt { size = 5 * 8 }) in
    let entry : GdtEntry = record no_gdt_entry {
      accessed = 0;
      read_write = 1;
      conforming_expand_down = 0;
      code = 1;
      dpl = 0;
      present = 1;
      available = 0;
      big = 1;
      gran = 1;
    } in
    let gdt = gdt_entry_set segment_code 0 0xFFFFFFFF entry gdt in
    let entry : GdtEntry = record entry { code = 0 } in
    let gdt = gdt_entry_set segment_data 0 0xFFFFFFFF entry gdt in
    let kernel_end = u32 (tomatkernel_end + 1024 * 1024 * 50) in
    let entry : GdtEntry = record entry { dpl = 3 } in
    let gdt = gdt_entry_set segment_user_code kernel_end 0xFFFFFFFF entry gdt in
    let entry : GdtEntry = record entry { code = 1 } in
    gdt_entry_set segment_user_data kernel_end 0xFFFFFFFF entry gdt
