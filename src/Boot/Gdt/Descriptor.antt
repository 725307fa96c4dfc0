-- ===== src/Boot/Gdt/Descriptor.antt =====
-- The descriptors as the processor reads them.
use tomat_os_old.Common.{ℕ, ◌+◌, ◌*◌, ◌/◌, ◌%◌, ◌^◌, ◌<◌, ◌≡◌, ◌==◌, if◌then◌else◌}
use tomat_os_old.Boot.Gdt.{GdtEntry, Gdt, no_gdt_entry}

-- Bits of a descriptor.
unfoldable pub bits : (from count word : ℕ) → ℕ
bits from count word = word / 2 ^ from % 2 ^ count

-- The base, the limit, whether the segment is executable, whether it may be written (or, for code,
-- read), the privilege level, and the width of its operands.
pub base_of : ℕ → ℕ
base_of word = bits 16 24 word + 2 ^ 24 * bits 56 8 word

pub limit_of : ℕ → ℕ
limit_of word = bits 0 16 word + 2 ^ 16 * bits 48 4 word

pub executable : ℕ → ℕ
executable word = bits 43 1 word

pub read_or_write : ℕ → ℕ
read_or_write word = bits 41 1 word

pub privilege : ℕ → ℕ
privilege word = bits 45 2 word

pub is_present : ℕ → ℕ
is_present word = bits 47 1 word

pub is_wide : ℕ → ℕ
is_wide word = bits 54 1 word

-- The limit counts bytes, or pages of 4096 bytes when the granularity bit is set.
pub granularity : ℕ → ℕ
granularity word = bits 55 1 word

-- The number of bytes the segment spans.
pub span : ℕ → ℕ
span word = if granularity word == 1 then (limit_of word + 1) * 4096 else limit_of word + 1

-- The single bits of an entry.
pub record IsAccess (e : GdtEntry) : Type 0 where
  pub accessed : e.accessed < 2
  pub read_write : e.read_write < 2
  pub expand : e.conforming_expand_down < 2
  pub code : e.code < 2
  pub dpl : e.dpl < 4
  pub present : e.present < 2
  pub available : e.available < 2
  pub big : e.big < 2
  pub gran : e.gran < 2

-- What the processor reads from a descriptor.
pub record Reads (base limit gran code read_write dpl big present : ℕ) (word : ℕ) : Type 0 where
  pub base_is : base_of word ≡ base
  pub limit_is : limit_of word ≡ limit
  pub gran_is : granularity word ≡ gran
  pub code_is : executable word ≡ code
  pub read_write_is : read_or_write word ≡ read_write
  pub dpl_is : privilege word ≡ dpl
  pub big_is : is_wide word ≡ big
  pub present_is : is_present word ≡ present

-- An access as `gdt_init` makes them.
abbrev access : (code dpl : ℕ) → GdtEntry
access code dpl = record no_gdt_entry {
  accessed = 0;
  read_write = 1;
  conforming_expand_down = 0;
  code = code;
  dpl = dpl;
  present = 1;
  available = 0;
  big = 1;
  gran = 1;
}

-- A segment of the whole address space, in pages, of 32-bit operands, present.
pub Spans : (base code dpl : ℕ) → (word : ℕ) → Type 0
Spans base code dpl word = Reads base 0xFFFFF 1 code 1 dpl 1 1 word × (span word ≡ 2 ^ 32)
