-- ===== src/Drivers/Vbe.antt =====
-- TomatKernel/core/drivers/video/vbe.h and vbe.c: the driver of the Bochs graphics adapter, over 16-bit
-- port instructions and writes to the video memory, which are parameters.
pub mod Place
mod Tests
use tomat_os_old.Common.{
  ℕ, ◌+◌, ◌-◌, ◌*◌, ◌/◌, ◌%◌, ◌^◌, leb, ltb, ◌==◌, ◌||◌, if◌then◌else◌, u16, Run, done, panic,
  fault, ◌>>=◌,
}
use tomat_os_old.Graphics.Window.{for_from}

-- outw and inw, and a write of `bytes` bytes at an address.
pub record Adapter (S : Type 0) : Type 0 where
  pub inw : (port : ℕ) → S → ℕ × S
  pub outw : (port value : ℕ) → S → S
  pub store : (address bytes value : ℕ) → S → S

-- The static variables of vbe.c.
pub record Vbe : Type 0 where
  pub max_width : ℕ
  pub max_height : ℕ
  pub max_bpp : ℕ

abbrev pub default_max_width : ℕ
default_max_width = 1024

abbrev pub default_max_height : ℕ
default_max_height = 768

abbrev pub vbe_bank_address : ℕ
vbe_bank_address = 0xA0000

abbrev pub vbe_index : ℕ
vbe_index = 0x1CE

abbrev pub vbe_data : ℕ
vbe_data = 0x1CF

abbrev pub vbe_version_3 : ℕ
vbe_version_3 = 0xB0C2

abbrev pub vbe_version_4 : ℕ
vbe_version_4 = 0xB0C3

pub vbe_max_width : Vbe → ℕ
vbe_max_width v = u16 v.max_width

pub vbe_max_height : Vbe → ℕ
vbe_max_height v = u16 v.max_height

pub vbe_max_bpp : Vbe → ℕ
vbe_max_bpp v = u16 v.max_bpp

-- The bank of a pixel, and its place in the bank; `offset` is an `int`.
pub place : (width x y : ℕ) → ℕ × ℕ
place width x y = let offset = x + y * width in let bank = offset / 64 in (bank, offset - bank * 64)

module _ {S : Type 0} (adapter : Adapter S) where
  pub vbe_write : (param value : ℕ) → S → S
  vbe_write param value s = adapter.outw vbe_data value (adapter.outw vbe_index param s)

  pub vbe_read : (param : ℕ) → S → ℕ × S
  vbe_read param s = adapter.inw vbe_data (adapter.outw vbe_index param s)

  pub vbe_id : S → ℕ × S
  vbe_id s = vbe_read 0 s

  pub vbe_set_width : (width : ℕ) → S → S
  vbe_set_width width s = vbe_write 1 width s

  pub vbe_get_width : S → ℕ × S
  vbe_get_width s = vbe_read 1 s

  pub vbe_set_height : (height : ℕ) → S → S
  vbe_set_height height s = vbe_write 2 height s

  pub vbe_get_height : S → ℕ × S
  vbe_get_height s = vbe_read 2 s

  pub vbe_set_bpp : (bpp : ℕ) → S → S
  vbe_set_bpp bpp s = vbe_write 3 bpp s

  pub vbe_get_bpp : S → ℕ × S
  vbe_get_bpp s = vbe_read 3 s

  pub vbe_set_bank : (bank : ℕ) → S → S
  vbe_set_bank bank s = vbe_write 5 bank s

  pub vbe_get_bank : S → ℕ × S
  vbe_get_bank s = vbe_read 5 s

  -- VBE_FLAG_ENABLED is 0, so that its disjunction with the flags is the flags; the register is VBE_ID.
  pub vbe_enable : (flags : ℕ) → S → S
  vbe_enable flags s = vbe_write 0 flags s

  pub vbe_disable : S → S
  vbe_disable s = vbe_write 0 1 s

  pub vbe_init : Vbe → S → Vbe × S
  vbe_init v s =
      let (id, s) = vbe_id s in
      if leb vbe_version_4 id
      then (
        record {
          max_width = vbe_max_width v;
          max_height = vbe_max_height v;
          max_bpp = vbe_max_bpp v;
        },
        vbe_disable (vbe_enable 2 s),
      )
      else (
        record {
          max_width = default_max_width;
          max_height = default_max_height;
          max_bpp = if leb vbe_version_3 id then 32 else 0;
        },
        s,
      )

  -- An `offset` that is no `int` is `fault`.
  pub vbe_set_pixel : (color x y : ℕ) → S → Run S
  vbe_set_pixel color x y s =
      let (width, s) = vbe_get_width s in
      let (bpp, s) = vbe_get_bpp s in
      let (bank, pixel) = place width x y in
      let s = vbe_set_bank (u16 bank) s in
      if leb (2 ^ 31) (x + y * width)
      then fault
      else if bpp == 0 || bpp == 8
      then done (adapter.store (vbe_bank_address + pixel) 1 (color % 2 ^ 8) s)
      else if bpp == 16
      then done (adapter.store (vbe_bank_address + 2 * pixel) 2 (color % 2 ^ 16) s)
      else if bpp == 32
      then done (adapter.store (vbe_bank_address + 4 * pixel) 4 color s)
      else panic

  -- `colors` are the words at `color`, of which there are `size`.
  pub vbe_blit : (colors : ℕ → ℕ) (size blit_x blit_y blit_width blit_height : ℕ) → S → Run S
  vbe_blit colors size blit_x blit_y blit_width blit_height s =
      let (width, s) = vbe_get_width s in
      for_from blit_height 0
        (λ y. for_from blit_width 0 (λ x s.
          if ltb (x + y * width) size
          then vbe_set_pixel (colors (x + y * width)) (u16 (x + blit_x)) (u16 (y + blit_y)) s
          else fault))
        s
