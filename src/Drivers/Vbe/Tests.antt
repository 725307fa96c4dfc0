-- ===== src/Drivers/Vbe/Tests.antt =====
-- Runs of the graphics adapter.
use tomat_os_old.Common.{
  ℕ, ◌+◌, ◌*◌, ◌<◌, ◌≤◌, ◌≢◌, ◌⊎◌, done, ◌≡◌, refl, List, [], ◌∷◌, update, ◌==◌, if◌then◌else◌,
  fault, arith,
}
use tomat_os_old.Drivers.Vbe.{
  Adapter, vbe_bank_address, vbe_index, vbe_write, vbe_read, vbe_id, vbe_get_width, vbe_get_bpp,
  vbe_set_bank, vbe_max_width, vbe_max_height, vbe_max_bpp, vbe_init, vbe_set_pixel, vbe_blit,
  place,
}
use tomat_os_old.Graphics.Window.{for_from}
use tomat_os_old.Drivers.Vbe.Place.{video_byte, vbe_set_pixel-misplaced}

-- A file of registers, with the one that is selected, and the writes to the video memory, last first.
record Card : Type 0 where
  register : ℕ → ℕ
  selected : ℕ
  writes : List (ℕ × ℕ)

adapter : Adapter Card
adapter = record {
  inw = λ port s. (s.register s.selected, s);
  outw = λ port value s.
      if port == vbe_index
      then record s { selected = value }
      else record s { register = update s.register s.selected value };
  store = λ address bytes value s. record s { writes = (address, value) ∷ s.writes };
}

-- A screen 4 pixels wide, with 8 bits for a pixel.
card : Card
card = record {
  register = λ i. if i == 0 then 0xB0C4 else if i == 1 then 4 else if i == 3 then 8 else 0;
  selected = 0;
  writes = [];
}

-- A new adapter is asked for its limits by reading the driver's own variables, which are 0.
stale :
    (vbe_init adapter (record { max_width = 0; max_height = 0; max_bpp = 0 }) card).0
    ≡ record { max_width = 0; max_height = 0; max_bpp = 0 }
unfolding vbe_init vbe_id vbe_read vbe_max_width vbe_max_height vbe_max_bpp adapter card
stale = refl

-- A block of 2 by 2 colours is read with the width of the screen, and so behind its end.
blit_fault : vbe_blit adapter (λ i. i) 4 0 0 2 2 card ≡ fault
unfolding for_from vbe_blit vbe_set_pixel vbe_get_width vbe_get_bpp vbe_set_bank vbe_read vbe_write
    place adapter card
blit_fault = refl

-- The same screen with 32 bits for a pixel.
deep : Card
unfolding card
deep = record card { register = λ i. if i == 3 then 32 else card.register i }

deep_width : (vbe_get_width adapter deep) ≡ (4, record deep { selected = 1 })
unfolding vbe_get_width vbe_read adapter deep card
deep_width = refl

deep_bpp : vbe_get_bpp adapter (record deep { selected = 1 }) ≡ (32, record deep { selected = 3 })
unfolding vbe_get_bpp vbe_read adapter deep card
deep_bpp = refl

-- The first pixel of the line with number 20.
misplaced_example :
    (bank : ℕ) × (at : ℕ) × (vbe_set_pixel adapter 0xFF0000 0 20 deep
      ≡ done (
          adapter.store
            (vbe_bank_address + at)
            4
            0xFF0000
            (vbe_set_bank adapter bank (record deep { selected = 3 }))))
    × (((0 + 20 * 4 < 64) × (video_byte bank at ≡ 4 * (0 + 20 * 4)))
        ⊎ ((64 ≤ 0 + 20 * 4) × (video_byte bank at ≢ 4 * (0 + 20 * 4))))
misplaced_example =
    vbe_set_pixel-misplaced adapter 0xFF0000 0 20 4 deep (record deep { selected = 1 })
      (record deep { selected = 3 }) deep_width deep_bpp (omega arith)
