-- ===== src/Drivers/Vbe/Place.antt =====
-- Where the driver draws a pixel (vbe.c, lines 95-120).
use tomat_os_old.Common.{
  ℕ, ◌+◌, ◌-◌, ◌*◌, ◌/◌, ◌^◌, ◌≤◌, ◌<◌, ◌≡◌, ◌≢◌, ◌⊎◌, inl, inr, refl, false, leb, u16, done, arith,
  Bool-cases,
}
use tomat_os_old.Drivers.Vbe.{
  Adapter, place, vbe_get_width, vbe_get_bpp, vbe_set_bank, vbe_set_pixel, vbe_bank_address,
}

-- The byte of the video memory that stands at `vbe_bank_address + at` while `bank` is selected: a bank
-- has 64 KB.
pub video_byte : (bank at : ℕ) → ℕ
video_byte bank at = bank * 65536 + at

misplaced :
    (offset : ℕ)
    → ((offset < 64) × (video_byte (offset / 64) (4 * (offset - offset / 64 * 64)) ≡ 4 * offset))
      ⊎ ((64 ≤ offset) × (video_byte (offset / 64) (4 * (offset - offset / 64 * 64)) ≢ 4 * offset))
unfolding video_byte
misplaced offset = elim (Bool-cases (leb 64 offset)) [
  | inl high ↦
      let far : 64 ≤ offset = ground (arith, high) in
      inr (far, λ same. absurd (omega (arith, far, same)))
  | inr low ↦ let near : offset < 64 = ground (arith, low) in inl (near, omega (arith, near))
]

-- With 32 bits for a pixel, on a screen of at most 2^22 pixels, `vbe_set_pixel` selects a bank and
-- writes the colour's four bytes into it. They are where the pixel's bytes are in the video memory, from
-- 4 times its offset on, when the offset is below 64, and somewhere else for every pixel behind that.
pub vbe_set_pixel-misplaced :
    {S : Type 0} (adapter : Adapter S) (color x y width : ℕ) (s s1 s2 : S)
    → vbe_get_width adapter s ≡ (width, s1)
    → vbe_get_bpp adapter s1 ≡ (32, s2)
    → x + y * width < 2 ^ 22
    → (bank : ℕ) × (at : ℕ) × (vbe_set_pixel adapter color x y s
        ≡ done (adapter.store (vbe_bank_address + at) 4 color (vbe_set_bank adapter bank s2)))
      × (((x + y * width < 64) × (video_byte bank at ≡ 4 * (x + y * width)))
          ⊎ ((64 ≤ x + y * width) × (video_byte bank at ≢ 4 * (x + y * width))))
unfolding vbe_set_pixel place
vbe_set_pixel-misplaced adapter color x y width s s1 s2 wide deep small =
    let offset = x + y * width in
    let narrow : u16 (offset / 64) ≡ offset / 64 = omega (arith, small) in
    let int : leb (2 ^ 31) (x + y * width) ≡ false = ground (arith, small) in
    (
      offset / 64,
      4 * (offset - offset / 64 * 64),
      rw (vbe_set_pixel, wide, deep, place, narrow, int) refl,
      misplaced offset,
    )
