-- ===== src/Memory/Bitmap/Allocate.antt =====
-- `paging_allocate_new_page`, paging.c lines 17-42: the lowest free page, and when it does not return.
use tomat_os_old.Common.{
  ℕ, zero, suc, ◌+◌, ◌*◌, ◌/◌, ◌%◌, ◌^◌, ◌≤◌, ◌<◌, ◌≡◌, ◌≢◌, inl, inr, refl, sym, true, false, none,
  some, ltb, ◌==◌, if◌then◌else◌, update, arith, Run, done, Bool-cases, ==→eq, lt_of_ltb, le_of_ltb,
}
use mathlib.Core.Path.{subst}
use tomat_os_old.Common.Bits.{test_bit, set_bit, set_bit-lt, test_bit_of_full, full_of_test_bits}
use tomat_os_old.Memory.Bitmap.{Bitmap, find_bit, skip_full, allocate_rounds, page_used}
use tomat_os_old.Memory.Bitmap.Inv.{IsValid, page_used-set}

-- The scan stops at the lowest clear bit, or at the end.
record Found (i n byte r : ℕ) : Type 0 where
  after : i ≤ r
  before : r ≤ i + n
  clear : r < i + n → test_bit byte r ≡ false
  lower : (j : ℕ) → i ≤ j → j < r → test_bit byte j ≡ true

find_bit-Found : (n i byte : ℕ) → Found i n byte (find_bit n i byte)
unfolding find_bit
find_bit-Found zero i byte = record {
  after = omega arith;
  before = omega arith;
  clear = λ h. absurd (omega arith);
  lower = λ j h k. absurd (omega arith);
}
find_bit-Found (suc n) i byte = elim (Bool-cases (test_bit byte i)) [
  | inl set ↦ rw set (step set (find_bit-Found n (i + 1) byte))
  | inr clear ↦ rw clear (record {
    after = omega arith;
    before = omega arith;
    clear = λ h. clear;
    lower = λ j h k. absurd (omega arith);
  })
]
  where
    step :
        test_bit byte i ≡ true
        → Found (i + 1) n byte (find_bit n (i + 1) byte)
        → Found i (suc n) byte (find_bit n (i + 1) byte)
    step set f = record {
      after = omega (arith, f.after);
      before = omega (arith, f.before);
      clear = λ h. f.clear (omega arith);
      lower = λ j h k. ground (arith, f.lower j, set);
    }

-- The loop over full bytes stops at the first byte that is not full, if there is one ahead.
pub record Skipped (bitmap : ℕ → ℕ) (f m : ℕ) (g : ℕ) : Type 0 where
  pub ahead : f ≤ g
  pub reached : g ≤ m
  pub room : bitmap g ≢ 255
  pub full : (i : ℕ) → f ≤ i → i < g → bitmap i ≡ 255

pub skip_full-Skipped :
    (k f m : ℕ) (bitmap : ℕ → ℕ)
    → f ≤ m
    → m < 2 ^ 16
    → m < f + k
    → bitmap m ≢ 255
    → (g : ℕ) × (skip_full k bitmap f ≡ some g) × Skipped bitmap f m g
unfolding skip_full
skip_full-Skipped zero f m bitmap le small fuel room = absurd (omega arith)
skip_full-Skipped (suc k) f m bitmap le small fuel room = elim (Bool-cases (bitmap f == 255)) [
  | inl full ↦
      let ne : f ≢ m = λ e. room (ground arith) in
      let (g, run, s) =
        skip_full-Skipped k ((f + 1) % 2 ^ 16) m bitmap (omega arith) small (omega arith) room in
      (
        g,
        rw full run,
        record {
          ahead = omega (arith, s.ahead);
          reached = s.reached;
          room = s.room;
          full = λ i h l. ground (arith, s.full i, full);
        },
      )
  | inr not_full ↦ (
    f,
    rw not_full,
    record {
      ahead = omega arith;
      reached = le;
      room = ground arith;
      full = λ i h l. absurd (omega arith);
    },
  )
]

-- With every byte full the loop does not end.
pub skip_full-none :
    (k f : ℕ) (bitmap : ℕ → ℕ)
    → ((i : ℕ) → i < 2 ^ 16 → bitmap i ≡ 255)
    → f < 2 ^ 16
    → skip_full k bitmap f ≡ none
unfolding skip_full
skip_full-none zero f bitmap full small = refl
skip_full-none (suc k) f bitmap full small =
    ground (arith, full f small, skip_full-none k ((f + 1) % 2 ^ 16) bitmap full (omega arith))

-- A free page shows that its byte is not full.
pub not_full_of_free : (s : Bitmap) (q : ℕ) → page_used s q ≡ false → s.page_bitmap (q / 8) ≢ 255
unfolding page_used
not_full_of_free s q free e = ground (arith, test_bit_of_full (q % 8) (omega arith))

pub first_free-le : {s : Bitmap} (q : ℕ) → IsValid s → page_used s q ≡ false → s.first_free ≤ q / 8
first_free-le {s} q v free = grind (arith, v.full, not_full_of_free s q free)

-- What a call that returns has done: `p` is the lowest free page, and the only one that changed.
pub record Allocated (s : Bitmap) (p : ℕ) (s' : Bitmap) : Type 0 where
  pub valid : IsValid s'
  pub was_free : page_used s p ≡ false
  pub lowest : (q : ℕ) → q < p → page_used s q ≡ true
  pub marked : (q : ℕ) → page_used s' q ≡ (if p == q then true else page_used s q)

abbrev pub Outcome : Bitmap → Run (ℕ × Bitmap) → Type 0
Outcome s r = (p : ℕ) × (s' : Bitmap) × (r ≡ done (p * 4096, s')) × Allocated s p s'

used_of_full : (s : Bitmap) (q : ℕ) → s.page_bitmap (q / 8) ≡ 255 → page_used s q ≡ true
unfolding page_used
used_of_full s q e = rw e (test_bit_of_full (q % 8) (omega arith))

module _ {s : Bitmap} (v : IsValid s) (i : ℕ) (lt : i < 8) where
  pub marked_bytes :
      (j : ℕ) → update s.page_bitmap s.first_free (set_bit (s.page_bitmap s.first_free) i) j < 256
  marked_bytes j =
      ground (arith, v.bytes j, set_bit-lt (s.page_bitmap s.first_free) i (v.bytes s.first_free) lt)

  abbrev pub marked : ℕ → Bitmap
  marked g = record {
    page_bitmap = update s.page_bitmap s.first_free (set_bit (s.page_bitmap s.first_free) i);
    first_free = g;
  }

  pub page_used-marked :
      (g q : ℕ)
      → page_used (marked g) q ≡ (if s.first_free * 8 + i == q then true else page_used s q)
  page_used-marked g q =
      let byte : (s.first_free * 8 + i) / 8 ≡ s.first_free = omega arith in
      let bit : (s.first_free * 8 + i) % 8 ≡ i = omega arith in
      let all = page_used-set s g (s.first_free * 8 + i) q v.bytes in rw (byte, bit) at all

-- The bit that the scan of the first byte finds.
abbrev pub here : Bitmap → ℕ
here s = find_bit 8 0 (s.page_bitmap s.first_free)

pub here-lt : {s : Bitmap} → IsValid s → s.page_bitmap s.first_free ≢ 255 → here s < 8
here-lt {s} v room =
    let f = find_bit-Found 8 0 (s.page_bitmap s.first_free) in
    elim (Bool-cases (ltb (here s) 8)) [
      | inl lt ↦ ground arith
      | inr ge ↦ absurd (
          room (
            full_of_test_bits (s.page_bitmap s.first_free) (v.bytes s.first_free)
              (λ j h. f.lower j (omega arith) (ground arith))))
    ]

pub here_free :
    {s : Bitmap} → IsValid s → here s < 8 → page_used s (s.first_free * 8 + here s) ≡ false
unfolding page_used
here_free {s} v lt =
    let byte : (s.first_free * 8 + here s) / 8 ≡ s.first_free = omega arith in
    let bit : (s.first_free * 8 + here s) % 8 ≡ here s = omega arith in
    rw (byte, bit) ((find_bit-Found 8 0 (s.page_bitmap s.first_free)).clear (omega arith))

here_lowest :
    {s : Bitmap}
    → IsValid s
    → here s < 8
    → (q : ℕ) → q < s.first_free * 8 + here s
    → page_used s q ≡ true
unfolding page_used
here_lowest {s} v lt q h = elim (Bool-cases (q / 8 == s.first_free)) [
  | inl same ↦
      let e : q / 8 ≡ s.first_free = ==→eq _ _ same in
      rw e (
        (find_bit-Found 8 0 (s.page_bitmap s.first_free)).lower (q % 8) (omega arith) (omega arith))
  | inr other ↦
      let below : q / 8 < s.first_free = ground arith in
      rw (v.full (q / 8) below) (test_bit_of_full (q % 8) (omega arith))
]

allocate_returns :
    (s : Bitmap) (k g : ℕ)
    → here s < 8
    → skip_full
        (2 ^ 16)
        (update s.page_bitmap s.first_free (set_bit (s.page_bitmap s.first_free) (here s)))
        s.first_free
      ≡ some g
    → allocate_rounds (suc k) s
      ≡ done (
        (s.first_free * 8 + here s) * 4096,
        record {
          page_bitmap =
              update s.page_bitmap s.first_free (set_bit (s.page_bitmap s.first_free) (here s));
          first_free = g;
        },
      )
unfolding allocate_rounds
allocate_returns s k g lt run = ground (arith, run)

marked_full :
    {s : Bitmap} (v : IsValid s) (i : ℕ) (lt : i < 8) (g m : ℕ)
    → Skipped (marked v i lt g).page_bitmap s.first_free m g
    → (j : ℕ) → j < g
    → (marked v i lt g).page_bitmap j ≡ 255
marked_full {s} v i lt g m sk j h = elim (Bool-cases (ltb j s.first_free)) [
  | inl below ↦
      let less : j < s.first_free = ground arith in
      let ne : (s.first_free == j) ≡ false = ground arith in rw ne (v.full j less)
  | inr above ↦ sk.full j (ground arith) h
]

-- A call that finds a free bit in byte `first_free`, with another free page left over.
pub allocate_here :
    {s : Bitmap} (k q : ℕ)
    → IsValid s
    → s.page_bitmap s.first_free ≢ 255
    → q < 2 ^ 19
    → page_used s q ≡ false
    → q ≢ s.first_free * 8 + here s
    → Outcome s (allocate_rounds (suc k) s)
allocate_here {s} k q v room small free ne =
    let lt = here-lt v room in
    let other : (s.first_free * 8 + here s == q) ≡ false = ground arith in
    let still : page_used (marked v (here s) lt s.first_free) q ≡ false =
      rw (page_used-marked v (here s) lt s.first_free q, other) free in
    let (g, run, sk) =
      skip_full-Skipped (2 ^ 16) s.first_free (q / 8)
        (marked v (here s) lt s.first_free).page_bitmap (first_free-le q v free) (omega arith)
        (omega arith) (not_full_of_free (marked v (here s) lt s.first_free) q still) in
    (
      s.first_free * 8 + here s,
      marked v (here s) lt g,
      allocate_returns s k g lt run,
      record {
        valid = record {
          bytes = marked_bytes v (here s) lt;
          small = omega (arith, sk.reached);
          full = marked_full v (here s) lt g (q / 8) sk;
        };
        was_free = here_free v lt;
        lowest = here_lowest v lt;
        marked = page_used-marked v (here s) lt g;
      },
    )

-- A call that finds byte `first_free` full only moves `first_free` on, and calls again.
pub here_full : (s : Bitmap) → s.page_bitmap s.first_free ≡ 255 → here s ≡ 8
here_full s full =
    let f = find_bit-Found 8 0 (s.page_bitmap s.first_free) in
    elim (Bool-cases (ltb (here s) 8)) [
      | inl lt ↦
          let less : here s < 8 = lt_of_ltb _ _ lt in
          let set : test_bit (s.page_bitmap s.first_free) (here s) ≡ true =
            subst (λ b. test_bit b (here s) ≡ true) (sym full) (test_bit_of_full (here s) less) in
          let clear = f.clear (omega arith) in cc
      | inr ge ↦ omega (arith, f.before, le_of_ltb _ _ ge)
    ]

pub allocate_again :
    (s : Bitmap) (k g : ℕ)
    → s.page_bitmap s.first_free ≡ 255
    → skip_full (2 ^ 16) s.page_bitmap s.first_free ≡ some g
    → allocate_rounds (suc k) s
      ≡ allocate_rounds k (record { page_bitmap = s.page_bitmap; first_free = g })
unfolding allocate_rounds
allocate_again s k g full run = ground (arith, here_full s full, run)
