-- ===== src/Memory/Bitmap/Returns.antt =====
-- When `paging_allocate_new_page` returns, and what it has done then.
use tomat_os_old.Common.{
  ℕ, suc, ◌+◌, ◌*◌, ◌/◌, ◌%◌, ◌^◌, ◌<◌, ◌≡◌, ◌≢◌, ◌∙◌, inl, inr, true, false, ◌==◌, arith, done,
  hang, Bool-cases, ==→eq,
}
use tomat_os_old.Common.Bits.{full_of_test_bits}
use tomat_os_old.Memory.Bitmap.{Bitmap, allocate_rounds, allocate_new_page, page_used}
use tomat_os_old.Memory.Bitmap.Inv.{IsValid}
use tomat_os_old.Memory.Bitmap.Allocate.{
  Allocated, Outcome, Skipped, here, here-lt, here_free, here_full, marked, marked_bytes,
  page_used-marked, skip_full-Skipped, skip_full-none, not_full_of_free, first_free-le,
  allocate_here, allocate_again,
}

-- Of two free pages at least one is another than `p`.
other_free :
    (s : Bitmap) (m n p : ℕ)
    → m < n
    → n < 2 ^ 19
    → page_used s m ≡ false
    → page_used s n ≡ false
    → (q : ℕ) × (q < 2 ^ 19) × (page_used s q ≡ false) × (q ≢ p)
other_free s m n p lt small fm fn = elim (Bool-cases (m == p)) [
  | inl same ↦ (n, small, fn, omega (arith, ==→eq m p same))
  | inr other ↦ (m, omega arith, fm, ground arith)
]

allocate_first :
    {s : Bitmap} (k m n : ℕ)
    → IsValid s
    → s.page_bitmap s.first_free ≢ 255
    → m < n
    → n < 2 ^ 19
    → page_used s m ≡ false
    → page_used s n ≡ false
    → Outcome s (allocate_rounds (suc k) s)
allocate_first {s} k m n v room lt small fm fn =
    let (q, lt_q, fq, ne) = other_free s m n (s.first_free * 8 + here s) lt small fm fn in
    allocate_here k q v room lt_q fq ne

abbrev moved : Bitmap → ℕ → Bitmap
moved s g = record s { first_free = g }

moved-IsValid :
    {s : Bitmap} (g m : ℕ)
    → IsValid s
    → m < 2 ^ 16
    → Skipped s.page_bitmap s.first_free m g
    → IsValid (moved s g)
moved-IsValid {s} g m v small sk = record {
  bytes = v.bytes;
  small = omega (arith, sk.reached);
  full = λ i h. ground (arith, v.full i, sk.full i);
}

Allocated-moved :
    (s : Bitmap) (g p : ℕ) {s' : Bitmap} → Allocated (moved s g) p s' → Allocated s p s'
unfolding page_used
Allocated-moved s g p a = record {
  valid = a.valid;
  was_free = a.was_free;
  lowest = a.lowest;
  marked = a.marked;
}

free-moved : (s : Bitmap) (g q : ℕ) → page_used s q ≡ false → page_used (moved s g) q ≡ false
unfolding page_used
free-moved s g q h = h

-- On a valid bitmap with two free pages below 2^19 (the pages that a uint16_t index reaches) the call returns the
-- address of the lowest free page, marks that page and no other, and keeps the invariant.
pub allocate-lowest :
    {s : Bitmap} (m n : ℕ)
    → IsValid s
    → m < n
    → n < 2 ^ 19
    → page_used s m ≡ false
    → page_used s n ≡ false
    → (p : ℕ) × (s' : Bitmap) × (allocate_new_page s ≡ done (p * 4096, s')) × Allocated s p s'
unfolding allocate_new_page
allocate-lowest {s} m n v lt small fm fn = elim (Bool-cases (s.page_bitmap s.first_free == 255)) [
  | inl full ↦
      let e : s.page_bitmap s.first_free ≡ 255 = ==→eq _ _ full in
      let (g, run, sk) =
        skip_full-Skipped (2 ^ 16) s.first_free (m / 8) s.page_bitmap (first_free-le m v fm)
          (omega arith) (omega arith) (not_full_of_free s m fm) in
      let (p, s', again, a) =
        allocate_first 0 m n (moved-IsValid g (m / 8) v (omega arith) sk) sk.room lt small
          (free-moved s g m fm) (free-moved s g n fn) in
      (p, s', allocate_again s 1 g e run ∙ again, Allocated-moved s g p a)
  | inr room ↦ allocate_first 1 m n v (ground arith) lt small fm fn
]

-- Every page below 2^19 but `m` is taken.
abbrev pub OnlyFree : Bitmap → ℕ → Type 0
OnlyFree s m = (q : ℕ) → q < 2 ^ 19 → q ≢ m → page_used s q ≡ true

full_byte :
    (s : Bitmap) (i : ℕ)
    → s.page_bitmap i < 256
    → ((j : ℕ) → j < 8 → page_used s (i * 8 + j) ≡ true)
    → s.page_bitmap i ≡ 255
unfolding page_used
full_byte s i byte used = full_of_test_bits (s.page_bitmap i) byte λ j h.
    let e : (i * 8 + j) / 8 ≡ i = omega arith in
    let d : (i * 8 + j) % 8 ≡ j = omega arith in let u = used j h in rw (e, d) at u

hang_here :
    {s : Bitmap} (k m : ℕ)
    → IsValid s
    → s.page_bitmap s.first_free ≢ 255
    → OnlyFree s m
    → allocate_rounds (suc k) s ≡ hang
unfolding allocate_rounds
hang_here {s} k m v room only =
    let lt = here-lt v room in
    let is_m : s.first_free * 8 + here s ≡ m =
      ground (arith, only (s.first_free * 8 + here s), here_free v lt, v.small) in
    let full = λ (i : ℕ) (h : i < 2 ^ 16).
      full_byte (marked v (here s) lt 0) i (marked_bytes v (here s) lt i)
        λ j l. ground (arith, page_used-marked v (here s) lt 0 (i * 8 + j), only (i * 8 + j)) in
    let run = skip_full-none (2 ^ 16) s.first_free _ full v.small in ground (arith, run)

hang_full :
    {s : Bitmap} (k : ℕ)
    → IsValid s
    → s.page_bitmap s.first_free ≡ 255
    → ((q : ℕ) → q < 2 ^ 19 → page_used s q ≡ true)
    → allocate_rounds (suc k) s ≡ hang
unfolding allocate_rounds
hang_full {s} k v full used =
    let all =
      λ (i : ℕ) (h : i < 2 ^ 16). full_byte s i (v.bytes i) λ j l. used (i * 8 + j) (omega arith) in
    let run = skip_full-none (2 ^ 16) s.first_free s.page_bitmap all v.small in
    ground (arith, run, here_full s full)

OnlyFree-moved : (s : Bitmap) (g m : ℕ) → OnlyFree s m → OnlyFree (moved s g) m
unfolding page_used
OnlyFree-moved s g m only = only

-- On a valid bitmap with at most one free page below 2^19 the call does not return, though a page may be free: the
-- loop that moves `first_free` on runs before the page is handed out.
pub allocate-hang :
    {s : Bitmap} (m : ℕ) → IsValid s → m < 2 ^ 19 → OnlyFree s m → allocate_new_page s ≡ hang
unfolding allocate_new_page
allocate-hang {s} m v small only = elim (Bool-cases (s.page_bitmap s.first_free == 255)) [
  | inr room ↦ hang_here 1 m v (ground arith) only
  | inl full ↦
      let e : s.page_bitmap s.first_free ≡ 255 = ==→eq _ _ full in
      elim (Bool-cases (page_used s m)) [
        | inl used ↦ hang_full 1 v e λ q h. ground (arith, only q h)
        | inr free ↦
            let (g, run, sk) =
              skip_full-Skipped (2 ^ 16) s.first_free (m / 8) s.page_bitmap (first_free-le m v free)
                (omega arith) (omega arith) (not_full_of_free s m free) in
            allocate_again s 1 g e run
            ∙ hang_here 0 m (moved-IsValid g (m / 8) v (omega arith) sk) sk.room
                (OnlyFree-moved s g m only)
      ]
]
