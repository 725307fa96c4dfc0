-- ===== src/Memory/Heap/First.antt =====
-- `heap_allocate` where the first free block is large enough (heap.c, lines 212-262), in any heap, the
-- kernel's among them.
use tomat_os_old.Common.{
  ℕ, suc, ◌+◌, ◌^◌, ◌<◌, ◌≡◌, ◌≢◌, refl, some, true, false, leb, ltb, arith, done, add32, sub32,
  Bool-cases, inl, inr, ap, ◌∙◌, ◌==◌,
}
use tomat_os_old.Memory.Heap.{
  Heap, header_size, get_next_block, find_block, divide_block, link_next, split_block, take_block,
  place, heap_allocate,
}

-- The first free block is marked as free, has more than `size` bytes and a header, and ends before the
-- end of the memory.
pub record Roomy (h : Heap) (size : ℕ) : Type 0 where
  pub is_free : (h.block h.first_free).allocated ≡ false
  pub some_bytes : 0 < size
  pub room : size + header_size < (h.block h.first_free).size
  pub extent : h.first_free + header_size + (h.block h.first_free).size < 2 ^ 32

finds :
    (k : ℕ) (h : Heap) (size : ℕ)
    → Roomy h size
    → find_block (suc k) h size h.first_free ≡ done (some h.first_free)
unfolding find_block
finds k h size r =
    let fits : leb size (h.block h.first_free).size ≡ true = ground (arith, r.room) in
    rw (find_block, r.is_free, fits) refl

divides :
    (h : Heap) (size : ℕ)
    → Roomy h size
    → let a = h.first_free in
      let new = add32 (add32 a header_size) size in
      ((divide_block h a size new (sub32 (sub32 (h.block a).size size) header_size)).block a).size
      ≡ size
unfolding divide_block
divides h size r = ground (arith, r.room, r.extent, r.some_bytes)

-- The block behind the new one is another one.
links :
    (h : Heap) (a new size : ℕ)
    → add32 (add32 new header_size) (h.block new).size ≢ a
    → ((link_next h new).block a) ≡ h.block a
unfolding link_next get_next_block
links h a new size other = elim (Bool-cases (get_next_block h new).1) [
  | inl valid ↦ ground (arith, valid, other)
  | inr none_here ↦ ground (arith, none_here, other)
]

divides_new :
    (h : Heap) (size : ℕ)
    → Roomy h size
    → let a = h.first_free in
      let new = add32 (add32 a header_size) size in
      let left = sub32 (sub32 (h.block a).size size) header_size in
      add32 (add32 new header_size) ((divide_block h a size new left).block new).size ≢ a
unfolding divide_block
divides_new h size r =
    let other : h.first_free ≢ add32 (add32 h.first_free header_size) size =
      omega (arith, r.room, r.extent, r.some_bytes) in
    λ same. absurd (ground (arith, same, other, r.room, r.extent, r.some_bytes))

splits :
    (h : Heap) (size : ℕ)
    → Roomy h size
    → ((split_block h h.first_free size).block h.first_free).size ≡ size
unfolding split_block
splits h size r =
    let a = h.first_free in
    let new = add32 (add32 a header_size) size in
    let left = sub32 (sub32 (h.block a).size size) header_size in
    ap (λ b. b.size) (links (divide_block h a size new left) a new size (divides_new h size r))
    ∙ divides h size r

takes :
    (h : Heap) (a size : ℕ)
    → (h.block a).size ≡ size
    → (((take_block h a).block a).allocated ≡ true) × (((take_block h a).block a).size ≡ size)
unfolding take_block
takes h a size is = ground (arith, is)

-- Then the first free block is split, and the part with `size` bytes is handed out.
pub heap_allocate-first :
    (k calls : ℕ) (h : Heap) (size : ℕ)
    → Roomy h size
    → (h' : Heap) × (heap_allocate (suc k) (suc calls) h size
        ≡ done (h.first_free + header_size, h'))
      × ((h'.block h.first_free).allocated ≡ true)
      × ((h'.block h.first_free).size ≡ size)
unfolding heap_allocate place
heap_allocate-first k calls h size r =
    let a = h.first_free in
    let g = take_block (split_block h a size) a in
    let found = finds k h size r in
    let splitting : ltb 0 (sub32 (sub32 (h.block a).size size) header_size) ≡ true =
      ground (arith, r.room, r.extent) in
    let ptr : add32 a header_size ≡ a + header_size = omega (arith, r.extent) in
    let some_size : (size == 0) ≡ false = ground (arith, r.some_bytes) in
    let (taken, sized) = takes (split_block h a size) a size (splits h size r) in
    (g, rw (heap_allocate, some_size, found, place, splitting, ptr) refl, taken, sized)
