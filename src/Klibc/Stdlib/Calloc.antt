-- ===== src/Klibc/Stdlib/Calloc.antt =====
-- What becomes of a block that `calloc` allocates (stdlib.c, lines 16-20).
use tomat_os_old.Common.{ℕ, suc, ◌+◌, ◌<◌, ◌≤◌, ◌≡◌, refl, true, mul32, done, arith}
use tomat_os_old.Memory.Heap.{Heap, header_size}
use tomat_os_old.Memory.Heap.First.{Roomy, heap_allocate-first}
use tomat_os_old.Klibc.Strings.{memset}
use tomat_os_old.Klibc.Strings.Copy.{memset_lem}
use tomat_os_old.Klibc.Stdlib.{calloc}

-- Where the first free block has more than `num * size` bytes and a header, in the kernel's heap as in
-- any, `calloc` returns NULL, and the block stays: it is marked as allocated, has that size, and is
-- filled with 0. The product, which is not 0, is the one of 32 bits.
pub calloc-lost :
    (fuel rounds num size : ℕ) (h : Heap)
    → Roomy h (mul32 num size)
    → (h' : Heap) × (calloc (suc fuel) (suc rounds) num size h ≡ done (0, h'))
      × ((h'.block h.first_free).allocated ≡ true)
      × ((h'.block h.first_free).size ≡ mul32 num size)
      × ((j : ℕ)
          → h.first_free + header_size ≤ j
          → j < h.first_free + header_size + mul32 num size
          → h'.byte j ≡ 0)
unfolding calloc
calloc-lost fuel rounds num size h roomy =
    let (g, run, taken, sized) = heap_allocate-first fuel rounds h (mul32 num size) roomy in
    let n = mul32 num size in
    let ptr = h.first_free + header_size in
    (
      record g { byte = memset ptr 0 n g.byte },
      rw run refl,
      taken,
      sized,
      λ j low high. ground (arith, low, high, memset_lem ptr 0 n g.byte j),
    )
