-- ===== src/Klibc/Stdlib.antt =====
-- TomatKernel/klibc/stdlib.c: allocation on the kernel's heap `h`, with the bounds of the heap's loops.
pub mod Calloc
use tomat_os_old.Common.{ℕ, mul32, Run, done, ◌>>=◌}
use tomat_os_old.Memory.Heap.{Heap, heap_allocate, heap_reallocate, heap_free}
use tomat_os_old.Klibc.Strings.{memset}

module _ (fuel rounds : ℕ) where
  pub malloc : (size : ℕ) → Heap → Run (ℕ × Heap)
  malloc size h = heap_allocate fuel rounds h size

  -- The result is NULL.
  pub calloc : (num size : ℕ) → Heap → Run (ℕ × Heap)
  calloc num size h =
      heap_allocate fuel rounds h (mul32 num size)
      >>= (λ (data_at, h). done (0, record h { byte = memset data_at 0 (mul32 num size) h.byte }))

  pub realloc : (ptr newsize : ℕ) → Heap → Run (ℕ × Heap)
  realloc ptr newsize h = heap_reallocate fuel rounds h ptr newsize

  pub free : (ptr : ℕ) → Heap → Run Heap
  free ptr h = heap_free fuel h ptr
