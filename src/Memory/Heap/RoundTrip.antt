-- ===== src/Memory/Heap/RoundTrip.antt =====
-- `heap_allocate` and then `heap_free` of what it returned.
use tomat_os_old.Common.{
  ℕ, suc, ◌+◌, ◌<◌, ◌≡◌, refl, sym, ap, ◌∙◌, Bool, true, false, List, [], ◌∷◌, ◌++◌, arith, All,
  length, done, ◌>>=◌,
}
use mathlib.Core.Path.{subst}
use tomat_os_old.Memory.Heap.{Heap, header_size, heap_allocate, heap_free}
use tomat_os_old.Memory.Heap.Chain.{Cell, cell, end_of}
use tomat_os_old.Memory.Heap.Split.{left_of}
use tomat_os_old.Memory.Heap.Inv.{tidy, last_allocated, IsHeap, tidy-append, Unfit}
use tomat_os_old.Memory.Heap.Allocate.{heap_allocate-first_fit}
use tomat_os_old.Memory.Heap.Free.{glue, coalesce}
use tomat_os_old.Memory.Heap.Release.{heap_free-coalesce}

-- Behind an allocated block nothing is joined to the blocks before.
glue_taken :
    (b : Bool) (pre rest : List Cell)
    → tidy b pre ≡ true
    → last_allocated true pre ≡ true
    → glue pre rest ≡ pre ++ rest
glue_taken b [] rest neat last = refl
glue_taken b (x ∷ []) rest neat last = ground arith
glue_taken b (x ∷ y ∷ pre) rest neat last =
    ap (λ cs. x ∷ cs) (glue_taken x.allocated (y ∷ pre) rest (ground arith) last)

coalesce-after_split :
    (pre : List Cell) (c : Cell) (post : List Cell) (size : ℕ)
    → tidy true (pre ++ c ∷ post) ≡ true
    → c.allocated ≡ false
    → size + header_size < c.size
    → coalesce pre (cell true size) (cell false (left_of c size) ∷ post) ≡ pre ++ c ∷ post
coalesce-after_split pre c post size neat free fits =
    let parts = tidy-append true pre (c ∷ post) in
    let whole : size + (header_size + left_of c size) ≡ c.size = omega arith in
    let same : cell false (size + (header_size + left_of c size)) ≡ c = ground arith in
    ap (λ d. glue pre (d ∷ post)) same
    ∙ glue_taken true pre (c ∷ post) (ground arith) (ground arith)

-- On a well-formed heap, let the first free block with `size` bytes hold more than one header
-- besides. Then freeing what `heap_allocate` returned for `size` brings the same blocks back, on a
-- well-formed heap, and no page is mapped. The fuel is enough when it exceeds the number of blocks.
pub heap_free-heap_allocate :
    {h : Heap} (k calls : ℕ) (pre : List Cell) (c : Cell) (post : List Cell) (size : ℕ)
    → IsHeap h (pre ++ c ∷ post)
    → All (Unfit size) pre
    → c.allocated ≡ false
    → 0 < size
    → size + header_size < c.size
    → length (pre ++ c ∷ post) < suc (suc k)
    → (h' : Heap) × ((heap_allocate (suc (suc k)) (suc calls) h size >>= λ (ptr, g).
          heap_free (suc (suc k)) g ptr)
        ≡ done h')
      × IsHeap h' (pre ++ c ∷ post)
      × (h'.start ≡ h.start)
      × (h'.mapped ≡ h.mapped)
heap_free-heap_allocate {h} k calls pre c post size v unfit free pos fits fuel =
    let (g, run, w, start, mapped) =
      heap_allocate-first_fit (suc (suc k)) calls pre c post size v unfit free pos fits fuel in
    let (h', freed, u, start', mapped') =
      heap_free-coalesce k pre (cell true size) (cell false (left_of c size) ∷ post) w refl in
    let ptr : end_of g.start pre ≡ end_of h.start pre = ap (λ s. end_of s pre) start in
    (
      h',
      ap (λ m. m >>= λ (ptr, g). heap_free (suc (suc k)) g ptr) run
          ∙ ap (λ x. heap_free (suc (suc k)) g (x + header_size)) (sym ptr)
          ∙ freed,
      subst (λ cs. IsHeap h' cs) (coalesce-after_split pre c post size v.neat free fits) u,
      start' ∙ start,
      mapped' ∙ mapped,
    )
