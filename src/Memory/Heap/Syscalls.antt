-- ===== src/Memory/Heap/Syscalls.antt =====
-- TomatKernel/core/memory/heap.c, lines 100-150: the system calls of the heap. `running` is the heap of
-- the running process, `none` without one; a call returns the registers and the heap.
use tomat_os_old.Common.{
  ℕ, suc, ◌+◌, ◌<◌, ◌≡◌, refl, sym, ap, ◌∙◌, true, false, Option, none, some, List, ◌∷◌, ◌++◌, All,
  length, if◌then◌else◌, sub32, Run, done, panic, ◌>>=◌, arith,
}
use tomat_os_old.Kernel.{Registers}
use tomat_os_old.Memory.Heap.{
  Heap, header_size, get_block, heap_allocate, heap_reallocate, heap_free,
}
use tomat_os_old.Memory.Heap.Chain.{Cell, cell, end_of, le-end_of}
use tomat_os_old.Memory.Heap.Walk.{At, At-header, is_valid-At}
use tomat_os_old.Memory.Heap.Split.{left_of}
use tomat_os_old.Memory.Heap.Inv.{IsHeap, Unfit}
use tomat_os_old.Memory.Heap.Allocate.{At-middle, after_split, heap_allocate-first_fit}

abbrev pub Result : Type 0
Result = Run (Registers × Heap)

unfoldable pub syscall_allocate : (fuel calls : ℕ) → Option Heap → Registers → Result
syscall_allocate k calls none regs = panic
syscall_allocate k calls (some h) regs =
    heap_allocate k calls h regs.ebx >>= (λ (ptr, h). done (record regs { eax = ptr }, h))

unfoldable pub syscall_reallocate : (fuel calls : ℕ) → Option Heap → Registers → Result
syscall_reallocate k calls none regs = panic
syscall_reallocate k calls (some h) regs =
    heap_reallocate k calls h regs.ebx regs.ecx
    >>= (λ (ptr, h). done (record regs { eax = ptr }, h))

unfoldable pub syscall_free : (fuel : ℕ) → Option Heap → Registers → Result
syscall_free k none regs = panic
syscall_free k (some h) regs = heap_free k h regs.ebx >>= (λ h. done (regs, h))

unfoldable pub syscall_get_used_size : Option Heap → Registers → Result
syscall_get_used_size none regs = panic
syscall_get_used_size (some h) regs = done (record regs { eax = h.used_size }, h)

unfoldable pub syscall_get_ptr_size : Option Heap → Registers → Result
syscall_get_ptr_size none regs = panic
syscall_get_ptr_size (some h) regs =
    let (block, valid) = get_block h regs.ebx in
    done (record regs { eax = if valid then (h.block block).size else 0 }, h)

-- The system calls of `heap_register_syscalls`; `fuel` and `calls` bound the loops.
pub data HeapCall : Type 0 where
  allocate reallocate free get_ptr_size get_used_size : HeapCall

-- The handlers that `heap_register_syscalls` enters.
pub heap_syscall : (fuel calls : ℕ) → HeapCall → Option Heap → Registers → Result
heap_syscall k calls allocate heap regs = syscall_allocate k calls heap regs
heap_syscall k calls reallocate heap regs = syscall_reallocate k calls heap regs
heap_syscall k calls free heap regs = syscall_free k heap regs
heap_syscall k calls get_ptr_size heap regs = syscall_get_ptr_size heap regs
heap_syscall k calls get_used_size heap regs = syscall_get_used_size heap regs

-- The payload behind a block of a heap.
get_block-At :
    {h : Heap} {p a : ℕ} (c : Cell) (post : List Cell)
    → At h p a (c ∷ post)
    → get_block h (a + header_size) ≡ (a, true)
unfolding get_block
get_block-At {a = a} c post w =
    let back : sub32 (a + header_size) header_size ≡ a =
      omega (arith, w.extent, w.small, le-end_of (a + header_size + c.size) post) in
    rw (back, is_valid-At (c ∷ post) w) refl

ptr_size-At :
    {h : Heap} {p a : ℕ} (c : Cell) (post : List Cell) (regs : Registers)
    → At h p a (c ∷ post)
    → regs.ebx ≡ a + header_size
    → syscall_get_ptr_size (some h) regs ≡ done (record regs { eax = c.size }, h)
unfolding syscall_get_ptr_size
ptr_size-At {h} c post regs w ptr = rw (ptr, get_block-At c post w, At-header w) refl

-- The size that `get_ptr_size` reads for a pointer.
abbrev pub size_at : Heap → (ptr : ℕ) → ℕ
size_at h ptr = let (block, valid) = get_block h ptr in if valid then (h.block block).size else 0

size_at-At :
    {h : Heap} {p a : ℕ} (c : Cell) (post : List Cell)
    → At h p a (c ∷ post)
    → size_at h (a + header_size) ≡ c.size
size_at-At {h} c post w = rw (get_block-At c post w, At-header w) refl

-- A block that is split off has the size that was asked for.
pub heap_allocate-size_at :
    {h : Heap} (k calls : ℕ) (pre : List Cell) (c : Cell) (post : List Cell) (size : ℕ)
    → IsHeap h (pre ++ c ∷ post)
    → All (Unfit size) pre
    → c.allocated ≡ false
    → 0 < size
    → size + header_size < c.size
    → length (pre ++ c ∷ post) < k
    → (out : ℕ × Heap) × (heap_allocate k (suc calls) h size ≡ done out)
      × (size_at out.1 out.0 ≡ size)
      × IsHeap out.1 (after_split pre c post size)
heap_allocate-size_at {h} k calls pre c post size v unfit is_free pos fits fuel =
    let (g, run, w, start, mapped) =
      heap_allocate-first_fit k calls pre c post size v unfit is_free pos fits fuel in
    let here = At-middle pre (cell true size) (cell false (left_of c size) ∷ post) w in
    (
      (end_of h.start pre + header_size, g),
      run,
      ap (λ s. size_at g (end_of s pre + header_size)) (sym start)
          ∙ size_at-At (cell true size) (cell false (left_of c size) ∷ post) here,
      w,
    )

-- On a well-formed heap of a running process let the first free block with `ebx` bytes hold more than
-- one header besides, and let the fuel exceed the number of blocks. Then the call of `allocate`
-- returns, and the call of `get_ptr_size` for the pointer it has answered gives `ebx` and changes
-- nothing; the heap is well formed.
syscall_get_ptr_size-syscall_allocate :
    {h : Heap} (k calls : ℕ) (pre : List Cell) (c : Cell) (post : List Cell) (regs : Registers)
    → IsHeap h (pre ++ c ∷ post)
    → All (Unfit regs.ebx) pre
    → c.allocated ≡ false
    → 0 < regs.ebx
    → regs.ebx + header_size < c.size
    → length (pre ++ c ∷ post) < k
    → (out : Registers × Heap) × (syscall_allocate k (suc calls) (some h) regs ≡ done out)
      × (syscall_get_ptr_size (some out.1) (record out.0 { ebx = out.0.eax })
          ≡ done (record out.0 { ebx = out.0.eax; eax = regs.ebx }, out.1))
      × IsHeap out.1 (after_split pre c post regs.ebx)
unfolding syscall_allocate
syscall_get_ptr_size-syscall_allocate {h} k calls pre c post regs v unfit is_free pos fits fuel =
    let (g, run, w, start, mapped) =
      heap_allocate-first_fit k calls pre c post regs.ebx v unfit is_free pos fits fuel in
    let ptr = end_of h.start pre + header_size in
    let here = At-middle pre (cell true regs.ebx) (cell false (left_of c regs.ebx) ∷ post) w in
    (
      (record regs { eax = ptr }, g),
      rw run refl,
      ptr_size-At (cell true regs.ebx) (cell false (left_of c regs.ebx) ∷ post)
          (record regs { ebx = ptr; eax = ptr }) here
          (ap (λ s. end_of s pre + header_size) (sym start)),
      w,
    )
