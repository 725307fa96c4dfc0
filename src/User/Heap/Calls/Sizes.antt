-- ===== src/User/Heap/Calls/Sizes.antt =====
-- The size of a block, from `tomato_heap_allocate` to `tomato_heap_get_ptr_size`.
use tomat_os_old.Common.{
  ℕ, suc, ◌+◌, ◌<◌, ◌≡◌, ap, ◌∙◌, false, some, List, ◌∷◌, ◌++◌, All, length, done, ◌>>=◌,
}
use tomat_os_old.Kernel.{Registers}
use tomat_os_old.Drivers.Ps2.{Ports}
use tomat_os_old.Boot.Isr.{Handlers}
use tomat_os_old.Boot.Idt.{irq_ack}
use tomat_os_old.Memory.Heap.{Heap, header_size}
use tomat_os_old.Memory.Heap.Chain.{Cell}
use tomat_os_old.Memory.Heap.Inv.{IsHeap, Unfit}
use tomat_os_old.Memory.Heap.Allocate.{after_split}
use tomat_os_old.Memory.Heap.Registered.{HeapMachine}
use tomat_os_old.Memory.Heap.Syscalls.{heap_allocate-size_at}
use tomat_os_old.User.Heap.{tomato_heap_allocate, tomato_heap_get_ptr_size}
use tomat_os_old.User.Heap.Calls.{
  allocate, get_ptr_size, heap_meaning, on_block, heap_library, heap_library_lem, heap_kernel,
  acknowledge,
}

module _ {D : Type 0} (ports : Ports D) (fuel rounds : ℕ)
    (syscalls handlers : Handlers (HeapMachine D)) where
  -- A program with a well-formed heap, whose first free block with `size` bytes holds more than one
  -- header besides, asks for `size` bytes, and then for the size of the pointer that it gets: both
  -- calls return, the answer is `size`, the second call changes nothing but that the
  -- interrupt is acknowledged, and the heap is well formed. The fuel exceeds the number of blocks.
  pub tomato_heap_get_ptr_size-tomato_heap_allocate :
      {h : Heap} (pre : List Cell) (c : Cell) (post : List Cell) (size : ℕ) (d : D)
      (regs later : Registers)
      → IsHeap h (pre ++ c ∷ post)
      → All (Unfit size) pre
      → c.allocated ≡ false
      → 0 < size
      → size + header_size < c.size
      → length (pre ++ c ∷ post) < fuel
      → (let kernel = heap_kernel ports fuel (suc rounds) syscalls handlers in
          (ptr : ℕ) × (g : Heap) × (d' : D) × (tomato_heap_allocate kernel size regs
              (record { heap = some h; devices = d })
            ≡ done (ptr, record { heap = some g; devices = d' }))
          × (tomato_heap_get_ptr_size kernel ptr later (record { heap = some g; devices = d' })
              ≡ done (size, acknowledge ports (record { heap = some g; devices = d' })))
          × IsHeap g (after_split pre c post size))
  unfolding heap_library heap_meaning on_block irq_ack
  tomato_heap_get_ptr_size-tomato_heap_allocate {h} pre c post size d regs later v unfit is_free pos
        fits room =
      let ((ptr, g), run, same, w) =
        heap_allocate-size_at fuel rounds pre c post size v unfit is_free pos fits room in
      let m : HeapMachine D = record { heap = some h; devices = d } in
      let m' = acknowledge ports (record m { heap = some g }) in
      (
        ptr,
        g,
        m'.devices,
        heap_library_lem ports fuel (suc rounds) syscalls handlers (allocate size) regs m
            ∙ ap
                (λ r.
                  r
                  >>= (λ (value, h). done (value, acknowledge ports (record m { heap = some h }))))
                run,
        heap_library_lem ports fuel (suc rounds) syscalls handlers (get_ptr_size ptr) later m'
            ∙ ap (λ n. done (n, acknowledge ports m')) same,
        w,
      )
