-- ===== src/Memory/Heap/Tests.antt =====
-- Runs of the heap.
use tomat_os_old.Common.{
  Run, none, some, ◌<◌, ◌≤◌, ℕ, ◌+◌, arith, ◌≡◌, refl, true, false, [], ◌∷◌, done, panic, ◌>>=◌,
}
use tomat_os_old.Kernel.{Registers}
use tomat_os_old.Klibc.Stdlib.{calloc}
use tomat_os_old.Klibc.Stdlib.Calloc.{calloc-lost}
use tomat_os_old.Memory.Heap.First.{Roomy}
use tomat_os_old.Drivers.Ps2.{Ports}
use tomat_os_old.Boot.Isr.{Handlers}
use tomat_os_old.Memory.Heap.Registered.{HeapMachine}
use tomat_os_old.User.Heap.{tomato_heap_allocate, tomato_heap_get_ptr_size}
use tomat_os_old.User.Heap.Calls.{heap_kernel, acknowledge}
use tomat_os_old.User.Heap.Calls.Sizes.{tomato_heap_get_ptr_size-tomato_heap_allocate}
use tomat_os_old.Memory.Heap.Chain.{cell, end_of}
use tomat_os_old.Memory.Heap.Inv.{IsHeap, heap_create-IsHeap}
use tomat_os_old.Memory.Heap.Allocate.{after_split, heap_allocate-first_fit}
use tomat_os_old.Memory.Heap.Free.{coalesce}
use tomat_os_old.Memory.Heap.Release.{heap_free-coalesce}
use tomat_os_old.Memory.Heap.RoundTrip.{heap_free-heap_allocate}
use tomat_os_old.Memory.Heap.Edge.{heap_allocate-panic}
use tomat_os_old.Memory.Heap.{
  header_size, Heap, heap_create, heap_allocate, heap_free, get_next_free_block, get_next_block,
  get_block, is_valid, split_block, divide_block, link_next, take_block, place, find_block, expand,
  expand_loop, merge_empty_blocks, merge_next, relink, absorb_next,
}

abbrev raw : Heap
raw = record {
  has_pd = true;
  size = 0;
  used_size = 0;
  top_block = 0;
  start = 0;
  first_free = 0;
  block = λ _. record { allocated = false; before = 0; size = 0; magic = 0 };
  byte = λ _. 0;
  mapped = [];
}

two_blocks : Run (ℕ × ℕ × ℕ × ℕ × ℕ)
unfolding heap_create heap_allocate heap_free get_next_free_block get_next_block get_block is_valid
    split_block divide_block link_next take_block place find_block expand expand_loop
    merge_empty_blocks merge_next relink absorb_next
two_blocks = heap_allocate 10 2 (heap_create raw 4096) 100 >>= λ (p, h).
    heap_allocate 10 2 h 200 >>= λ (q, h).
    heap_free 10 h p >>= λ h. done (p, q, h.first_free, h.used_size, h.top_block)

two_blocks_lem : two_blocks ≡ done (4112, 4228, 4096, 248, 4428)
unfolding two_blocks
two_blocks_lem = refl

-- An exact fit panics.
exact_fit : heap_allocate 10 2 (heap_create raw 4096) 4064 ≡ panic
unfolding heap_create heap_allocate heap_free get_next_free_block get_next_block get_block is_valid
    split_block divide_block link_next take_block place find_block expand expand_loop
    merge_empty_blocks merge_next relink absorb_next
exact_fit = refl

raw-IsHeap : IsHeap (heap_create raw 4096) (cell false 4080 ∷ [])
raw-IsHeap = (heap_create-IsHeap raw 4096 refl (omega arith) (omega arith)).0

heap_allocate_example :
    (h' : Heap) × (heap_allocate 2 1 (heap_create raw 4096) 100
      ≡ done (end_of (heap_create raw 4096).start [] + header_size, h'))
    × IsHeap h' (after_split [] (cell false 4080) [] 100)
    × (h'.start ≡ (heap_create raw 4096).start)
    × (h'.mapped ≡ (heap_create raw 4096).mapped)
heap_allocate_example =
    heap_allocate-first_fit 2 0 [] (cell false 4080) [] 100 raw-IsHeap (record {}) refl
      (omega arith) (omega arith) (omega arith)

round_trip_example :
    (h' : Heap) × ((heap_allocate 2 1 (heap_create raw 4096) 100 >>= λ (ptr, g). heap_free 2 g ptr)
      ≡ done h')
    × IsHeap h' (cell false 4080 ∷ [])
    × (h'.start ≡ (heap_create raw 4096).start)
    × (h'.mapped ≡ (heap_create raw 4096).mapped)
round_trip_example =
    heap_free-heap_allocate 0 0 [] (cell false 4080) [] 100 raw-IsHeap (record {}) refl
      (omega arith) (omega arith) (omega arith)

-- The heap with one block of 100 bytes taken.
abbrev used : Heap
used =
    (heap_allocate-first_fit 2 0 [] (cell false 4080) [] 100 raw-IsHeap (record {}) refl
      (omega arith) (omega arith) (omega arith)).0

used-IsHeap : IsHeap used (cell true 100 ∷ cell false 3964 ∷ [])
used-IsHeap =
    (heap_allocate-first_fit 2 0 [] (cell false 4080) [] 100 raw-IsHeap (record {}) refl
      (omega arith) (omega arith) (omega arith)).2

heap_free_example :
    (h' : Heap) × (heap_free 2 used (end_of used.start [] + header_size) ≡ done h')
    × IsHeap h' (coalesce [] (cell true 100) (cell false 3964 ∷ []))
    × (h'.start ≡ used.start)
    × (h'.mapped ≡ used.mapped)
heap_free_example = heap_free-coalesce 0 [] (cell true 100) (cell false 3964 ∷ []) used-IsHeap refl

panic_example : heap_allocate 3 1 used 3948 ≡ panic
panic_example =
    heap_allocate-panic 3 0 (cell true 100 ∷ []) (cell false 3964) [] 3948 used-IsHeap
      (refl, record {}) refl refl (omega arith) refl (omega arith) (omega arith)

-- The devices count the writes to ports.
abbrev ports : Ports ℕ
ports = record { inb = λ port s. (0, s); outb = λ port value s. s + 1 }

abbrev regs : Registers
regs = record {
  ds = 0;
  edi = 0;
  esi = 0;
  ebp = 0;
  esp = 0;
  ebx = 0;
  edx = 0;
  ecx = 0;
  eax = 0;
  int_no = 0;
  code = 0;
  eip = 0;
  cs = 0;
  eflags = 0;
  useresp = 0;
  ss = 0;
}

abbrev no_handlers : Handlers (HeapMachine ℕ)
no_handlers i = none

ptr_size_example :
    (let kernel = heap_kernel ports 2 1 no_handlers no_handlers in
      (ptr : ℕ) × (g : Heap) × (d' : ℕ) × (tomato_heap_allocate kernel 100 regs
          (record { heap = some (heap_create raw 4096); devices = 0 })
        ≡ done (ptr, record { heap = some g; devices = d' }))
      × (tomato_heap_get_ptr_size kernel ptr regs (record { heap = some g; devices = d' })
          ≡ done (100, acknowledge ports (record { heap = some g; devices = d' })))
      × IsHeap g (after_split [] (cell false 4080) [] 100))
ptr_size_example =
    tomato_heap_get_ptr_size-tomato_heap_allocate ports 2 0 no_handlers no_handlers []
      (cell false 4080) [] 100 0 regs regs raw-IsHeap tt refl (omega arith) (omega arith)
      (omega arith)

-- The kernel's heap of 45 MB, as it is made.
abbrev kernel_heap : Heap
kernel_heap = heap_create (record raw { has_pd = false }) 0x400000

kernel_heap-Roomy : Roomy kernel_heap 100
unfolding heap_create
kernel_heap-Roomy = record {
  is_free = refl;
  some_bytes = omega arith;
  room = omega arith;
  extent = omega arith;
}

calloc_example :
    (h' : Heap) × (calloc 1 1 10 10 kernel_heap ≡ done (0, h'))
    × ((h'.block kernel_heap.first_free).allocated ≡ true)
    × ((h'.block kernel_heap.first_free).size ≡ 100)
    × ((j : ℕ)
        → kernel_heap.first_free + header_size ≤ j
        → j < kernel_heap.first_free + header_size + 100
        → h'.byte j ≡ 0)
calloc_example = calloc-lost 0 0 10 10 kernel_heap kernel_heap-Roomy
