-- ===== src/User/Heap/Calls.antt =====
-- A program's calls of its heap, from the library through the interrupt 0x80 to the heap.
pub mod Sizes
use tomat_os_old.Common.{
  ℕ, ◌≡◌, refl, ◌∙◌, Option, none, some, if◌then◌else◌, Run, done, panic, fault, hang, ◌>>=◌, arith,
}
use tomat_os_old.Kernel.{Registers}
use tomat_os_old.Drivers.Ps2.{Ports}
use tomat_os_old.Boot.Idt.{irq_ack, irq_syscall}
use tomat_os_old.Boot.Isr.{
  RegsHandler, Handlers, syscall_register, syscall_init, kernel_irq_handler,
}
use tomat_os_old.Boot.Isr.Dispatch.{acknowledged}
use tomat_os_old.Memory.Heap.{Heap, get_block, heap_allocate, heap_reallocate, heap_free}
use tomat_os_old.Memory.Heap.Registered.{HeapMachine, heap_ports, heap_register_syscalls}
use tomat_os_old.Memory.Heap.Syscalls.{
  syscall_allocate, syscall_reallocate, syscall_free, syscall_get_ptr_size, syscall_get_used_size,
}
use tomat_os_old.User.Kinds.{
  number, syscall_heap_allocate, syscall_heap_reallocate, syscall_heap_free,
  syscall_heap_get_ptr_size, syscall_heap_get_used_size,
}
use tomat_os_old.User.Trap.{void, word, void_of, word_of, served_by}
use tomat_os_old.User.Heap.{
  tomato_heap_allocate, tomato_heap_reallocate, tomato_heap_free, tomato_heap_get_ptr_size,
  tomato_heap_get_used_size,
}

-- The functions of heap.h, with their arguments.
pub data Call : Type 0 where
  allocate : (size : ℕ) → Call
  reallocate : (ptr size : ℕ) → Call
  free get_ptr_size : (ptr : ℕ) → Call
  get_used_size : Call

-- The library's function; 0 stands for no result.
module _ {S : Type 0} (trap : RegsHandler S) where
  pub heap_library : Call → Registers → S → Run (ℕ × S)
  heap_library (allocate size) regs s = tomato_heap_allocate trap size regs s
  heap_library (reallocate ptr size) regs s = tomato_heap_reallocate trap ptr size regs s
  heap_library (free ptr) regs s = tomato_heap_free trap ptr regs s >>= (λ s. done (0, s))
  heap_library (get_ptr_size ptr) regs s = tomato_heap_get_ptr_size trap ptr regs s
  heap_library get_used_size regs s = tomato_heap_get_used_size trap regs s

-- What a call is for, on the heap of the running process.
module _ (fuel rounds : ℕ) where
  pub on_block : Call → Heap → Run (ℕ × Heap)
  on_block (allocate size) h = heap_allocate fuel rounds h size
  on_block (reallocate ptr size) h = heap_reallocate fuel rounds h ptr size
  on_block (free ptr) h = heap_free fuel h ptr >>= (λ h. done (0, h))
  on_block (get_ptr_size ptr) h =
      let (block, valid) = get_block h ptr in done (if valid then (h.block block).size else 0, h)
  on_block get_used_size h = done (h.used_size, h)

  pub heap_meaning : Call → Option Heap → Run (ℕ × Heap)
  unfolding on_block
  heap_meaning call none = panic
  heap_meaning call (some h) = on_block call h

module _ {D : Type 0} (ports : Ports D) where
  abbrev pub acknowledge : HeapMachine D → HeapMachine D
  acknowledge m = irq_ack (heap_ports ports) irq_syscall m

  answered :
      (r : Run (ℕ × Heap)) (regs : Registers) (m : HeapMachine D)
      → word (
          acknowledged (heap_ports ports) (
            r
            >>= (λ (ptr, h). done (record regs { eax = ptr; int_no = irq_syscall }, h))
            >>= (λ (regs, h). done (regs, record m { heap = some h }))))
        ≡ (r >>= (λ (value, h). done (value, acknowledge (record m { heap = some h }))))
  answered (done (v, h)) regs m = refl
  answered panic regs m = refl
  answered fault regs m = refl
  answered hang regs m = refl

  freed :
      (r : Run Heap) (regs : Registers) (n : ℕ) (m : HeapMachine D)
      → void (
          acknowledged (heap_ports ports) (
            r
            >>= (λ h. done (record regs { eax = n; int_no = irq_syscall }, h))
            >>= (λ (regs, h). done (regs, record m { heap = some h }))))
        ≡ (r
            >>= (λ h. done (0, h))
            >>= (λ (value, h). done (value, acknowledge (record m { heap = some h }))))
  freed (done h) regs n m = refl
  freed panic regs n m = refl
  freed fault regs n m = refl
  freed hang regs n m = refl

module _ {D : Type 0} (ports : Ports D) (fuel rounds : ℕ)
    (syscalls handlers : Handlers (HeapMachine D)) where
  abbrev pub heap_kernel : RegsHandler (HeapMachine D)
  heap_kernel =
      kernel_irq_handler (heap_ports ports)
        (syscall_init (heap_register_syscalls fuel rounds syscalls) handlers)

  called :
      (call : Call) (regs : Registers) (heap : Option Heap) (d : D)
      → (let m : HeapMachine D = record { heap = heap; devices = d } in
          heap_library heap_kernel call regs m ≡ (
            heap_meaning fuel rounds call heap
            >>= (λ (value, h). done (value, acknowledge ports (record m { heap = some h })))))
  unfolding heap_library heap_meaning on_block heap_register_syscalls syscall_register
      syscall_allocate syscall_reallocate syscall_free syscall_get_ptr_size syscall_get_used_size
      tomato_heap_allocate tomato_heap_reallocate tomato_heap_free tomato_heap_get_ptr_size
      tomato_heap_get_used_size
  called (allocate size) regs none d = word_of (
      served_by (heap_ports ports) (heap_register_syscalls fuel rounds syscalls) handlers
        syscall_heap_allocate _ (record regs { ebx = size }) (record { heap = none; devices = d })
        (omega arith) refl)
  called (allocate size) regs (some h) d =
      word_of (
        served_by (heap_ports ports) (heap_register_syscalls fuel rounds syscalls) handlers
          syscall_heap_allocate _ (record regs { ebx = size })
          (record { heap = some h; devices = d }) (omega arith) refl)
      ∙ answered ports (heap_allocate fuel rounds h size)
          (record regs { ebx = size; eax = number syscall_heap_allocate; int_no = irq_syscall })
          (record { heap = some h; devices = d })
  called (reallocate ptr size) regs none d = word_of (
      served_by (heap_ports ports) (heap_register_syscalls fuel rounds syscalls) handlers
        syscall_heap_reallocate _ (record regs { ebx = ptr; ecx = size })
        (record { heap = none; devices = d }) (omega arith) refl)
  called (reallocate ptr size) regs (some h) d =
      word_of (
        served_by (heap_ports ports) (heap_register_syscalls fuel rounds syscalls) handlers
          syscall_heap_reallocate _ (record regs { ebx = ptr; ecx = size })
          (record { heap = some h; devices = d }) (omega arith) refl)
      ∙ answered ports (heap_reallocate fuel rounds h ptr size)
          (record regs {
            ebx = ptr;
            ecx = size;
            eax = number syscall_heap_reallocate;
            int_no = irq_syscall;
          })
          (record { heap = some h; devices = d })
  called (free ptr) regs none d = void_of (
      served_by (heap_ports ports) (heap_register_syscalls fuel rounds syscalls) handlers
        syscall_heap_free _ (record regs { ebx = ptr }) (record { heap = none; devices = d })
        (omega arith) refl)
  called (free ptr) regs (some h) d =
      void_of (
        served_by (heap_ports ports) (heap_register_syscalls fuel rounds syscalls) handlers
          syscall_heap_free _ (record regs { ebx = ptr }) (record { heap = some h; devices = d })
          (omega arith) refl)
      ∙ freed ports (heap_free fuel h ptr) (record regs { ebx = ptr }) (number syscall_heap_free)
          (record { heap = some h; devices = d })
  called (get_ptr_size ptr) regs none d = word_of (
      served_by (heap_ports ports) (heap_register_syscalls fuel rounds syscalls) handlers
        syscall_heap_get_ptr_size _ (record regs { ebx = ptr })
        (record { heap = none; devices = d }) (omega arith) refl)
  called (get_ptr_size ptr) regs (some h) d = word_of (
      served_by (heap_ports ports) (heap_register_syscalls fuel rounds syscalls) handlers
        syscall_heap_get_ptr_size _ (record regs { ebx = ptr })
        (record { heap = some h; devices = d }) (omega arith) refl)
  called get_used_size regs none d = word_of (
      served_by (heap_ports ports) (heap_register_syscalls fuel rounds syscalls) handlers
        syscall_heap_get_used_size _ regs (record { heap = none; devices = d }) (omega arith) refl)
  called get_used_size regs (some h) d = word_of (
      served_by (heap_ports ports) (heap_register_syscalls fuel rounds syscalls) handlers
        syscall_heap_get_used_size _ regs (record { heap = some h; devices = d }) (omega arith)
        refl)

  -- A program that calls a function of heap.h makes the kernel do what the function of heap.c of that
  -- name does on the heap of the running process, with the same arguments and the same result, and the
  -- interrupt is acknowledged; without a running process the kernel panics. The size of what is no
  -- valid pointer is 0.
  pub heap_library_lem :
      (call : Call) (regs : Registers) (m : HeapMachine D)
      → heap_library heap_kernel call regs m ≡ (
          heap_meaning fuel rounds call m.heap
          >>= (λ (value, h). done (value, acknowledge ports (record m { heap = some h }))))
  heap_library_lem call regs m = called call regs m.heap m.devices
