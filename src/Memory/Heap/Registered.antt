-- ===== src/Memory/Heap/Registered.antt =====
-- TomatKernel/core/memory/heap.c, lines 151-157: the handlers of the heap in the table of system calls.
use tomat_os_old.Common.{ℕ, Option, some, Run, done, ◌>>=◌}
use tomat_os_old.Kernel.{Registers}
use tomat_os_old.Drivers.Ps2.{Ports}
use tomat_os_old.User.Kinds.{
  number, syscall_heap_allocate, syscall_heap_reallocate, syscall_heap_free,
  syscall_heap_get_ptr_size, syscall_heap_get_used_size,
}
use tomat_os_old.Boot.Isr.{RegsHandler, Handlers, syscall_register}
use tomat_os_old.Memory.Heap.{Heap}
use tomat_os_old.Memory.Heap.Syscalls.{
  syscall_allocate, syscall_reallocate, syscall_free, syscall_get_ptr_size, syscall_get_used_size,
}

-- The heap of the running process, `none` without one, and the devices behind the ports.
pub record HeapMachine (D : Type 0) : Type 0 where
  pub heap : Option Heap
  pub devices : D

module _ {D : Type 0} where
  abbrev pub heap_ports : Ports D → Ports (HeapMachine D)
  heap_ports ports = record {
    inb = λ port m. let (value, d) = ports.inb port m.devices in (value, record m { devices = d });
    outb = λ port value m. record m { devices = ports.outb port value m.devices };
  }

  abbrev pub on_heap :
      (Option Heap → Registers → Run (Registers × Heap)) → RegsHandler (HeapMachine D)
  on_heap handler regs m =
      handler m.heap regs >>= (λ (regs, h). done (regs, record m { heap = some h }))

  -- `fuel` and `rounds` bound the loops.
  unfoldable pub heap_register_syscalls :
      (fuel rounds : ℕ) → Handlers (HeapMachine D) → Handlers (HeapMachine D)
  heap_register_syscalls fuel rounds t0 =
      let t1 =
        syscall_register (number syscall_heap_allocate) (on_heap (syscall_allocate fuel rounds))
          t0 in
      let t2 =
        syscall_register (number syscall_heap_reallocate) (on_heap (syscall_reallocate fuel rounds))
          t1 in
      let t3 = syscall_register (number syscall_heap_free) (on_heap (syscall_free fuel)) t2 in
      let t4 =
        syscall_register (number syscall_heap_get_ptr_size) (on_heap syscall_get_ptr_size) t3 in
      syscall_register (number syscall_heap_get_used_size) (on_heap syscall_get_used_size) t4
