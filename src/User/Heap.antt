-- ===== src/User/Heap.antt =====
-- TomatLib/tomato/heap.h: a program's calls of its heap.
pub mod Calls
use tomat_os_old.Common.{ℕ, Run}
use tomat_os_old.Kernel.{Registers}
use tomat_os_old.User.Kinds.{
  syscall_heap_allocate, syscall_heap_free, syscall_heap_get_ptr_size, syscall_heap_get_used_size,
  syscall_heap_reallocate,
}
use tomat_os_old.User.Trap.{request, int_80}
use tomat_os_old.Boot.Isr.{RegsHandler}

module _ {S : Type 0} (trap : RegsHandler S) where
  pub tomato_heap_allocate : (size : ℕ) → Registers → S → Run (ℕ × S)
  tomato_heap_allocate size regs s =
      int_80 trap syscall_heap_allocate (record regs { ebx = size }) s

  pub tomato_heap_reallocate : (ptr size : ℕ) → Registers → S → Run (ℕ × S)
  tomato_heap_reallocate ptr size regs s =
      int_80 trap syscall_heap_reallocate (record regs { ebx = ptr; ecx = size }) s

  pub tomato_heap_free : (ptr : ℕ) → Registers → S → Run S
  tomato_heap_free ptr regs s = request trap syscall_heap_free (record regs { ebx = ptr }) s

  pub tomato_heap_get_ptr_size : (ptr : ℕ) → Registers → S → Run (ℕ × S)
  tomato_heap_get_ptr_size ptr regs s =
      int_80 trap syscall_heap_get_ptr_size (record regs { ebx = ptr }) s

  pub tomato_heap_get_used_size : Registers → S → Run (ℕ × S)
  tomato_heap_get_used_size regs s = int_80 trap syscall_heap_get_used_size regs s
