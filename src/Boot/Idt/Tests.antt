-- ===== src/Boot/Idt/Tests.antt =====
-- The gate of the system calls, with the handlers one behind the other.
use tomat_os_old.Common.{ℕ, ◌+◌, ◌%◌, ◌^◌, ◌<◌, arith}
use tomat_os_old.Boot.Idt.{
  Handler, exception_interrupt, interrupt_request, syscall_interrupt, idt_gates,
}
use tomat_os_old.Boot.Idt.Gates.{vector, Holds, idt_gates-Holds}

abbrev address : Handler → ℕ
address (exception_interrupt i) = 0x100000 + i % 256
address (interrupt_request i) = 0x100100 + i % 256
address syscall_interrupt = 0x100200

address_small : (h : Handler) → address h < 2 ^ 32
address_small (exception_interrupt i) = omega arith
address_small (interrupt_request i) = omega arith
address_small syscall_interrupt = omega arith

idt_gates_example : Holds address (vector 128) (idt_gates address 128)
idt_gates_example = idt_gates-Holds address 128 address_small (omega arith)
