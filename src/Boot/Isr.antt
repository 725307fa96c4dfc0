-- ===== src/Boot/Isr.antt =====
-- TomatKernel/boot/interrupts/isr.c and core/process/syscall.c: the tables of handlers, for handlers that
-- work on a state `S`, and the screen of an exception.
pub mod Dispatch
pub mod Messages
pub mod Exception
mod Tests
use tomat_os_old.Common.{
  ℕ, Bool, ◌&&◌, Option, none, some, ltb, ◌==◌, if◌then◌else◌, update, u8, Run, done, ◌>>=◌,
}
use tomat_os_old.Kernel.{Registers}
use tomat_os_old.Drivers.Ps2.{Ports}
use tomat_os_old.Boot.Idt.{irq_ack, irq_syscall}

-- SYSCALL_END, the number of system calls.
abbrev pub syscall_end : ℕ
syscall_end = 48

-- `irq_handler_t` and `syscall_handler_t`
abbrev pub RegsHandler : Type 0 → Type 0
RegsHandler S = Registers → S → Run (Registers × S)

-- A table of handlers, with no entry for a null pointer.
abbrev pub Handlers : Type 0 → Type 0
Handlers S = ℕ → Option (RegsHandler S)

module _ {S : Type 0} where
  pub register_irq_handler : (num : ℕ) → RegsHandler S → Handlers S → Handlers S
  register_irq_handler num handler handlers = update handlers num (some handler)

  unfoldable pub syscall_register : (kind : ℕ) → RegsHandler S → Handlers S → Handlers S
  syscall_register kind handler handlers = update handlers kind (some handler)

  -- if (handlers[number] != NULL) handlers[number](&regs);
  pub call_handler : Handlers S → (number : ℕ) → RegsHandler S
  call_handler handlers number regs s = elim (handlers number) [
    | none ↦ done (regs, s)
    | some handler ↦ handler regs s
  ]

  -- `syscall_handler` for the table of system calls.
  pub syscall_handler : Handlers S → RegsHandler S
  syscall_handler syscalls regs s =
      let called = call_handler syscalls regs.eax regs s in
      if ltb regs.eax syscall_end then called else done (regs, s)

  -- What `syscall_init` enters for the interrupt 0x80.
  pub syscall_init : (syscalls : Handlers S) → Handlers S → Handlers S
  syscall_init syscalls handlers =
      register_irq_handler irq_syscall (syscall_handler syscalls) handlers

  -- The acknowledgement reads the registers that the handler leaves; `s` holds the devices too.
  pub kernel_irq_handler : Ports S → Handlers S → RegsHandler S
  kernel_irq_handler ports handlers regs s =
      call_handler handlers regs.int_no regs s
      >>= (λ (after, s). done (after, irq_ack ports (u8 after.int_no) s))
