-- ===== src/User/Kernel.antt =====
-- The kernel as a program meets it: the interrupt 0x80 with the system calls of the terminal and of
-- the windows (kernel.c registers both).
use tomat_os_old.Common.{ℕ, ◌<◌, ◌≡◌, refl, true, some, Run, done, panic, fault, hang, ◌>>=◌}
use tomat_os_old.Kernel.{Registers}
use tomat_os_old.Drivers.Ps2.{Ports}
use tomat_os_old.Boot.Idt.{irq_ack, irq_syscall}
use tomat_os_old.Boot.Isr.{syscall_end, RegsHandler, Handlers, syscall_init, kernel_irq_handler}
use tomat_os_old.Boot.Isr.Dispatch.{acknowledged}
use tomat_os_old.Graphics.Machine.{Machine, Caller, machine_ports}
use tomat_os_old.Graphics.Window.{Desktop}
use tomat_os_old.Graphics.Terminal.{Terminal}
use tomat_os_old.Graphics.Terminal.Registered.{term_register_syscalls}
use tomat_os_old.Graphics.Window.Registered.{window_register_syscalls}
use tomat_os_old.User.Trap.{served_by, void}
use tomat_os_old.User.Kinds.{SyscallKind, number}

-- The running process in the foreground.
abbrev pub in_front : Caller → Caller
in_front c = record c { foreground = true }

-- The two acknowledgements behind a system call.
abbrev pub acknowledge : {D : Type 0} → Ports D → Machine D → Machine D
acknowledge ports m = irq_ack (machine_ports ports) irq_syscall m

abbrev pub with_windows : {D : Type 0} → Desktop → Machine D → Machine D
with_windows d m = record m { terminal = record m.terminal { desktop = d } }

-- The ports, the handlers that were registered before, and what the handlers read.
module _ {D : Type 0} (ports : Ports D) (c : Caller)
    (syscalls handlers : Handlers (Machine D)) where
  abbrev pub table : Handlers (Machine D)
  table = window_register_syscalls c (term_register_syscalls c syscalls)

  abbrev pub kernel : RegsHandler (Machine D)
  kernel = kernel_irq_handler (machine_ports ports) (syscall_init table handlers)

  -- A system call with a handler runs it, and is acknowledged.
  pub served :
      (kind : SyscallKind) (h : RegsHandler (Machine D)) (regs : Registers) (m : Machine D)
      → number kind < syscall_end
      → table (number kind) ≡ some h
      → kernel (record regs { eax = number kind; int_no = irq_syscall }) m
        ≡ acknowledged
            (machine_ports ports)
            (h (record regs { eax = number kind; int_no = irq_syscall }) m)
  served kind h regs m small found =
      served_by (machine_ports ports) table handlers kind h regs m small found

-- A handler that keeps the registers, seen by the program.
module _ {D : Type 0} (ports : Ports D) where
  pub silently :
      (r : Run Terminal) (regs : Registers) (n : ℕ) (m : Machine D)
      → (let regs' = record regs { eax = n; int_no = irq_syscall } in
          void (
            acknowledged (machine_ports ports) (
              r
              >>= (λ t. done (regs', t))
              >>= (λ (regs, t). done (regs, record m { terminal = t })))))
        ≡ (r
            >>= (λ t. done (0, t))
            >>= (λ (value, t). done (value, acknowledge ports (record m { terminal = t }))))
  silently (done t) regs n m = refl
  silently panic regs n m = refl
  silently fault regs n m = refl
  silently hang regs n m = refl

  pub silently_drawn :
      (r : Run Desktop) (regs : Registers) (n : ℕ) (m : Machine D)
      → (let regs' = record regs { eax = n; int_no = irq_syscall } in
          void (
            acknowledged
              (machine_ports ports)
              (r >>= (λ d. done (regs', d)) >>= (λ (regs, d). done (regs, with_windows d m)))))
        ≡ (r
            >>= (λ d. done (0, d))
            >>= (λ (value, d). done (value, acknowledge ports (with_windows d m))))
  silently_drawn (done d) regs n m = refl
  silently_drawn panic regs n m = refl
  silently_drawn fault regs n m = refl
  silently_drawn hang regs n m = refl
