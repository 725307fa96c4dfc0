-- ===== src/User/Trap.antt =====
-- How a program asks for a system call: `asm("int $0x80" : "=a"(result) : "a"(number), ...)`.
use tomat_os_old.Common.{ℕ, ◌<◌, ◌≡◌, refl, ap, ◌∙◌, some, Run, done, ◌>>=◌}
use tomat_os_old.Kernel.{Registers}
use tomat_os_old.User.Kinds.{SyscallKind, number}
use tomat_os_old.Boot.Idt.{irq_syscall}
use tomat_os_old.Drivers.Ps2.{Ports}
use tomat_os_old.Boot.Isr.{RegsHandler, Handlers, syscall_end, syscall_init, kernel_irq_handler}
use tomat_os_old.Boot.Isr.Dispatch.{acknowledged, entered, in_range}

module _ {S : Type 0} (trap : RegsHandler S) where
  -- `regs` are the registers with the arguments in them; the entry for the interrupt pushes its
  -- number. The result is what the kernel leaves in `eax`.
  abbrev pub int_80 : SyscallKind → Registers → S → Run (ℕ × S)
  int_80 kind regs s =
      trap (record regs { eax = number kind; int_no = irq_syscall }) s
      >>= (λ (after, s). done (after.eax, s))

  -- A call without a result.
  abbrev pub request : SyscallKind → Registers → S → Run S
  request kind regs s = int_80 kind regs s >>= (λ (eax, s). done s)

  -- A result that is read from a part of `eax`.
  abbrev pub ask : SyscallKind → (part : ℕ → ℕ) → Registers → S → Run (ℕ × S)
  ask kind part regs s = int_80 kind regs s >>= (λ (eax, s). done (part eax, s))

module _ {S : Type 0} where
  -- What a program sees of the end of a system call without a result, of one with a result that is a
  -- part of `eax`, and of one with the whole of it.
  abbrev pub void : Run (Registers × S) → Run (ℕ × S)
  void r = r >>= (λ (after, s). done (after.eax, s)) >>= (λ (eax, s). done s) >>= (λ s. done (0, s))

  abbrev pub answer : (ℕ → ℕ) → Run (Registers × S) → Run (ℕ × S)
  answer part r = r >>= (λ (after, s). done (after.eax, s)) >>= (λ (eax, s). done (part eax, s))

  abbrev pub word : Run (Registers × S) → Run (ℕ × S)
  word r = r >>= (λ (after, s). done (after.eax, s))

  pub void_of : {r r' : Run (Registers × S)} → r ≡ r' → void r ≡ void r'
  void_of e = ap void e

  pub answer_of :
      {r r' : Run (Registers × S)} (part : ℕ → ℕ) → r ≡ r' → answer part r ≡ answer part r'
  answer_of part e = ap (answer part) e

  pub word_of : {r r' : Run (Registers × S)} → r ≡ r' → word r ≡ word r'
  word_of e = ap word e

  -- A system call with a handler runs it, and is acknowledged.
  pub served_by :
      (ports : Ports S) (table handlers : Handlers S) (kind : SyscallKind) (h : RegsHandler S)
      (regs : Registers) (s : S)
      → number kind < syscall_end
      → table (number kind) ≡ some h
      → kernel_irq_handler ports
          (syscall_init table handlers)
          (record regs { eax = number kind; int_no = irq_syscall })
          s
        ≡ acknowledged ports (h (record regs { eax = number kind; int_no = irq_syscall }) s)
  served_by ports table handlers kind h regs s small found =
      let regs' = record regs { eax = number kind; int_no = irq_syscall } in
      entered ports table handlers regs' s refl
      ∙ ap (acknowledged ports) (in_range ports table h regs' s small found)
