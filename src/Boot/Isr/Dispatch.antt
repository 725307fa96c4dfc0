-- ===== src/Boot/Isr/Dispatch.antt =====
-- Which handler an interrupt runs.
use tomat_os_old.Common.{
  ℕ, ◌<◌, ◌≤◌, ◌≡◌, ◌≢◌, refl, sym, ap, ◌∙◌, ltb, ltb_of_lt, ltb_of_le, update, if◌then◌else◌, some,
  Run, done, u8, ◌>>=◌, arith, ◌⊎◌, inl, inr,
}
use tomat_os_old.Kernel.{Registers}
use tomat_os_old.Drivers.Ps2.{Ports}
use tomat_os_old.Boot.Idt.{irq_ack, irq_syscall}
use tomat_os_old.Boot.Isr.{
  syscall_end, RegsHandler, Handlers, register_irq_handler, syscall_register, call_handler,
  syscall_handler, syscall_init, kernel_irq_handler,
}

module _ {S : Type 0} (ports : Ports S) where
  -- The acknowledgement behind a handler.
  abbrev pub acknowledged : Run (Registers × S) → Run (Registers × S)
  acknowledged r = r >>= (λ (after, s). done (after, irq_ack ports (u8 after.int_no) s))

  called :
      (handlers : Handlers S) (n : ℕ) (h : RegsHandler S) (regs : Registers) (s : S)
      → handlers n ≡ some h
      → call_handler handlers n regs s ≡ h regs s
  unfolding call_handler
  called handlers n h regs s found = rw (call_handler, found) refl

  registered :
      (kind other_kind : ℕ) (handler other : RegsHandler S) (syscalls : Handlers S)
      → other_kind ≢ kind
      → syscall_register other_kind other (syscall_register kind handler syscalls) kind
        ≡ some handler
  unfolding syscall_register
  registered kind other_kind handler other syscalls differ = ground (arith, differ)

  pub in_range :
      (table : Handlers S) (handler : RegsHandler S) (regs : Registers) (s : S)
      → regs.eax < syscall_end
      → table regs.eax ≡ some handler
      → syscall_handler table regs s ≡ handler regs s
  unfolding syscall_handler
  in_range table handler regs s small found =
      ground (arith, small, called table regs.eax handler regs s found)

  out_of_range :
      (table : Handlers S) (regs : Registers) (s : S)
      → syscall_end ≤ regs.eax
      → syscall_handler table regs s ≡ done (regs, s)
  unfolding syscall_handler
  out_of_range table regs s large = ground (arith, large)

  pub entered :
      (table handlers : Handlers S) (regs : Registers) (s : S)
      → regs.int_no ≡ irq_syscall
      → kernel_irq_handler ports (syscall_init table handlers) regs s
        ≡ acknowledged (syscall_handler table regs s)
  unfolding kernel_irq_handler syscall_init register_irq_handler
  entered table handlers regs s int = ap acknowledged (
      called (update handlers irq_syscall (some (syscall_handler table))) regs.int_no
        (syscall_handler table) regs s (ground (arith, int)))

  -- After `syscall_init`, and registrations of `handler` for the number `kind` and then of `other` for
  -- another number, the interrupt 0x80 with `kind` in `eax`, a number of a system call, runs `handler`
  -- and nothing else, and is acknowledged behind it; with a number that is out of range nothing is run,
  -- and the interrupt is acknowledged.
  kernel_irq_handler-syscall_register :
      (kind other_kind : ℕ) (handler other : RegsHandler S) (syscalls handlers : Handlers S)
      (regs : Registers) (s : S)
      → other_kind ≢ kind
      → regs.int_no ≡ irq_syscall
      → (regs.eax ≡ kind) × (kind < syscall_end) ⊎ (syscall_end ≤ regs.eax)
      → (let table = syscall_register other_kind other (syscall_register kind handler syscalls) in
          kernel_irq_handler ports (syscall_init table handlers) regs s
          ≡ acknowledged (if ltb regs.eax syscall_end then handler regs s else done (regs, s)))
  unfolding kernel_irq_handler syscall_init register_irq_handler
  kernel_irq_handler-syscall_register kind other_kind handler other syscalls handlers regs s differ
        int (inl (same, small)) =
      let table = syscall_register other_kind other (syscall_register kind handler syscalls) in
      let found : table regs.eax ≡ some handler =
        ap table same ∙ registered kind other_kind handler other syscalls differ in
      let small_eax : regs.eax < syscall_end = omega (arith, same, small) in
      entered table handlers regs s int
      ∙ ap acknowledged (
          in_range table handler regs s small_eax found
          ∙ sym (
              ap (λ b. if b then handler regs s else done (regs, s))
                (ltb_of_lt regs.eax syscall_end small_eax)))
  kernel_irq_handler-syscall_register kind other_kind handler other syscalls handlers regs s differ
        int (inr large) =
      let table = syscall_register other_kind other (syscall_register kind handler syscalls) in
      entered table handlers regs s int
      ∙ ap acknowledged (
          out_of_range table regs s large
          ∙ sym (
              ap (λ b. if b then handler regs s else done (regs, s))
                (ltb_of_le regs.eax syscall_end large)))
