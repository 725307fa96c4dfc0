-- ===== src/User/Windows/Create.antt =====
-- `tomato_window_create`, from the library through the interrupt 0x80 to the windows.
use tomat_os_old.Common.{
  ℕ, ◌<◌, ◌≡◌, refl, ap, ◌∙◌, Bool, true, not, ◌==◌, u16, if◌then◌else◌, done, ◌>>=◌, arith,
}
use tomat_os_old.Kernel.{Registers}
use tomat_os_old.Drivers.Ps2.{Ports}
use tomat_os_old.Boot.Idt.{irq_ack, irq_syscall}
use tomat_os_old.Boot.Isr.{Handlers, syscall_register}
use tomat_os_old.Graphics.Machine.{Machine, Caller, machine_ports}
use tomat_os_old.Graphics.Window.{Desktop}
use tomat_os_old.Boot.Isr.Dispatch.{acknowledged}
use tomat_os_old.Graphics.Window.Create.{
  created, created_visible, created_start, window_set_visible_low,
}
use tomat_os_old.Graphics.Window.Registered.{window_register_syscalls}
use tomat_os_old.Graphics.Window.Syscalls.{syscall_create, syscall_set_visible}
use tomat_os_old.User.Trap.{word, word_of, int_80, request}
use tomat_os_old.User.Kernel.{kernel, served, acknowledge, in_front, with_windows}
use tomat_os_old.User.Kinds.{number, syscall_window_create, syscall_window_set_visible}
use tomat_os_old.User.Windows.{tomato_window_create}

-- The windows' part of a machine after the first of the two system calls.
abbrev pub new_window : Caller → (parent x y width height : ℕ) → Desktop → Desktop
new_window c parent x y width height d =
    created c.at c.uid c.old parent (u16 x) (u16 y) (u16 width) (u16 height) d

module _ {D : Type 0} (ports : Ports D) (c : Caller)
    (syscalls handlers : Handlers (Machine D)) where
  create_runs :
      (parent x y width height : ℕ) (regs : Registers) (m : Machine D)
      → int_80
          (kernel ports (in_front c) syscalls handlers)
          syscall_window_create
          (record regs { ebx = parent; ecx = x; edx = y; esi = width; edi = height })
          m
        ≡ done (
          c.at,
          acknowledge ports
              (with_windows (new_window c parent x y width height m.terminal.desktop) m),
        )
  unfolding window_register_syscalls syscall_register syscall_create
  create_runs parent x y width height regs m = word_of (
      served ports (in_front c) syscalls handlers syscall_window_create _
        (record regs { ebx = parent; ecx = x; edx = y; esi = width; edi = height }) m (omega arith)
        refl)

  low_stays :
      (w : ℕ) (regs : Registers) (m : Machine D)
      → w < m.terminal.desktop.kernel_start
      → request
          (kernel ports (in_front c) syscalls handlers)
          syscall_window_set_visible
          (record regs { ebx = w })
          m
        ≡ done (acknowledge ports m)
  unfolding window_register_syscalls syscall_register syscall_set_visible
  low_stays w regs m low =
      let regs' = record regs {
        ebx = w;
        eax = number syscall_window_set_visible;
        int_no = irq_syscall;
      } in
      ap (λ r. word r >>= (λ (eax, m). done m))
        (served ports (in_front c) syscalls handlers syscall_window_set_visible _
            (record regs { ebx = w }) m (omega arith) refl
          ∙ ap
              (λ r.
                acknowledged (machine_ports ports)
                  (r >>= (λ d. done (regs', d)) >>= (λ (regs, d). done (regs, with_windows d m))))
              (window_set_visible_low w (not (regs.ecx == 0)) m.terminal.desktop low))

  -- A process in the foreground gets its new window from `tomato_window_create`, with its arguments in their types, whatever it asks for with
  -- `vis`, and whatever the registers hold between the two system calls: the window is visible, and
  -- the interrupt is acknowledged twice. The kernel starts above address 1.
  pub tomato_window_create-visible :
      (parent x y width height : ℕ) (vis : Bool) (later regs : Registers) (m : Machine D)
      → 1 < m.terminal.desktop.kernel_start
      → (let d = new_window c parent x y width height m.terminal.desktop in
          (tomato_window_create
              (kernel ports (in_front c) syscalls handlers)
              parent
              x
              y
              width
              height
              vis
              later
              regs
              m
            ≡ done (c.at, acknowledge ports (acknowledge ports (with_windows d m))))
          × ((d.window c.at).visible ≡ true))
  unfolding tomato_window_create irq_ack
  tomato_window_create-visible parent x y width height vis later regs m above =
      let d = new_window c parent x y width height m.terminal.desktop in
      let m1 = acknowledge ports (with_windows d m) in
      let start =
        created_start c.at c.uid c.old parent (u16 x) (u16 y) (u16 width) (u16 height)
          m.terminal.desktop in
      let low : (if vis then 1 else 0) < d.kernel_start = ground (arith, above, start) in
      (
        ap
              (λ r. r >>= (λ (window, s).
                request (kernel ports (in_front c) syscalls handlers) syscall_window_set_visible
                  (record later { ebx = if vis then 1 else 0 }) s
                >>= (λ s. done (window, s))))
              (create_runs parent x y width height regs m)
            ∙ ap (λ r. r >>= (λ s. done (c.at, s))) (low_stays (if vis then 1 else 0) later m1 low),
        created_visible c.at c.uid c.old parent (u16 x) (u16 y) (u16 width) (u16 height)
            m.terminal.desktop,
      )
