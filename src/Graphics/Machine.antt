-- ===== src/Graphics/Machine.antt =====
-- The machine that the system calls of the terminal and of the windows work on, and what their handlers
-- take from it.
use tomat_os_old.Common.{ℕ, Bool, List, Run, done, ◌>>=◌}
use tomat_os_old.Kernel.{Registers}
use tomat_os_old.Drivers.Ps2.{Ports}
use tomat_os_old.Boot.Isr.{RegsHandler}
use tomat_os_old.Graphics.Window.{Cell, Window, Desktop}
use tomat_os_old.Graphics.Terminal.{Terminal}

-- The terminal with its windows, and the devices behind the ports.
pub record Machine (D : Type 0) : Type 0 where
  pub terminal : Terminal
  pub devices : D

-- What a handler reads besides the registers and the windows: whether the running process is in the
-- foreground, its uid, the string at an address, a bound on the chain of parents, and for the
-- windows' `malloc` the address and the contents of the blocks that it returns.
pub record Caller : Type 0 where
  pub foreground : Bool
  pub uid : ℕ
  pub text : ℕ → List ℕ
  pub depth : ℕ
  pub at : ℕ
  pub old : Window
  pub fresh : ℕ → Cell

module _ {D : Type 0} where
  -- The ports of a machine.
  abbrev pub machine_ports : Ports D → Ports (Machine D)
  machine_ports ports = record {
    inb = λ port m. let (value, d) = ports.inb port m.devices in (value, record m { devices = d });
    outb = λ port value m. record m { devices = ports.outb port value m.devices };
  }

  abbrev pub on_terminal :
      (Registers → Terminal → Run (Registers × Terminal)) → RegsHandler (Machine D)
  on_terminal handler regs m =
      handler regs m.terminal >>= (λ (regs, t). done (regs, record m { terminal = t }))

  abbrev pub on_desktop :
      (Registers → Desktop → Run (Registers × Desktop)) → RegsHandler (Machine D)
  on_desktop handler regs m =
      handler regs m.terminal.desktop
      >>= (λ (regs, d). done (regs, record m { terminal = record m.terminal { desktop = d } }))
