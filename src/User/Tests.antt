-- ===== src/User/Tests.antt =====
-- Runs of a program's calls.
use tomat_os_old.Common.{ℕ, ◌+◌, ◌≡◌, true, false, none, [], ◌∷◌, done, ◌>>=◌, arith}
use tomat_os_old.Kernel.{Registers}
use tomat_os_old.Drivers.Ps2.{Ports}
use tomat_os_old.Boot.Isr.{RegsHandler, Handlers}
use tomat_os_old.Graphics.Machine.{Machine, Caller}
use tomat_os_old.Graphics.Window.{Cell}
use tomat_os_old.Graphics.Terminal.{native_window}
use tomat_os_old.User.Kernel.{kernel, in_front, acknowledge, with_windows}
use tomat_os_old.User.Term.Calls.{write, term_library, term_meaning, term_library_lem}
use tomat_os_old.User.Windows.Calls.{clear, window_library, window_meaning, asked}
use tomat_os_old.User.Windows.Calls.Library.{window_library_lem}
use tomat_os_old.User.Windows.Create.{new_window, tomato_window_create-visible}
use tomat_os_old.User.Windows.{tomato_window_create}

-- The devices count the writes to ports.
abbrev ports : Ports ℕ
ports = record { inb = λ port s. (0, s); outb = λ port value s. s + 1 }

abbrev zeroes : Registers
zeroes = record {
  ds = 0;
  edi = 0;
  esi = 0;
  ebp = 0;
  esp = 0;
  ebx = 0;
  edx = 0;
  ecx = 0;
  eax = 0;
  int_no = 0;
  code = 0;
  eip = 0;
  cs = 0;
  eflags = 0;
  useresp = 0;
  ss = 0;
}

abbrev video : ℕ → Cell
video i = record { chr = 32; fg = 7; bg = 0 }

abbrev machine : Machine ℕ
machine = record {
  terminal = record {
    desktop = record {
      window = λ w. native_window video 2000;
      native = 0x200000;
      kernel_start = 0x100000;
      kernel_end = 0x300000;
      vga_cursor = 0;
    };
    current = 0x200000;
  };
  devices = 0;
}

abbrev caller : Caller
caller = record {
  foreground = false;
  uid = 3;
  text = λ p. 79 ∷ 75 ∷ [];
  depth = 1;
  at = 0x280000;
  old = native_window video 0;
  fresh = video;
}

abbrev no_handlers : Handlers (Machine ℕ)
no_handlers i = none

abbrev trap : RegsHandler (Machine ℕ)
trap = kernel ports (in_front caller) no_handlers no_handlers

term_library_example : term_library trap (write 0x5000) zeroes machine ≡ (
    term_meaning caller (write 0x5000) machine.terminal
    >>= (λ (value, t). done (value, acknowledge ports (record machine { terminal = t }))))
term_library_example =
    term_library_lem ports caller no_handlers no_handlers (write 0x5000) zeroes machine

window_library_example : window_library trap (clear 0x280000) zeroes machine ≡ (
    window_meaning caller (asked (clear 0x280000)) machine.terminal.desktop
    >>= (λ (value, d). done (value, acknowledge ports (with_windows d machine))))
window_library_example =
    window_library_lem ports caller no_handlers no_handlers (clear 0x280000) zeroes machine

create_example :
    (let d = new_window caller 0x200000 1 2 10 5 machine.terminal.desktop in
      (tomato_window_create trap 0x200000 1 2 10 5 false zeroes zeroes machine
        ≡ done (0x280000, acknowledge ports (acknowledge ports (with_windows d machine))))
      × ((d.window 0x280000).visible ≡ true))
create_example =
    tomato_window_create-visible ports caller no_handlers no_handlers 0x200000 1 2 10 5 false zeroes
      zeroes machine (omega arith)
