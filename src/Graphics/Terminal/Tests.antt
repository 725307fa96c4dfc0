-- ===== src/Graphics/Terminal/Tests.antt =====
-- Runs of the terminal.
use tomat_os_old.Common.{ℕ, ◌≡◌, [], ◌∷◌, if◌then◌else◌, done, arith}
use tomat_os_old.Kernel.{Registers}
use tomat_os_old.Graphics.Window.{Cell, is_window}
use tomat_os_old.Graphics.Terminal.{Terminal, native_window, term_init, term_write, term_redirect}
use tomat_os_old.Graphics.Terminal.Ready.{
  Operation, perform_all, IsReady, init-perform_all, term_write-term_redirect,
}

abbrev video : ℕ → Cell
video i = record { chr = 32; fg = 7; bg = 0 }

-- Before `term_init`; every address but that of the native window holds a window of one cell.
abbrev before : Terminal
before = record {
  desktop = record {
    window = λ w. record (native_window video 1) { width = 1; height = 1 };
    native = 0x200000;
    kernel_start = 0x100000;
    kernel_end = 0x300000;
    vga_cursor = 0;
  };
  current = 0;
}

abbrev zeroes : Registers
zeroes = record {
  ds = 0;
  edi = 0;
  esi = 0;
  ebp = 0;
  esp = 0;
  ebx = 0x280000;
  edx = 0;
  ecx = 3;
  eax = 7;
  int_no = 0;
  code = 0;
  eip = 0;
  cs = 0;
  eflags = 0;
  useresp = 0;
  ss = 0;
}

init_example :
    (s' : Terminal) × (perform_all 1
        (Operation.write (79 ∷ 75 ∷ 10 ∷ [])
          ∷ Operation.scroll 25
          ∷ Operation.set_cursor_pos 79 24
          ∷ Operation.clear_line 24
          ∷ Operation.clear
          ∷ [])
        (term_init video 2000 before)
      ≡ done s')
    × IsReady s'
init_example =
    init-perform_all 0
      (Operation.write (79 ∷ 75 ∷ 10 ∷ [])
        ∷ Operation.scroll 25
        ∷ Operation.set_cursor_pos 79 24
        ∷ Operation.clear_line 24
        ∷ Operation.clear
        ∷ [])
      video 2000 before (omega arith) (omega arith) (omega arith)
      (
        (omega arith, (omega arith, (omega arith, tt))),
        (omega arith, ((omega arith, omega arith), (omega arith, (tt, tt)))),
      )

redirect_example : term_write 1 (72 ∷ []) (term_redirect 0x280000 before).1 ≡ (
    if is_window before.desktop 0x280000
    then term_write 1 (72 ∷ []) before
    else done (term_redirect 0x280000 before).1)
redirect_example = term_write-term_redirect 1 0x280000 (72 ∷ []) before
