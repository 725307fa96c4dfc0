-- ===== src/Graphics/Window/Tests.antt =====
-- Runs of the windows.
use tomat_os_old.Common.{ℕ, ◌+◌, ◌-◌, ◌*◌, ◌≡◌, inl, refl, true, ltb, if◌then◌else◌, done, arith}
use tomat_os_old.Kernel.{Registers}
use tomat_os_old.Graphics.Window.{
  Cell, Window, Desktop, window_magic, cell_of, set_window, window_scroll,
}
use tomat_os_old.Graphics.Window.Write.{IsNative, IsNative-is_window, window_scroll_lem}
use tomat_os_old.Graphics.Window.Scroll.{with_buffer}

-- Three lines of four cells.
abbrev small : Window
small = record {
  magic = window_magic;
  parent = 0;
  uid = 1;
  x = 0;
  y = 0;
  width = 4;
  height = 3;
  cursor_x = 0;
  cursor_y = 0;
  bg_col = 15;
  fg_col = 0;
  visible = true;
  screen_buffer = λ i. record { chr = 65 + i; fg = 0; bg = 15 };
  size = 12;
}

abbrev desktop : Desktop
desktop = record {
  window = λ w. small;
  native = 0x200000;
  kernel_start = 0x100000;
  kernel_end = 0x300000;
  vga_cursor = 0;
}

abbrev zeroes : Registers
zeroes = record {
  ds = 0;
  edi = 0;
  esi = 0;
  ebp = 0;
  esp = 0;
  ebx = 0x200000;
  edx = 0;
  ecx = 3;
  eax = 7;
  int_no = 0;
  code = 0;
  eip = 0;
  cs = 0;
  eflags = 0;
  useresp = 0;
  ss = 0;
}

small-IsNative : IsNative 4 3 0 0x200000 desktop
small-IsNative = record {
  native = refl;
  low_end = omega arith;
  high_end = omega arith;
  fits = record {
    column = omega arith;
    line = omega arith;
    some_line = omega arith;
    wide = omega arith;
    high = omega arith;
    room = omega arith;
    valid = refl;
    top = refl;
    wide_as = refl;
    high_as = refl;
  };
}

window_scroll_example :
    (b : ℕ → Cell) × (window_scroll 0x200000 1 desktop
      ≡ done (set_window 0x200000 (with_buffer small b) desktop))
    × ((j : ℕ)
        → b j ≡ (
            if ltb j (1 * small.width)
            then cell_of small 0
            else if ltb j ((small.height - 1) * small.width)
            then small.screen_buffer (j + 1 * small.width)
            else small.screen_buffer j))
window_scroll_example =
    window_scroll_lem 0x200000 1 desktop (IsNative-is_window 4 3 small-IsNative) (inl refl)
      (omega arith) (omega arith)

abbrev at_end : Window
at_end = record small { cursor_x = 3; cursor_y = 2 }
