-- ===== src/Graphics/Terminal.antt =====
-- TomatKernel/core/graphics/term.c: the terminal, which passes its calls to the window that `current`
-- points at.
pub mod Syscalls
pub mod Ready
pub mod Home
pub mod Registered
mod Tests
use tomat_os_old.Common.{ℕ, Bool, true, List, if◌then◌else◌, Run, done, ◌>>=◌}
use tomat_os_old.Graphics.Window.{
  Cell, Window, Desktop, window_magic, is_window, set_window, window_write, window_clear,
  window_set_text_color, window_set_background_color, window_set_cursor_pos, window_scroll,
  window_clear_line, window_get_text_color, window_get_background_color, window_get_cursor_x,
  window_get_cursor_y, window_get_width, window_get_height,
}

-- The windows, which hold `native`, and the static variable `current`.
pub record Terminal : Type 0 where
  pub desktop : Desktop
  pub current : ℕ

abbrev pub native_term_width : ℕ
native_term_width = 80

abbrev pub native_term_height : ℕ
native_term_height = 25

-- What `term_init` makes of the static variable `native`.
pub native_window : (cells : ℕ → Cell) (room : ℕ) → Window
native_window cells room = record {
  magic = window_magic;
  uid = 0;
  width = native_term_width;
  height = native_term_height;
  visible = true;
  parent = 0;
  x = 0;
  y = 0;
  screen_buffer = cells;
  size = room;
  cursor_x = 0;
  cursor_y = 0;
  bg_col = 0x0;
  fg_col = 0xf;
}

-- `cells` is the memory at NATIVE_TERM_VIDEO_ADDRESS, with room for `room` cells.
pub term_init : (cells : ℕ → Cell) (room : ℕ) → Terminal → Terminal
term_init cells room s = record s {
  desktop = set_window s.desktop.native (native_window cells room) s.desktop;
  current = s.desktop.native;
}

abbrev pub with_desktop : Terminal → Run Desktop → Run Terminal
with_desktop s r = r >>= (λ d. done (record s { desktop = d }))

pub term_write : (depth : ℕ) (text : List ℕ) → Terminal → Run Terminal
term_write depth text s = with_desktop s (window_write depth s.current text s.desktop)

pub term_clear : Terminal → Run Terminal
term_clear s = with_desktop s (window_clear s.current s.desktop)

pub term_set_text_color : (color : ℕ) → Terminal → Terminal
term_set_text_color color s = record s { desktop = window_set_text_color s.current color s.desktop }

pub term_set_background_color : (color : ℕ) → Terminal → Terminal
term_set_background_color color s = record s {
  desktop = window_set_background_color s.current color s.desktop;
}

pub term_get_text_color : Terminal → ℕ
term_get_text_color s = window_get_text_color s.desktop s.current

pub term_get_background_color : Terminal → ℕ
term_get_background_color s = window_get_background_color s.desktop s.current

pub term_set_cursor_pos : (depth x y : ℕ) → Terminal → Run Terminal
term_set_cursor_pos depth x y s =
    with_desktop s (window_set_cursor_pos depth s.current x y s.desktop)

pub term_get_cursor_x : Terminal → ℕ
term_get_cursor_x s = window_get_cursor_x s.desktop s.current

pub term_get_cursor_y : Terminal → ℕ
term_get_cursor_y s = window_get_cursor_y s.desktop s.current

pub term_get_width : Terminal → ℕ
term_get_width s = window_get_width s.desktop s.current

pub term_get_height : Terminal → ℕ
term_get_height s = window_get_height s.desktop s.current

pub term_scroll : (n : ℕ) → Terminal → Run Terminal
term_scroll n s = with_desktop s (window_scroll s.current n s.desktop)

pub term_clear_line : (n : ℕ) → Terminal → Run Terminal
term_clear_line n s = with_desktop s (window_clear_line s.current n s.desktop)

-- The window that was current before, and the state.
pub term_redirect : (window : ℕ) → Terminal → ℕ × Terminal
term_redirect window s =
    if is_window s.desktop window
    then (s.current, s)
    else (s.current, record s { current = window })

pub term_current : Terminal → ℕ
term_current s = s.current

pub term_native : Terminal → ℕ
term_native s = s.desktop.native
