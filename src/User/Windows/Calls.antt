-- ===== src/User/Windows/Calls.antt =====
-- A program's calls of the windows, from the library through the interrupt 0x80 to the windows.
pub mod Library
use tomat_os_old.Common.{ℕ, Bool, true, false, ◌≡◌, refl, ◌∙◌, u8, u16, Run, done, ◌>>=◌, arith}
use tomat_os_old.Kernel.{Registers}
use tomat_os_old.Drivers.Ps2.{Ports}
use tomat_os_old.Boot.Isr.{RegsHandler, Handlers, syscall_register}
use tomat_os_old.Graphics.Machine.{Machine, Caller}
use tomat_os_old.Graphics.Window.{
  Desktop, window_clear, window_clear_line, window_delete, window_get_background_color,
  window_get_cursor_x, window_get_cursor_y, window_get_height, window_get_text_color,
  window_get_width, window_get_x, window_get_y, window_redraw, window_reposition,
  window_restore_cursor, window_scroll, window_set_background_color, window_set_cursor_pos,
  window_set_text_color, window_set_visible, window_write,
}
use tomat_os_old.Graphics.Terminal.Registered.{term_register_syscalls}
use tomat_os_old.Graphics.Window.Registered.{window_register_syscalls}
use tomat_os_old.Graphics.Window.Syscalls.{
  syscall_clear_line, syscall_delete, syscall_get_background_color, syscall_get_cursor_x,
  syscall_get_cursor_y, syscall_get_text_color, syscall_get_x, syscall_get_y, syscall_redraw,
  syscall_reposition, syscall_restore_cursor, syscall_scroll, syscall_set_background_color,
  syscall_set_cursor_pos, syscall_set_text_color, syscall_set_visible,
}
use tomat_os_old.User.Trap.{void_of, answer_of}
use tomat_os_old.User.Kernel.{kernel, served, acknowledge, in_front, silently_drawn, with_windows}
use tomat_os_old.User.Kinds.{
  number, syscall_window_clear_line, syscall_window_delete, syscall_window_get_background_color,
  syscall_window_get_cursor_x, syscall_window_get_cursor_y, syscall_window_get_text_color,
  syscall_window_get_x, syscall_window_get_y, syscall_window_redraw, syscall_window_reposition,
  syscall_window_restore_cursor, syscall_window_scroll, syscall_window_set_background_color,
  syscall_window_set_cursor_pos, syscall_window_set_text_color, syscall_window_set_visible,
}
use tomat_os_old.User.Windows.{
  tomato_window_clear, tomato_window_clear_line, tomato_window_delete,
  tomato_window_get_background_color, tomato_window_get_cursor_x, tomato_window_get_cursor_y,
  tomato_window_get_text_color, tomato_window_get_x, tomato_window_get_y, tomato_window_height,
  tomato_window_redraw, tomato_window_reposition, tomato_window_restore_cursor,
  tomato_window_scroll, tomato_window_set_background_color, tomato_window_set_cursor_pos,
  tomato_window_set_text_color, tomato_window_set_visible, tomato_window_width, tomato_window_write,
}

-- The functions of windows.h on a window, with their arguments.
pub data Call : Type 0 where
  delete : (window : ℕ) → Call
  write : (window text : ℕ) → Call
  clear : (window : ℕ) → Call
  set_text_color : (window color : ℕ) → Call
  set_background_color : (window color : ℕ) → Call
  get_text_color : (window : ℕ) → Call
  get_background_color : (window : ℕ) → Call
  set_cursor_pos : (window x y : ℕ) → Call
  get_cursor_x : (window : ℕ) → Call
  get_cursor_y : (window : ℕ) → Call
  scroll : (window n : ℕ) → Call
  width : (window : ℕ) → Call
  height : (window : ℕ) → Call
  clear_line : (window n : ℕ) → Call
  set_visible : (window : ℕ) (vis : Bool) → Call
  redraw : (window : ℕ) → Call
  get_x : (window : ℕ) → Call
  get_y : (window : ℕ) → Call
  restore_cursor : (window : ℕ) → Call
  reposition : (window x y columns lines : ℕ) → Call

-- The library's function; 0 stands for no result.
module _ {S : Type 0} (trap : RegsHandler S) where
  pub window_library : Call → Registers → S → Run (ℕ × S)
  window_library (delete window) regs s =
      tomato_window_delete trap window regs s >>= (λ s. done (0, s))
  window_library (write window text) regs s =
      tomato_window_write trap window text regs s >>= (λ s. done (0, s))
  window_library (clear window) regs s =
      tomato_window_clear trap window regs s >>= (λ s. done (0, s))
  window_library (set_text_color window color) regs s =
      tomato_window_set_text_color trap window color regs s >>= (λ s. done (0, s))
  window_library (set_background_color window color) regs s =
      tomato_window_set_background_color trap window color regs s >>= (λ s. done (0, s))
  window_library (get_text_color window) regs s = tomato_window_get_text_color trap window regs s
  window_library (get_background_color window) regs s =
      tomato_window_get_background_color trap window regs s
  window_library (set_cursor_pos window x y) regs s =
      tomato_window_set_cursor_pos trap window x y regs s >>= (λ s. done (0, s))
  window_library (get_cursor_x window) regs s = tomato_window_get_cursor_x trap window regs s
  window_library (get_cursor_y window) regs s = tomato_window_get_cursor_y trap window regs s
  window_library (scroll window n) regs s =
      tomato_window_scroll trap window n regs s >>= (λ s. done (0, s))
  window_library (width window) regs s = tomato_window_width trap window regs s
  window_library (height window) regs s = tomato_window_height trap window regs s
  window_library (clear_line window n) regs s =
      tomato_window_clear_line trap window n regs s >>= (λ s. done (0, s))
  window_library (set_visible window vis) regs s =
      tomato_window_set_visible trap window vis regs s >>= (λ s. done (0, s))
  window_library (redraw window) regs s =
      tomato_window_redraw trap window regs s >>= (λ s. done (0, s))
  window_library (get_x window) regs s = tomato_window_get_x trap window regs s
  window_library (get_y window) regs s = tomato_window_get_y trap window regs s
  window_library (restore_cursor window) regs s =
      tomato_window_restore_cursor trap window regs s >>= (λ s. done (0, s))
  window_library (reposition window x y columns lines) regs s =
      tomato_window_reposition trap window x y columns lines regs s >>= (λ s. done (0, s))

-- The function of window.c that a call is for, with its arguments in their types; `c` is what it reads.
module _ (c : Caller) where
  pub window_meaning : Call → Desktop → Run (ℕ × Desktop)
  window_meaning (delete window) d = done (0, window_delete window d)
  window_meaning (write window text) d =
      window_write c.depth window (c.text text) d >>= (λ d. done (0, d))
  window_meaning (clear window) d = window_clear window d >>= (λ d. done (0, d))
  window_meaning (set_text_color window color) d =
      done (0, window_set_text_color window (u8 color) d)
  window_meaning (set_background_color window color) d =
      done (0, window_set_background_color window (u8 color) d)
  window_meaning (get_text_color window) d = done (u8 (window_get_text_color d window), d)
  window_meaning (get_background_color window) d =
      done (u8 (window_get_background_color d window), d)
  window_meaning (set_cursor_pos window x y) d =
      window_set_cursor_pos c.depth window (u16 x) (u16 y) d >>= (λ d. done (0, d))
  window_meaning (get_cursor_x window) d = done (u16 (window_get_cursor_x d window), d)
  window_meaning (get_cursor_y window) d = done (u16 (window_get_cursor_y d window), d)
  window_meaning (scroll window n) d = window_scroll window (u16 n) d >>= (λ d. done (0, d))
  window_meaning (width window) d = done (u16 (window_get_width d window), d)
  window_meaning (height window) d = done (u16 (window_get_height d window), d)
  window_meaning (clear_line window n) d = window_clear_line window (u16 n) d >>= (λ d. done (0, d))
  window_meaning (set_visible window vis) d = window_set_visible window vis d >>= (λ d. done (0, d))
  window_meaning (redraw window) d = window_redraw window d >>= (λ d. done (0, d))
  window_meaning (get_x window) d = done (u16 (window_get_x d window), d)
  window_meaning (get_y window) d = done (u16 (window_get_y d window), d)
  window_meaning (restore_cursor window) d = done (0, window_restore_cursor window d)
  window_meaning (reposition window x y columns lines) d =
      window_reposition c.fresh window (u16 x) (u16 y) (u16 columns) (u16 lines) d
      >>= (λ d. done (0, d))

-- What a function of the library does: six of them ask for another one's system call.
pub asked : Call → Call
asked (delete window) = delete window
asked (write window text) = delete window
asked (clear window) = delete window
asked (set_text_color window color) = set_text_color window color
asked (set_background_color window color) = set_background_color window color
asked (get_text_color window) = get_text_color window
asked (get_background_color window) = get_background_color window
asked (set_cursor_pos window x y) = set_cursor_pos window x y
asked (get_cursor_x window) = get_cursor_x window
asked (get_cursor_y window) = get_cursor_y window
asked (scroll window n) = scroll window n
asked (width window) = get_cursor_y window
asked (height window) = get_cursor_y window
asked (clear_line window n) = clear_line window n
asked (set_visible window vis) = set_visible window vis
asked (redraw window) = redraw window
asked (get_x window) = get_y window
asked (get_y window) = get_x window
asked (restore_cursor window) = restore_cursor window
asked (reposition window x y columns lines) = reposition window x y columns lines
