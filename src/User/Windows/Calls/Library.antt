-- ===== src/User/Windows/Calls/Library.antt =====
-- What the calls of windows.h make the kernel do.
use tomat_os_old.Common.{true, false, ◌≡◌, refl, ◌∙◌, u8, u16, done, ◌>>=◌, arith}
use tomat_os_old.Kernel.{Registers}
use tomat_os_old.Drivers.Ps2.{Ports}
use tomat_os_old.Boot.Isr.{Handlers, syscall_register}
use tomat_os_old.Graphics.Machine.{Machine, Caller}
use tomat_os_old.Graphics.Window.{
  window_clear_line, window_redraw, window_reposition, window_scroll, window_set_cursor_pos,
  window_set_visible,
}
use tomat_os_old.Graphics.Terminal.Registered.{term_register_syscalls}
use tomat_os_old.Graphics.Window.Registered.{window_register_syscalls}
use tomat_os_old.Graphics.Window.Syscalls.{
  syscall_clear_line, syscall_delete, syscall_get_background_color, syscall_get_cursor_x,
  syscall_get_cursor_y, syscall_get_text_color, syscall_get_x, syscall_get_y, syscall_redraw,
  syscall_reposition, syscall_restore_cursor, syscall_scroll, syscall_set_background_color,
  syscall_set_cursor_pos, syscall_set_text_color, syscall_set_visible,
}
use tomat_os_old.User.Trap.{void_of, answer_of}
use tomat_os_old.User.Kernel.{kernel, served, acknowledge, in_front, silently_drawn, with_windows}
use tomat_os_old.User.Kinds.{
  number, syscall_window_clear_line, syscall_window_delete, syscall_window_get_background_color,
  syscall_window_get_cursor_x, syscall_window_get_cursor_y, syscall_window_get_text_color,
  syscall_window_get_x, syscall_window_get_y, syscall_window_redraw, syscall_window_reposition,
  syscall_window_restore_cursor, syscall_window_scroll, syscall_window_set_background_color,
  syscall_window_set_cursor_pos, syscall_window_set_text_color, syscall_window_set_visible,
}
use tomat_os_old.User.Windows.{
  tomato_window_clear, tomato_window_clear_line, tomato_window_delete,
  tomato_window_get_background_color, tomato_window_get_cursor_x, tomato_window_get_cursor_y,
  tomato_window_get_text_color, tomato_window_get_x, tomato_window_get_y, tomato_window_height,
  tomato_window_redraw, tomato_window_reposition, tomato_window_restore_cursor,
  tomato_window_scroll, tomato_window_set_background_color, tomato_window_set_cursor_pos,
  tomato_window_set_text_color, tomato_window_set_visible, tomato_window_width, tomato_window_write,
}
use tomat_os_old.User.Windows.Calls.{
  Call, delete, write, clear, set_text_color, set_background_color, get_text_color,
  get_background_color, set_cursor_pos, get_cursor_x, get_cursor_y, scroll, width, height,
  clear_line, set_visible, redraw, get_x, get_y, restore_cursor, reposition, window_library,
  window_meaning, asked,
}

module _ {D : Type 0} (ports : Ports D) (c : Caller)
    (syscalls handlers : Handlers (Machine D)) where
  -- A process in the foreground that calls a function of windows.h on a window makes the kernel do
  -- what the function of window.c of that name does, with the same arguments and the same result,
  -- each in its type, and the interrupt acknowledged, but for six functions: writing and clearing
  -- delete the window, its width and its height are both answered with the line of its cursor, and
  -- its two coordinates with each other's function.
  pub window_library_lem :
      (call : Call) (regs : Registers) (m : Machine D)
      → window_library (kernel ports (in_front c) syscalls handlers) call regs m ≡ (
          window_meaning c (asked call) m.terminal.desktop
          >>= (λ (value, d). done (value, acknowledge ports (with_windows d m))))
  unfolding window_library window_meaning asked term_register_syscalls window_register_syscalls
      syscall_register syscall_clear_line syscall_delete syscall_get_background_color
      syscall_get_cursor_x syscall_get_cursor_y syscall_get_text_color syscall_get_x syscall_get_y
      syscall_redraw syscall_reposition syscall_restore_cursor syscall_scroll
      syscall_set_background_color syscall_set_cursor_pos syscall_set_text_color syscall_set_visible
      tomato_window_delete tomato_window_write tomato_window_clear tomato_window_set_text_color
      tomato_window_set_background_color tomato_window_get_text_color
      tomato_window_get_background_color tomato_window_set_cursor_pos tomato_window_get_cursor_x
      tomato_window_get_cursor_y tomato_window_scroll tomato_window_width tomato_window_height
      tomato_window_clear_line tomato_window_set_visible tomato_window_redraw tomato_window_get_x
      tomato_window_get_y tomato_window_restore_cursor tomato_window_reposition
  window_library_lem (delete window) regs m = void_of (
      served ports (in_front c) syscalls handlers syscall_window_delete _
        (record regs { ebx = window }) m (omega arith) refl)
  window_library_lem (write window text) regs m = void_of (
      served ports (in_front c) syscalls handlers syscall_window_delete _
        (record regs { ebx = window; ecx = text }) m (omega arith) refl)
  window_library_lem (clear window) regs m = void_of (
      served ports (in_front c) syscalls handlers syscall_window_delete _
        (record regs { ebx = window }) m (omega arith) refl)
  window_library_lem (set_text_color window color) regs m = void_of (
      served ports (in_front c) syscalls handlers syscall_window_set_text_color _
        (record regs { ebx = window; ecx = color }) m (omega arith) refl)
  window_library_lem (set_background_color window color) regs m = void_of (
      served ports (in_front c) syscalls handlers syscall_window_set_background_color _
        (record regs { ebx = window; ecx = color }) m (omega arith) refl)
  window_library_lem (get_text_color window) regs m = answer_of u8 (
      served ports (in_front c) syscalls handlers syscall_window_get_text_color _
        (record regs { ebx = window }) m (omega arith) refl)
  window_library_lem (get_background_color window) regs m = answer_of u8 (
      served ports (in_front c) syscalls handlers syscall_window_get_background_color _
        (record regs { ebx = window }) m (omega arith) refl)
  window_library_lem (set_cursor_pos window x y) regs m =
      void_of (
        served ports (in_front c) syscalls handlers syscall_window_set_cursor_pos _
          (record regs { ebx = window; ecx = x; edx = y }) m (omega arith) refl)
      ∙ silently_drawn ports
          (window_set_cursor_pos c.depth window (u16 x) (u16 y) m.terminal.desktop)
          (record regs { ebx = window; ecx = x; edx = y }) (number syscall_window_set_cursor_pos) m
  window_library_lem (get_cursor_x window) regs m = answer_of u16 (
      served ports (in_front c) syscalls handlers syscall_window_get_cursor_x _
        (record regs { ebx = window }) m (omega arith) refl)
  window_library_lem (get_cursor_y window) regs m = answer_of u16 (
      served ports (in_front c) syscalls handlers syscall_window_get_cursor_y _
        (record regs { ebx = window }) m (omega arith) refl)
  window_library_lem (scroll window n) regs m =
      void_of (
        served ports (in_front c) syscalls handlers syscall_window_scroll _
          (record regs { ebx = window; ecx = n }) m (omega arith) refl)
      ∙ silently_drawn ports (window_scroll window (u16 n) m.terminal.desktop)
          (record regs { ebx = window; ecx = n }) (number syscall_window_scroll) m
  window_library_lem (width window) regs m = answer_of u16 (
      served ports (in_front c) syscalls handlers syscall_window_get_cursor_y _
        (record regs { ebx = window }) m (omega arith) refl)
  window_library_lem (height window) regs m = answer_of u16 (
      served ports (in_front c) syscalls handlers syscall_window_get_cursor_y _
        (record regs { ebx = window }) m (omega arith) refl)
  window_library_lem (clear_line window n) regs m =
      void_of (
        served ports (in_front c) syscalls handlers syscall_window_clear_line _
          (record regs { ebx = window; ecx = n }) m (omega arith) refl)
      ∙ silently_drawn ports (window_clear_line window (u16 n) m.terminal.desktop)
          (record regs { ebx = window; ecx = n }) (number syscall_window_clear_line) m
  window_library_lem (set_visible window true) regs m =
      void_of (
        served ports (in_front c) syscalls handlers syscall_window_set_visible _
          (record regs { ebx = window; ecx = 1 }) m (omega arith) refl)
      ∙ silently_drawn ports (window_set_visible window true m.terminal.desktop)
          (record regs { ebx = window; ecx = 1 }) (number syscall_window_set_visible) m
  window_library_lem (set_visible window false) regs m =
      void_of (
        served ports (in_front c) syscalls handlers syscall_window_set_visible _
          (record regs { ebx = window; ecx = 0 }) m (omega arith) refl)
      ∙ silently_drawn ports (window_set_visible window false m.terminal.desktop)
          (record regs { ebx = window; ecx = 0 }) (number syscall_window_set_visible) m
  window_library_lem (redraw window) regs m =
      void_of (
        served ports (in_front c) syscalls handlers syscall_window_redraw _
          (record regs { ebx = window }) m (omega arith) refl)
      ∙ silently_drawn ports (window_redraw window m.terminal.desktop)
          (record regs { ebx = window }) (number syscall_window_redraw) m
  window_library_lem (get_x window) regs m = answer_of u16 (
      served ports (in_front c) syscalls handlers syscall_window_get_y _
        (record regs { ebx = window }) m (omega arith) refl)
  window_library_lem (get_y window) regs m = answer_of u16 (
      served ports (in_front c) syscalls handlers syscall_window_get_x _
        (record regs { ebx = window }) m (omega arith) refl)
  window_library_lem (restore_cursor window) regs m = void_of (
      served ports (in_front c) syscalls handlers syscall_window_restore_cursor _
        (record regs { ebx = window }) m (omega arith) refl)
  window_library_lem (reposition window x y columns lines) regs m =
      void_of (
        served ports (in_front c) syscalls handlers syscall_window_reposition _
          (record regs { ebx = window; ecx = x; edx = y; esi = columns; edi = lines }) m
          (omega arith) refl)
      ∙ silently_drawn ports
          (window_reposition c.fresh window (u16 x) (u16 y) (u16 columns) (u16 lines)
            m.terminal.desktop)
          (record regs { ebx = window; ecx = x; edx = y; esi = columns; edi = lines })
          (number syscall_window_reposition) m
