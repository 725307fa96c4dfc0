-- ===== src/User/Windows.antt =====
-- TomatLib/tomato/windows.h: a program's calls of the windows. Arguments are values of their C types;
-- a text is an address.
pub mod Calls
pub mod Create
use tomat_os_old.Common.{ℕ, Bool, if◌then◌else◌, u16, u8, Run, ◌>>=◌, done}
use tomat_os_old.Kernel.{Registers}
use tomat_os_old.User.Kinds.{
  syscall_window_clear_line, syscall_window_create, syscall_window_delete,
  syscall_window_get_background_color, syscall_window_get_cursor_x, syscall_window_get_cursor_y,
  syscall_window_get_text_color, syscall_window_get_x, syscall_window_get_y, syscall_window_redraw,
  syscall_window_reposition, syscall_window_restore_cursor, syscall_window_scroll,
  syscall_window_set_background_color, syscall_window_set_cursor_pos, syscall_window_set_text_color,
  syscall_window_set_visible,
}
use tomat_os_old.User.Trap.{request, ask, int_80}
use tomat_os_old.Boot.Isr.{RegsHandler}

module _ {S : Type 0} (trap : RegsHandler S) where
  -- The second call finds in `ecx` what the registers hold then, `later`.
  pub tomato_window_create :
      (parent x y width height : ℕ) (vis : Bool) (later : Registers) → Registers → S → Run (ℕ × S)
  tomato_window_create parent x y width height vis later regs s =
      int_80 trap syscall_window_create
        (record regs { ebx = parent; ecx = x; edx = y; esi = width; edi = height }) s
      >>= (λ (window, s).
          request trap syscall_window_set_visible (record later { ebx = if vis then 1 else 0 }) s
          >>= (λ s. done (window, s)))

  pub tomato_window_delete : (window : ℕ) → Registers → S → Run S
  tomato_window_delete window regs s =
      request trap syscall_window_delete (record regs { ebx = window }) s

  pub tomato_window_write : (window text : ℕ) → Registers → S → Run S
  tomato_window_write window text regs s =
      request trap syscall_window_delete (record regs { ebx = window; ecx = text }) s

  pub tomato_window_clear : (window : ℕ) → Registers → S → Run S
  tomato_window_clear window regs s =
      request trap syscall_window_delete (record regs { ebx = window }) s

  pub tomato_window_set_text_color : (window color : ℕ) → Registers → S → Run S
  tomato_window_set_text_color window color regs s =
      request trap syscall_window_set_text_color (record regs { ebx = window; ecx = color }) s

  pub tomato_window_set_background_color : (window color : ℕ) → Registers → S → Run S
  tomato_window_set_background_color window color regs s =
      request trap syscall_window_set_background_color (record regs { ebx = window; ecx = color }) s

  pub tomato_window_get_text_color : (window : ℕ) → Registers → S → Run (ℕ × S)
  tomato_window_get_text_color window regs s =
      ask trap syscall_window_get_text_color u8 (record regs { ebx = window }) s

  pub tomato_window_get_background_color : (window : ℕ) → Registers → S → Run (ℕ × S)
  tomato_window_get_background_color window regs s =
      ask trap syscall_window_get_background_color u8 (record regs { ebx = window }) s

  pub tomato_window_set_cursor_pos : (window x y : ℕ) → Registers → S → Run S
  tomato_window_set_cursor_pos window x y regs s =
      request trap syscall_window_set_cursor_pos (record regs { ebx = window; ecx = x; edx = y }) s

  pub tomato_window_get_cursor_x : (window : ℕ) → Registers → S → Run (ℕ × S)
  tomato_window_get_cursor_x window regs s =
      ask trap syscall_window_get_cursor_x u16 (record regs { ebx = window }) s

  pub tomato_window_get_cursor_y : (window : ℕ) → Registers → S → Run (ℕ × S)
  tomato_window_get_cursor_y window regs s =
      ask trap syscall_window_get_cursor_y u16 (record regs { ebx = window }) s

  pub tomato_window_scroll : (window n : ℕ) → Registers → S → Run S
  tomato_window_scroll window n regs s =
      request trap syscall_window_scroll (record regs { ebx = window; ecx = n }) s

  pub tomato_window_width : (window : ℕ) → Registers → S → Run (ℕ × S)
  tomato_window_width window regs s =
      ask trap syscall_window_get_cursor_y u16 (record regs { ebx = window }) s

  pub tomato_window_height : (window : ℕ) → Registers → S → Run (ℕ × S)
  tomato_window_height window regs s =
      ask trap syscall_window_get_cursor_y u16 (record regs { ebx = window }) s

  pub tomato_window_clear_line : (window n : ℕ) → Registers → S → Run S
  tomato_window_clear_line window n regs s =
      request trap syscall_window_clear_line (record regs { ebx = window; ecx = n }) s

  pub tomato_window_set_visible : (window : ℕ) (vis : Bool) → Registers → S → Run S
  tomato_window_set_visible window vis regs s =
      request trap syscall_window_set_visible
        (record regs { ebx = window; ecx = if vis then 1 else 0 }) s

  pub tomato_window_redraw : (window : ℕ) → Registers → S → Run S
  tomato_window_redraw window regs s =
      request trap syscall_window_redraw (record regs { ebx = window }) s

  pub tomato_window_get_x : (window : ℕ) → Registers → S → Run (ℕ × S)
  tomato_window_get_x window regs s =
      ask trap syscall_window_get_y u16 (record regs { ebx = window }) s

  pub tomato_window_get_y : (window : ℕ) → Registers → S → Run (ℕ × S)
  tomato_window_get_y window regs s =
      ask trap syscall_window_get_x u16 (record regs { ebx = window }) s

  pub tomato_window_restore_cursor : (window : ℕ) → Registers → S → Run S
  tomato_window_restore_cursor window regs s =
      request trap syscall_window_restore_cursor (record regs { ebx = window }) s

  pub tomato_window_reposition : (window x y width height : ℕ) → Registers → S → Run S
  tomato_window_reposition window x y width height regs s =
      request trap syscall_window_reposition
        (record regs { ebx = window; ecx = x; edx = y; esi = width; edi = height }) s
