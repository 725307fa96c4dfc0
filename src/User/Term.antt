-- ===== src/User/Term.antt =====
-- TomatLib/tomato/term.h: a program's calls of the terminal. Arguments are values of their C types; a
-- text is an address.
pub mod Calls
use tomat_os_old.Common.{ℕ, u16, u8, Run}
use tomat_os_old.Kernel.{Registers}
use tomat_os_old.User.Kinds.{
  syscall_term_clear, syscall_term_clear_line, syscall_term_current,
  syscall_term_get_background_color, syscall_term_get_cursor_x, syscall_term_get_cursor_y,
  syscall_term_get_text_color, syscall_term_height, syscall_term_native, syscall_term_redirect,
  syscall_term_scroll, syscall_term_set_background_color, syscall_term_set_cursor_pos,
  syscall_term_set_text_color, syscall_term_width, syscall_term_write,
}
use tomat_os_old.User.Trap.{request, ask, int_80}
use tomat_os_old.Boot.Isr.{RegsHandler}

module _ {S : Type 0} (trap : RegsHandler S) where
  pub tomato_term_write : (text : ℕ) → Registers → S → Run S
  tomato_term_write text regs s = request trap syscall_term_write (record regs { ebx = text }) s

  pub tomato_term_clear : Registers → S → Run S
  tomato_term_clear regs s = request trap syscall_term_clear regs s

  pub tomato_term_set_text_color : (color : ℕ) → Registers → S → Run S
  tomato_term_set_text_color color regs s =
      request trap syscall_term_set_text_color (record regs { ebx = color }) s

  pub tomato_term_set_background_color : (color : ℕ) → Registers → S → Run S
  tomato_term_set_background_color color regs s =
      request trap syscall_term_set_background_color (record regs { ebx = color }) s

  pub tomato_term_get_text_color : Registers → S → Run (ℕ × S)
  tomato_term_get_text_color regs s = ask trap syscall_term_get_text_color u8 regs s

  pub tomato_term_get_background_color : Registers → S → Run (ℕ × S)
  tomato_term_get_background_color regs s = ask trap syscall_term_get_background_color u8 regs s

  pub tomato_term_set_cursor_pos : (x y : ℕ) → Registers → S → Run S
  tomato_term_set_cursor_pos x y regs s =
      request trap syscall_term_set_cursor_pos (record regs { ebx = x; ecx = y }) s

  pub tomato_term_get_cursor_x : Registers → S → Run (ℕ × S)
  tomato_term_get_cursor_x regs s = ask trap syscall_term_get_cursor_x u16 regs s

  pub tomato_term_get_cursor_y : Registers → S → Run (ℕ × S)
  tomato_term_get_cursor_y regs s = ask trap syscall_term_get_cursor_y u16 regs s

  pub tomato_term_scroll : (n : ℕ) → Registers → S → Run S
  tomato_term_scroll n regs s = request trap syscall_term_scroll (record regs { ebx = n }) s

  pub tomato_term_width : Registers → S → Run (ℕ × S)
  tomato_term_width regs s = ask trap syscall_term_width u16 regs s

  pub tomato_term_height : Registers → S → Run (ℕ × S)
  tomato_term_height regs s = ask trap syscall_term_height u16 regs s

  pub tomato_term_clear_line : (n : ℕ) → Registers → S → Run S
  tomato_term_clear_line n regs s = request trap syscall_term_clear_line (record regs { ebx = n }) s

  pub tomato_term_native : Registers → S → Run (ℕ × S)
  tomato_term_native regs s = int_80 trap syscall_term_native regs s

  pub tomato_term_current : Registers → S → Run (ℕ × S)
  tomato_term_current regs s = int_80 trap syscall_term_current regs s

  pub tomato_term_redirect : (window : ℕ) → Registers → S → Run S
  tomato_term_redirect window regs s =
      request trap syscall_term_redirect (record regs { ebx = window }) s
