-- ===== src/Graphics/Terminal/Registered.antt =====
-- TomatKernel/core/graphics/term.c, lines 195-213: the handlers of the terminal in the table of system
-- calls.
use tomat_os_old.User.Kinds.{
  number, syscall_term_write, syscall_term_clear, syscall_term_set_text_color,
  syscall_term_set_background_color, syscall_term_get_text_color, syscall_term_get_background_color,
  syscall_term_get_cursor_x, syscall_term_get_cursor_y, syscall_term_set_cursor_pos,
  syscall_term_scroll, syscall_term_width, syscall_term_height, syscall_term_clear_line,
  syscall_term_redirect, syscall_term_native, syscall_term_current,
}
use tomat_os_old.Boot.Isr.{Handlers, syscall_register}
use tomat_os_old.Graphics.Machine.{Machine, Caller, on_terminal}
use tomat_os_old.Graphics.Terminal.Syscalls.{
  syscall_clear, syscall_clear_line, syscall_current, syscall_get_background_color,
  syscall_get_cursor_x, syscall_get_cursor_y, syscall_get_text_color, syscall_height,
  syscall_native, syscall_redirect, syscall_scroll, syscall_set_background_color,
  syscall_set_cursor_pos, syscall_set_text_color, syscall_width, syscall_write,
}

unfoldable pub term_register_syscalls :
    {D : Type 0} → Caller → Handlers (Machine D) → Handlers (Machine D)
term_register_syscalls c t0 =
    let t1 =
      syscall_register (number syscall_term_write)
        (on_terminal (λ regs. syscall_write c.foreground c.depth (c.text regs.ebx) regs)) t0 in
    let t2 =
      syscall_register (number syscall_term_clear) (on_terminal (syscall_clear c.foreground)) t1 in
    let t3 =
      syscall_register (number syscall_term_set_text_color)
        (on_terminal (syscall_set_text_color c.foreground)) t2 in
    let t4 =
      syscall_register (number syscall_term_set_background_color)
        (on_terminal (syscall_set_background_color c.foreground)) t3 in
    let t5 =
      syscall_register (number syscall_term_get_text_color)
        (on_terminal (syscall_get_text_color c.foreground)) t4 in
    let t6 =
      syscall_register (number syscall_term_get_background_color)
        (on_terminal (syscall_get_background_color c.foreground)) t5 in
    let t7 =
      syscall_register (number syscall_term_get_cursor_x)
        (on_terminal (syscall_get_cursor_x c.foreground)) t6 in
    let t8 =
      syscall_register (number syscall_term_get_cursor_y)
        (on_terminal (syscall_get_cursor_y c.foreground)) t7 in
    let t9 =
      syscall_register (number syscall_term_set_cursor_pos)
        (on_terminal (syscall_set_cursor_pos c.foreground c.depth)) t8 in
    let t10 =
      syscall_register (number syscall_term_scroll) (on_terminal (syscall_scroll c.foreground))
        t9 in
    let t11 =
      syscall_register (number syscall_term_width) (on_terminal (syscall_width c.foreground)) t10 in
    let t12 =
      syscall_register (number syscall_term_height) (on_terminal (syscall_height c.foreground))
        t11 in
    let t13 =
      syscall_register (number syscall_term_clear_line)
        (on_terminal (syscall_clear_line c.foreground)) t12 in
    let t14 =
      syscall_register (number syscall_term_redirect) (on_terminal (syscall_redirect c.foreground))
        t13 in
    let t15 =
      syscall_register (number syscall_term_native) (on_terminal (syscall_native c.foreground))
        t14 in
    let t16 =
      syscall_register (number syscall_term_current) (on_terminal (syscall_current c.foreground))
        t15 in
    t16
