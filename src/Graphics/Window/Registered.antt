-- ===== src/Graphics/Window/Registered.antt =====
-- TomatKernel/core/graphics/window.c, lines 276-298: the handlers of the windows in the table of system
-- calls.
use tomat_os_old.User.Kinds.{
  number, syscall_window_create, syscall_window_delete, syscall_window_write, syscall_window_clear,
  syscall_window_set_text_color, syscall_window_set_background_color, syscall_window_get_text_color,
  syscall_window_get_background_color, syscall_window_get_cursor_x, syscall_window_get_cursor_y,
  syscall_window_set_cursor_pos, syscall_window_scroll, syscall_window_width, syscall_window_height,
  syscall_window_clear_line, syscall_window_set_visible, syscall_window_redraw,
  syscall_window_get_x, syscall_window_get_y, syscall_window_restore_cursor,
  syscall_window_reposition,
}
use tomat_os_old.Boot.Isr.{Handlers, syscall_register}
use tomat_os_old.Graphics.Machine.{Machine, Caller, on_desktop}
use tomat_os_old.Graphics.Window.Syscalls.{
  syscall_clear, syscall_clear_line, syscall_create, syscall_delete, syscall_get_background_color,
  syscall_get_cursor_x, syscall_get_cursor_y, syscall_get_text_color, syscall_get_x, syscall_get_y,
  syscall_height, syscall_redraw, syscall_reposition, syscall_restore_cursor, syscall_scroll,
  syscall_set_background_color, syscall_set_cursor_pos, syscall_set_text_color, syscall_set_visible,
  syscall_width, syscall_write,
}

unfoldable pub window_register_syscalls :
    {D : Type 0} → Caller → Handlers (Machine D) → Handlers (Machine D)
window_register_syscalls c t0 =
    let t1 =
      syscall_register (number syscall_window_create)
        (on_desktop (syscall_create c.foreground c.uid c.at c.old)) t0 in
    let t2 =
      syscall_register (number syscall_window_delete) (on_desktop (syscall_delete c.foreground))
        t1 in
    let t3 =
      syscall_register (number syscall_window_write)
        (on_desktop (λ regs. syscall_write c.foreground c.depth (c.text regs.ecx) regs)) t2 in
    let t4 =
      syscall_register (number syscall_window_clear) (on_desktop (syscall_clear c.foreground)) t3 in
    let t5 =
      syscall_register (number syscall_window_set_text_color)
        (on_desktop (syscall_set_text_color c.foreground)) t4 in
    let t6 =
      syscall_register (number syscall_window_set_background_color)
        (on_desktop (syscall_set_background_color c.foreground)) t5 in
    let t7 =
      syscall_register (number syscall_window_get_text_color)
        (on_desktop (syscall_get_text_color c.foreground)) t6 in
    let t8 =
      syscall_register (number syscall_window_get_background_color)
        (on_desktop (syscall_get_background_color c.foreground)) t7 in
    let t9 =
      syscall_register (number syscall_window_get_cursor_x)
        (on_desktop (syscall_get_cursor_x c.foreground)) t8 in
    let t10 =
      syscall_register (number syscall_window_get_cursor_y)
        (on_desktop (syscall_get_cursor_y c.foreground)) t9 in
    let t11 =
      syscall_register (number syscall_window_set_cursor_pos)
        (on_desktop (syscall_set_cursor_pos c.foreground c.depth)) t10 in
    let t12 =
      syscall_register (number syscall_window_scroll) (on_desktop (syscall_scroll c.foreground))
        t11 in
    let t13 =
      syscall_register (number syscall_window_width) (on_desktop (syscall_width c.foreground))
        t12 in
    let t14 =
      syscall_register (number syscall_window_height) (on_desktop (syscall_height c.foreground))
        t13 in
    let t15 =
      syscall_register (number syscall_window_clear_line)
        (on_desktop (syscall_clear_line c.foreground)) t14 in
    let t16 =
      syscall_register (number syscall_window_set_visible)
        (on_desktop (syscall_set_visible c.foreground)) t15 in
    let t17 =
      syscall_register (number syscall_window_redraw) (on_desktop (syscall_redraw c.foreground))
        t16 in
    let t18 =
      syscall_register (number syscall_window_get_x) (on_desktop (syscall_get_x c.foreground))
        t17 in
    let t19 =
      syscall_register (number syscall_window_get_y) (on_desktop (syscall_get_y c.foreground))
        t18 in
    let t20 =
      syscall_register (number syscall_window_restore_cursor)
        (on_desktop (syscall_restore_cursor c.foreground)) t19 in
    let t21 =
      syscall_register (number syscall_window_reposition)
        (on_desktop (syscall_reposition c.foreground c.fresh)) t20 in
    t21
