-- ===== src/User/Term/Calls.antt =====
-- A program's calls of the terminal, from the library through the interrupt 0x80 to the terminal.
use tomat_os_old.Common.{ℕ, ◌≡◌, refl, ◌∙◌, u8, u16, Run, done, ◌>>=◌, arith}
use tomat_os_old.Kernel.{Registers}
use tomat_os_old.Drivers.Ps2.{Ports}
use tomat_os_old.Boot.Isr.{RegsHandler, Handlers, syscall_register}
use tomat_os_old.Graphics.Machine.{Machine, Caller}
use tomat_os_old.Graphics.Terminal.{
  Terminal, term_clear, term_clear_line, term_current, term_get_background_color, term_get_cursor_x,
  term_get_cursor_y, term_get_height, term_get_text_color, term_get_width, term_native,
  term_redirect, term_scroll, term_set_background_color, term_set_cursor_pos, term_set_text_color,
  term_write,
}
use tomat_os_old.Graphics.Terminal.Registered.{term_register_syscalls}
use tomat_os_old.Graphics.Window.Registered.{window_register_syscalls}
use tomat_os_old.Graphics.Terminal.Syscalls.{
  syscall_clear, syscall_clear_line, syscall_current, syscall_get_background_color,
  syscall_get_cursor_x, syscall_get_cursor_y, syscall_get_text_color, syscall_height,
  syscall_native, syscall_redirect, syscall_scroll, syscall_set_background_color,
  syscall_set_cursor_pos, syscall_set_text_color, syscall_width, syscall_write,
}
use tomat_os_old.User.Trap.{void_of, answer_of, word_of}
use tomat_os_old.User.Kernel.{kernel, served, acknowledge, in_front, silently}
use tomat_os_old.User.Kinds.{
  number, syscall_term_clear, syscall_term_clear_line, syscall_term_current,
  syscall_term_get_background_color, syscall_term_get_cursor_x, syscall_term_get_cursor_y,
  syscall_term_get_text_color, syscall_term_height, syscall_term_native, syscall_term_redirect,
  syscall_term_scroll, syscall_term_set_background_color, syscall_term_set_cursor_pos,
  syscall_term_set_text_color, syscall_term_width, syscall_term_write,
}
use tomat_os_old.User.Term.{
  tomato_term_clear, tomato_term_clear_line, tomato_term_current, tomato_term_get_background_color,
  tomato_term_get_cursor_x, tomato_term_get_cursor_y, tomato_term_get_text_color,
  tomato_term_height, tomato_term_native, tomato_term_redirect, tomato_term_scroll,
  tomato_term_set_background_color, tomato_term_set_cursor_pos, tomato_term_set_text_color,
  tomato_term_width, tomato_term_write,
}

-- The functions of term.h, with their arguments.
pub data Call : Type 0 where
  write : (text : ℕ) → Call
  clear : Call
  set_text_color : (color : ℕ) → Call
  set_background_color : (color : ℕ) → Call
  get_text_color : Call
  get_background_color : Call
  set_cursor_pos : (x y : ℕ) → Call
  get_cursor_x : Call
  get_cursor_y : Call
  scroll : (n : ℕ) → Call
  width : Call
  height : Call
  clear_line : (n : ℕ) → Call
  native : Call
  current : Call
  redirect : (window : ℕ) → Call

-- The library's function; 0 stands for no result.
module _ {S : Type 0} (trap : RegsHandler S) where
  pub term_library : Call → Registers → S → Run (ℕ × S)
  term_library (write text) regs s = tomato_term_write trap text regs s >>= (λ s. done (0, s))
  term_library clear regs s = tomato_term_clear trap regs s >>= (λ s. done (0, s))
  term_library (set_text_color color) regs s =
      tomato_term_set_text_color trap color regs s >>= (λ s. done (0, s))
  term_library (set_background_color color) regs s =
      tomato_term_set_background_color trap color regs s >>= (λ s. done (0, s))
  term_library get_text_color regs s = tomato_term_get_text_color trap regs s
  term_library get_background_color regs s = tomato_term_get_background_color trap regs s
  term_library (set_cursor_pos x y) regs s =
      tomato_term_set_cursor_pos trap x y regs s >>= (λ s. done (0, s))
  term_library get_cursor_x regs s = tomato_term_get_cursor_x trap regs s
  term_library get_cursor_y regs s = tomato_term_get_cursor_y trap regs s
  term_library (scroll n) regs s = tomato_term_scroll trap n regs s >>= (λ s. done (0, s))
  term_library width regs s = tomato_term_width trap regs s
  term_library height regs s = tomato_term_height trap regs s
  term_library (clear_line n) regs s = tomato_term_clear_line trap n regs s >>= (λ s. done (0, s))
  term_library native regs s = tomato_term_native trap regs s
  term_library current regs s = tomato_term_current trap regs s
  term_library (redirect window) regs s =
      tomato_term_redirect trap window regs s >>= (λ s. done (0, s))

-- The function of term.c that a call is for, with its arguments in their types; `c` is what it reads.
module _ (c : Caller) where
  pub term_meaning : Call → Terminal → Run (ℕ × Terminal)
  term_meaning (write text) t = term_write c.depth (c.text text) t >>= (λ t. done (0, t))
  term_meaning clear t = term_clear t >>= (λ t. done (0, t))
  term_meaning (set_text_color color) t = done (0, term_set_text_color (u8 color) t)
  term_meaning (set_background_color color) t = done (0, term_set_background_color (u8 color) t)
  term_meaning get_text_color t = done (u8 (term_get_text_color t), t)
  term_meaning get_background_color t = done (u8 (term_get_background_color t), t)
  term_meaning (set_cursor_pos x y) t =
      term_set_cursor_pos c.depth (u16 x) (u16 y) t >>= (λ t. done (0, t))
  term_meaning get_cursor_x t = done (u16 (term_get_cursor_x t), t)
  term_meaning get_cursor_y t = done (u16 (term_get_cursor_y t), t)
  term_meaning (scroll n) t = term_scroll (u16 n) t >>= (λ t. done (0, t))
  term_meaning width t = done (u16 (term_get_width t), t)
  term_meaning height t = done (u16 (term_get_height t), t)
  term_meaning (clear_line n) t = term_clear_line (u16 n) t >>= (λ t. done (0, t))
  term_meaning native t = done (term_native t, t)
  term_meaning current t = done (term_current t, t)
  term_meaning (redirect window) t = done (0, (term_redirect window t).1)

module _ {D : Type 0} (ports : Ports D) (c : Caller)
    (syscalls handlers : Handlers (Machine D)) where
  -- A process in the foreground that calls a function of term.h makes the kernel do what the
  -- function of term.c of that name does, with the same arguments and the same result, each in its
  -- type, and with one acknowledgement of the interrupt; whatever the other registers hold, and
  -- whatever other system calls and interrupts are registered before.
  pub term_library_lem :
      (call : Call) (regs : Registers) (m : Machine D)
      → term_library (kernel ports (in_front c) syscalls handlers) call regs m ≡ (
          term_meaning c call m.terminal
          >>= (λ (value, t). done (value, acknowledge ports (record m { terminal = t }))))
  unfolding term_library term_meaning term_register_syscalls window_register_syscalls
      syscall_register syscall_clear syscall_clear_line syscall_current syscall_get_background_color
      syscall_get_cursor_x syscall_get_cursor_y syscall_get_text_color syscall_height syscall_native
      syscall_redirect syscall_scroll syscall_set_background_color syscall_set_cursor_pos
      syscall_set_text_color syscall_width syscall_write tomato_term_write tomato_term_clear
      tomato_term_set_text_color tomato_term_set_background_color tomato_term_get_text_color
      tomato_term_get_background_color tomato_term_set_cursor_pos tomato_term_get_cursor_x
      tomato_term_get_cursor_y tomato_term_scroll tomato_term_width tomato_term_height
      tomato_term_clear_line tomato_term_native tomato_term_current tomato_term_redirect
  term_library_lem (write text) regs m =
      void_of (
        served ports (in_front c) syscalls handlers syscall_term_write _
          (record regs { ebx = text }) m (omega arith) refl)
      ∙ silently ports (term_write c.depth (c.text text) m.terminal) (record regs { ebx = text })
          (number syscall_term_write) m
  term_library_lem clear regs m =
      void_of
        (served ports (in_front c) syscalls handlers syscall_term_clear _ regs m (omega arith) refl)
      ∙ silently ports (term_clear m.terminal) regs (number syscall_term_clear) m
  term_library_lem (set_text_color color) regs m = void_of (
      served ports (in_front c) syscalls handlers syscall_term_set_text_color _
        (record regs { ebx = color }) m (omega arith) refl)
  term_library_lem (set_background_color color) regs m = void_of (
      served ports (in_front c) syscalls handlers syscall_term_set_background_color _
        (record regs { ebx = color }) m (omega arith) refl)
  term_library_lem get_text_color regs m = answer_of u8 (
      served ports (in_front c) syscalls handlers syscall_term_get_text_color _ regs m (omega arith)
        refl)
  term_library_lem get_background_color regs m = answer_of u8 (
      served ports (in_front c) syscalls handlers syscall_term_get_background_color _ regs m
        (omega arith) refl)
  term_library_lem (set_cursor_pos x y) regs m =
      void_of (
        served ports (in_front c) syscalls handlers syscall_term_set_cursor_pos _
          (record regs { ebx = x; ecx = y }) m (omega arith) refl)
      ∙ silently ports (term_set_cursor_pos c.depth (u16 x) (u16 y) m.terminal)
          (record regs { ebx = x; ecx = y }) (number syscall_term_set_cursor_pos) m
  term_library_lem get_cursor_x regs m = answer_of u16 (
      served ports (in_front c) syscalls handlers syscall_term_get_cursor_x _ regs m (omega arith)
        refl)
  term_library_lem get_cursor_y regs m = answer_of u16 (
      served ports (in_front c) syscalls handlers syscall_term_get_cursor_y _ regs m (omega arith)
        refl)
  term_library_lem (scroll n) regs m =
      void_of (
        served ports (in_front c) syscalls handlers syscall_term_scroll _ (record regs { ebx = n })
          m (omega arith) refl)
      ∙ silently ports (term_scroll (u16 n) m.terminal) (record regs { ebx = n })
          (number syscall_term_scroll) m
  term_library_lem width regs m =
      answer_of u16
        (served ports (in_front c) syscalls handlers syscall_term_width _ regs m (omega arith) refl)
  term_library_lem height regs m =
      answer_of u16 (
        served ports (in_front c) syscalls handlers syscall_term_height _ regs m (omega arith) refl)
  term_library_lem (clear_line n) regs m =
      void_of (
        served ports (in_front c) syscalls handlers syscall_term_clear_line _
          (record regs { ebx = n }) m (omega arith) refl)
      ∙ silently ports (term_clear_line (u16 n) m.terminal) (record regs { ebx = n })
          (number syscall_term_clear_line) m
  term_library_lem native regs m =
      word_of (
        served ports (in_front c) syscalls handlers syscall_term_native _ regs m (omega arith) refl)
  term_library_lem current regs m =
      word_of (
        served ports (in_front c) syscalls handlers syscall_term_current _ regs m (omega arith)
          refl)
  term_library_lem (redirect window) regs m = void_of (
      served ports (in_front c) syscalls handlers syscall_term_redirect _
        (record regs { ebx = window }) m (omega arith) refl)
