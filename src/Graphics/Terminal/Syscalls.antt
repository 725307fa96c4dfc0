-- ===== src/Graphics/Terminal/Syscalls.antt =====
-- TomatKernel/core/graphics/term.c, lines 22-193: the system calls of the terminal. Each takes whether
-- the running process is in the foreground, and returns the registers and the terminal.
use tomat_os_old.Common.{
  ℕ, ◌≡◌, refl, ◌⊎◌, inl, inr, Bool, false, List, if◌then◌else◌, u8, u16, Run, done, ◌>>=◌,
}
use tomat_os_old.Kernel.{Registers}
use tomat_os_old.Graphics.Terminal.{
  Terminal, term_write, term_clear, term_set_text_color, term_set_background_color,
  term_get_text_color, term_get_background_color, term_set_cursor_pos, term_get_cursor_x,
  term_get_cursor_y, term_get_width, term_get_height, term_scroll, term_clear_line, term_redirect,
  term_current, term_native,
}

abbrev pub Result : Type 0
Result = Run (Registers × Terminal)

-- A call that answers nothing.
abbrev silent : Registers → Run Terminal → Result
silent regs r = r >>= (λ s. done (regs, s))

-- A call that answers in `eax`.
abbrev answer : (foreground : Bool) → Registers → ℕ → Terminal → Result
answer foreground regs value s = done (record regs { eax = if foreground then value else 0 }, s)

-- `text` is what `ebx` points at.
unfoldable pub syscall_write :
    (foreground : Bool) (depth : ℕ) → List ℕ → Registers → Terminal → Result
syscall_write foreground depth text regs s =
    if foreground then silent regs (term_write depth text s) else done (regs, s)

unfoldable pub syscall_clear : (foreground : Bool) → Registers → Terminal → Result
syscall_clear foreground regs s = if foreground then silent regs (term_clear s) else done (regs, s)

unfoldable pub syscall_set_text_color : (foreground : Bool) → Registers → Terminal → Result
syscall_set_text_color foreground regs s =
    if foreground then done (regs, term_set_text_color (u8 regs.ebx) s) else done (regs, s)

unfoldable pub syscall_set_background_color : (foreground : Bool) → Registers → Terminal → Result
syscall_set_background_color foreground regs s =
    if foreground then done (regs, term_set_background_color (u8 regs.ebx) s) else done (regs, s)

unfoldable pub syscall_set_cursor_pos :
    (foreground : Bool) (depth : ℕ) → Registers → Terminal → Result
syscall_set_cursor_pos foreground depth regs s =
    if foreground
    then silent regs (term_set_cursor_pos depth (u16 regs.ebx) (u16 regs.ecx) s)
    else done (regs, s)

unfoldable pub syscall_scroll : (foreground : Bool) → Registers → Terminal → Result
syscall_scroll foreground regs s =
    if foreground then silent regs (term_scroll (u16 regs.ebx) s) else done (regs, s)

unfoldable pub syscall_clear_line : (foreground : Bool) → Registers → Terminal → Result
syscall_clear_line foreground regs s =
    if foreground then silent regs (term_clear_line (u16 regs.ebx) s) else done (regs, s)

unfoldable pub syscall_redirect : (foreground : Bool) → Registers → Terminal → Result
syscall_redirect foreground regs s =
    let (old, s') = term_redirect regs.ebx s in
    if foreground then done (record regs { eax = old }, s') else done (record regs { eax = 0 }, s)

unfoldable pub syscall_get_text_color : (foreground : Bool) → Registers → Terminal → Result
syscall_get_text_color foreground regs s = answer foreground regs (term_get_text_color s) s

unfoldable pub syscall_get_background_color : (foreground : Bool) → Registers → Terminal → Result
syscall_get_background_color foreground regs s =
    answer foreground regs (term_get_background_color s) s

unfoldable pub syscall_get_cursor_x : (foreground : Bool) → Registers → Terminal → Result
syscall_get_cursor_x foreground regs s = answer foreground regs (term_get_cursor_x s) s

unfoldable pub syscall_get_cursor_y : (foreground : Bool) → Registers → Terminal → Result
syscall_get_cursor_y foreground regs s = answer foreground regs (term_get_cursor_y s) s

unfoldable pub syscall_width : (foreground : Bool) → Registers → Terminal → Result
syscall_width foreground regs s = answer foreground regs (term_get_width s) s

unfoldable pub syscall_height : (foreground : Bool) → Registers → Terminal → Result
syscall_height foreground regs s = answer foreground regs (term_get_height s) s

unfoldable pub syscall_native : (foreground : Bool) → Registers → Terminal → Result
syscall_native foreground regs s = answer foreground regs (term_native s) s

unfoldable pub syscall_current : (foreground : Bool) → Registers → Terminal → Result
syscall_current foreground regs s = answer foreground regs (term_current s) s

-- The system calls of `term_register_syscalls`, with what each takes from outside of the registers.
pub data Call : Type 0 where
  write : (depth : ℕ) → List ℕ → Call
  set_cursor_pos : (depth : ℕ) → Call
  clear set_text_color set_background_color scroll clear_line redirect get_text_color
        get_background_color get_cursor_x get_cursor_y width height native current :
      Call

-- The handlers that `term_register_syscalls` enters.
pub term_syscall : Call → (foreground : Bool) → Registers → Terminal → Result
term_syscall (write depth text) foreground regs s = syscall_write foreground depth text regs s
term_syscall (set_cursor_pos depth) foreground regs s =
    syscall_set_cursor_pos foreground depth regs s
term_syscall clear foreground regs s = syscall_clear foreground regs s
term_syscall set_text_color foreground regs s = syscall_set_text_color foreground regs s
term_syscall set_background_color foreground regs s = syscall_set_background_color foreground regs s
term_syscall scroll foreground regs s = syscall_scroll foreground regs s
term_syscall clear_line foreground regs s = syscall_clear_line foreground regs s
term_syscall redirect foreground regs s = syscall_redirect foreground regs s
term_syscall get_text_color foreground regs s = syscall_get_text_color foreground regs s
term_syscall get_background_color foreground regs s = syscall_get_background_color foreground regs s
term_syscall get_cursor_x foreground regs s = syscall_get_cursor_x foreground regs s
term_syscall get_cursor_y foreground regs s = syscall_get_cursor_y foreground regs s
term_syscall width foreground regs s = syscall_width foreground regs s
term_syscall height foreground regs s = syscall_height foreground regs s
term_syscall native foreground regs s = syscall_native foreground regs s
term_syscall current foreground regs s = syscall_current foreground regs s

-- A process in the background changes neither a window nor where the terminal writes: its system call
-- returns the terminal as it was, and the registers as they were but for an `eax` that may be 0.
terminal-unchanged :
    (call : Call) (regs : Registers) (s : Terminal)
    → (a : ℕ) × (term_syscall call false regs s ≡ done (record regs { eax = a }, s))
      × ((a ≡ 0) ⊎ (a ≡ regs.eax))
unfolding term_syscall syscall_write syscall_set_cursor_pos syscall_clear syscall_set_text_color
    syscall_set_background_color syscall_scroll syscall_clear_line syscall_redirect
    syscall_get_text_color syscall_get_background_color syscall_get_cursor_x syscall_get_cursor_y
    syscall_width syscall_height syscall_native syscall_current
terminal-unchanged (write depth text) regs s = (regs.eax, refl, inr refl)
terminal-unchanged (set_cursor_pos depth) regs s = (regs.eax, refl, inr refl)
terminal-unchanged clear regs s = (regs.eax, refl, inr refl)
terminal-unchanged set_text_color regs s = (regs.eax, refl, inr refl)
terminal-unchanged set_background_color regs s = (regs.eax, refl, inr refl)
terminal-unchanged scroll regs s = (regs.eax, refl, inr refl)
terminal-unchanged clear_line regs s = (regs.eax, refl, inr refl)
terminal-unchanged redirect regs s = (0, refl, inl refl)
terminal-unchanged get_text_color regs s = (0, refl, inl refl)
terminal-unchanged get_background_color regs s = (0, refl, inl refl)
terminal-unchanged get_cursor_x regs s = (0, refl, inl refl)
terminal-unchanged get_cursor_y regs s = (0, refl, inl refl)
terminal-unchanged width regs s = (0, refl, inl refl)
terminal-unchanged height regs s = (0, refl, inl refl)
terminal-unchanged native regs s = (0, refl, inl refl)
terminal-unchanged current regs s = (0, refl, inl refl)
