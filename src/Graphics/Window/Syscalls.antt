-- ===== src/Graphics/Window/Syscalls.antt =====
-- TomatKernel/core/graphics/window.c, lines 19-274: the system calls of the windows. Each takes
-- whether the running process is in the foreground, and returns the registers and the windows.
use tomat_os_old.Common.{
  ℕ, ◌≡◌, refl, ◌⊎◌, inl, inr, Bool, true, false, not, List, ◌==◌, if◌then◌else◌, u8, u16, Run,
  done, ◌>>=◌,
}
use tomat_os_old.Kernel.{Registers}
use tomat_os_old.Graphics.Window.{
  Cell, Window, Desktop, set_window, window_create, window_delete, window_write, window_clear,
  window_set_text_color, window_set_background_color, window_set_cursor_pos, window_scroll,
  window_clear_line, window_set_visible, window_redraw, window_restore_cursor, window_reposition,
  window_get_text_color, window_get_background_color, window_get_cursor_x, window_get_cursor_y,
  window_get_width, window_get_height, window_get_x, window_get_y,
}

abbrev pub Result : Type 0
Result = Run (Registers × Desktop)

-- A call that answers nothing.
abbrev pub silent : Registers → Run Desktop → Result
silent regs r = r >>= (λ d. done (regs, d))

-- A call that answers in `eax`.
abbrev pub answer : (foreground : Bool) → Registers → ℕ → Desktop → Result
answer foreground regs value d = done (record regs { eax = if foreground then value else 0 }, d)

-- `uid` is the running process's; `at` and `old` as in `window_create`.
unfoldable pub syscall_create :
    (foreground : Bool) (uid at : ℕ) → Window → Registers → Desktop → Result
syscall_create foreground uid at old regs d =
    let d' =
      window_create at old regs.ebx (u16 regs.ecx) (u16 regs.edx) (u16 regs.esi) (u16 regs.edi) true
        d in
    if foreground
    then done (record regs { eax = at }, set_window at (record (d'.window at) { uid = uid }) d')
    else done (record regs { eax = 0 }, d)

-- `text` is what `ecx` points at.
unfoldable pub syscall_write :
    (foreground : Bool) (depth : ℕ) → List ℕ → Registers → Desktop → Result
syscall_write foreground depth text regs d =
    if foreground then silent regs (window_write depth regs.ebx text d) else done (regs, d)

unfoldable pub syscall_set_cursor_pos :
    (foreground : Bool) (depth : ℕ) → Registers → Desktop → Result
syscall_set_cursor_pos foreground depth regs d =
    if foreground
    then silent regs (window_set_cursor_pos depth regs.ebx (u16 regs.ecx) (u16 regs.edx) d)
    else done (regs, d)

unfoldable pub syscall_reposition : (foreground : Bool) → (ℕ → Cell) → Registers → Desktop → Result
syscall_reposition foreground fresh regs d =
    if foreground
    then silent regs (
        window_reposition fresh regs.ebx (u16 regs.ecx) (u16 regs.edx) (u16 regs.esi) (u16 regs.edi)
          d)
    else done (regs, d)

unfoldable pub syscall_delete : (foreground : Bool) → Registers → Desktop → Result
syscall_delete foreground regs d =
    if foreground then done (regs, window_delete regs.ebx d) else done (regs, d)

unfoldable pub syscall_clear : (foreground : Bool) → Registers → Desktop → Result
syscall_clear foreground regs d =
    if foreground then silent regs (window_clear regs.ebx d) else done (regs, d)

unfoldable pub syscall_set_text_color : (foreground : Bool) → Registers → Desktop → Result
syscall_set_text_color foreground regs d =
    if foreground
    then done (regs, window_set_text_color regs.ebx (u8 regs.ecx) d)
    else done (regs, d)

unfoldable pub syscall_set_background_color : (foreground : Bool) → Registers → Desktop → Result
syscall_set_background_color foreground regs d =
    if foreground
    then done (regs, window_set_background_color regs.ebx (u8 regs.ecx) d)
    else done (regs, d)

unfoldable pub syscall_scroll : (foreground : Bool) → Registers → Desktop → Result
syscall_scroll foreground regs d =
    if foreground then silent regs (window_scroll regs.ebx (u16 regs.ecx) d) else done (regs, d)

unfoldable pub syscall_clear_line : (foreground : Bool) → Registers → Desktop → Result
syscall_clear_line foreground regs d =
    if foreground then silent regs (window_clear_line regs.ebx (u16 regs.ecx) d) else done (regs, d)

unfoldable pub syscall_set_visible : (foreground : Bool) → Registers → Desktop → Result
syscall_set_visible foreground regs d =
    if foreground
    then silent regs (window_set_visible regs.ebx (not (regs.ecx == 0)) d)
    else done (regs, d)

unfoldable pub syscall_redraw : (foreground : Bool) → Registers → Desktop → Result
syscall_redraw foreground regs d =
    if foreground then silent regs (window_redraw regs.ebx d) else done (regs, d)

unfoldable pub syscall_restore_cursor : (foreground : Bool) → Registers → Desktop → Result
syscall_restore_cursor foreground regs d =
    if foreground then done (regs, window_restore_cursor regs.ebx d) else done (regs, d)

unfoldable pub syscall_get_text_color : (foreground : Bool) → Registers → Desktop → Result
syscall_get_text_color foreground regs d =
    answer foreground regs (window_get_text_color d regs.ebx) d

unfoldable pub syscall_get_background_color : (foreground : Bool) → Registers → Desktop → Result
syscall_get_background_color foreground regs d =
    answer foreground regs (window_get_background_color d regs.ebx) d

unfoldable pub syscall_get_cursor_x : (foreground : Bool) → Registers → Desktop → Result
syscall_get_cursor_x foreground regs d = answer foreground regs (window_get_cursor_x d regs.ebx) d

unfoldable pub syscall_get_cursor_y : (foreground : Bool) → Registers → Desktop → Result
syscall_get_cursor_y foreground regs d = answer foreground regs (window_get_cursor_y d regs.ebx) d

unfoldable pub syscall_width : (foreground : Bool) → Registers → Desktop → Result
syscall_width foreground regs d = answer foreground regs (window_get_width d regs.ebx) d

unfoldable pub syscall_height : (foreground : Bool) → Registers → Desktop → Result
syscall_height foreground regs d = answer foreground regs (window_get_height d regs.ebx) d

unfoldable pub syscall_get_x : (foreground : Bool) → Registers → Desktop → Result
syscall_get_x foreground regs d = answer foreground regs (window_get_x d regs.ebx) d

unfoldable pub syscall_get_y : (foreground : Bool) → Registers → Desktop → Result
syscall_get_y foreground regs d = answer foreground regs (window_get_y d regs.ebx) d

-- The system calls of `window_register_syscalls`, with what each takes from outside of the registers.
pub data Call : Type 0 where
  create : (uid at : ℕ) → Window → Call
  write : (depth : ℕ) → List ℕ → Call
  set_cursor_pos : (depth : ℕ) → Call
  reposition : (ℕ → Cell) → Call
  delete clear set_text_color set_background_color scroll clear_line set_visible redraw
        restore_cursor get_text_color get_background_color get_cursor_x get_cursor_y width height
        get_x get_y :
      Call

-- The handlers that `window_register_syscalls` enters.
pub window_syscall : Call → (foreground : Bool) → Registers → Desktop → Result
window_syscall (create uid at old) foreground regs d = syscall_create foreground uid at old regs d
window_syscall (write depth text) foreground regs d = syscall_write foreground depth text regs d
window_syscall (set_cursor_pos depth) foreground regs d =
    syscall_set_cursor_pos foreground depth regs d
window_syscall (reposition fresh) foreground regs d = syscall_reposition foreground fresh regs d
window_syscall delete foreground regs d = syscall_delete foreground regs d
window_syscall clear foreground regs d = syscall_clear foreground regs d
window_syscall set_text_color foreground regs d = syscall_set_text_color foreground regs d
window_syscall set_background_color foreground regs d =
    syscall_set_background_color foreground regs d
window_syscall scroll foreground regs d = syscall_scroll foreground regs d
window_syscall clear_line foreground regs d = syscall_clear_line foreground regs d
window_syscall set_visible foreground regs d = syscall_set_visible foreground regs d
window_syscall redraw foreground regs d = syscall_redraw foreground regs d
window_syscall restore_cursor foreground regs d = syscall_restore_cursor foreground regs d
window_syscall get_text_color foreground regs d = syscall_get_text_color foreground regs d
window_syscall get_background_color foreground regs d =
    syscall_get_background_color foreground regs d
window_syscall get_cursor_x foreground regs d = syscall_get_cursor_x foreground regs d
window_syscall get_cursor_y foreground regs d = syscall_get_cursor_y foreground regs d
window_syscall width foreground regs d = syscall_width foreground regs d
window_syscall height foreground regs d = syscall_height foreground regs d
window_syscall get_x foreground regs d = syscall_get_x foreground regs d
window_syscall get_y foreground regs d = syscall_get_y foreground regs d

-- A process in the background changes no window: its system call returns the windows as they were,
-- and the registers as they were but for an `eax` that may be 0.
background-unchanged :
    (call : Call) (regs : Registers) (d : Desktop)
    → (a : ℕ) × (window_syscall call false regs d ≡ done (record regs { eax = a }, d))
      × ((a ≡ 0) ⊎ (a ≡ regs.eax))
unfolding window_syscall syscall_create syscall_write syscall_set_cursor_pos syscall_reposition
    syscall_delete syscall_clear syscall_set_text_color syscall_set_background_color syscall_scroll
    syscall_clear_line syscall_set_visible syscall_redraw syscall_restore_cursor
    syscall_get_text_color syscall_get_background_color syscall_get_cursor_x syscall_get_cursor_y
    syscall_width syscall_height syscall_get_x syscall_get_y
background-unchanged (create uid at old) regs d = (0, refl, inl refl)
background-unchanged (write depth text) regs d = (regs.eax, refl, inr refl)
background-unchanged (set_cursor_pos depth) regs d = (regs.eax, refl, inr refl)
background-unchanged (reposition fresh) regs d = (regs.eax, refl, inr refl)
background-unchanged delete regs d = (regs.eax, refl, inr refl)
background-unchanged clear regs d = (regs.eax, refl, inr refl)
background-unchanged set_text_color regs d = (regs.eax, refl, inr refl)
background-unchanged set_background_color regs d = (regs.eax, refl, inr refl)
background-unchanged scroll regs d = (regs.eax, refl, inr refl)
background-unchanged clear_line regs d = (regs.eax, refl, inr refl)
background-unchanged set_visible regs d = (regs.eax, refl, inr refl)
background-unchanged redraw regs d = (regs.eax, refl, inr refl)
background-unchanged restore_cursor regs d = (regs.eax, refl, inr refl)
background-unchanged get_text_color regs d = (0, refl, inl refl)
background-unchanged get_background_color regs d = (0, refl, inl refl)
background-unchanged get_cursor_x regs d = (0, refl, inl refl)
background-unchanged get_cursor_y regs d = (0, refl, inl refl)
background-unchanged width regs d = (0, refl, inl refl)
background-unchanged height regs d = (0, refl, inl refl)
background-unchanged get_x regs d = (0, refl, inl refl)
background-unchanged get_y regs d = (0, refl, inl refl)
