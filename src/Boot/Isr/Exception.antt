-- ===== src/Boot/Isr/Exception.antt =====
-- TomatKernel/boot/interrupts/isr.c, lines 21-130: the screen that an exception shows before the
-- processor halts.
mod Text
pub mod Screen
use tomat_os_old.Common.{
  ℕ, zero, suc, ◌+◌, Bool, ◌||◌, none, some, List, [], ◌∷◌, get_elem?, leb, ◌&&◌, ◌==◌,
  if◌then◌else◌, Run, done, fault, ◌>>=◌,
}
use tomat_os_old.Kernel.{Registers, Process, Kernel, process_get_running}
use tomat_os_old.Klibc.Strings.{Bytes, uitoa}
use tomat_os_old.Boot.Isr.Messages.{
  exception_colon, new_line, error_code, nought, process_line, uid_colon, no_process, user_colon,
  registers_line, eip_colon, messages,
}
use tomat_os_old.Graphics.Terminal.{
  Terminal, term_write, term_clear, term_set_text_color, term_set_background_color,
  term_set_cursor_pos,
}

abbrev color_black : ℕ
color_black = 0x0

abbrev color_red : ℕ
color_red = 0x4

abbrev color_white : ℕ
color_white = 0xf

-- The exceptions that the processor gives an error code, in the second `switch`.
shows_code : ℕ → Bool
shows_code int_no = (int_no == 0x08) || (leb 0x0A int_no && leb int_no 0x0E)

-- The `n` characters of a string.
pub text_at : (n s : ℕ) → Bytes → List ℕ
text_at zero s mem = []
text_at (suc n) s mem = mem s ∷ text_at n (s + 1) mem

-- uitoa(v, numBuf, 16); term_write(numBuf), with `mem` the memory and `num_buf` the address in it; 34
-- rounds are enough for the digits.
write_number : (depth num_buf : ℕ) → Bytes → (v : ℕ) → Terminal → Run Terminal
write_number depth num_buf mem v s =
    uitoa 34 v num_buf 16 mem >>= (λ (num, mem). term_write depth (text_at num num_buf mem) s)

-- What stands behind "UID: " and "User: ".
write_field : (depth num_buf : ℕ) → Bytes → (Process → ℕ) → List Process → Terminal → Run Terminal
write_field depth num_buf mem field ps s = elim (process_get_running ps) [
  | none ↦ term_write depth no_process s
  | some i ↦ elim (get_elem? ps i) [
    | none ↦ fault
    | some p ↦ write_number depth num_buf mem (field p) s
  ]
]

write_message : (depth int_no : ℕ) → Terminal → Run Terminal
write_message depth int_no s = elim (get_elem? messages int_no) [
  | none ↦ done s
  | some text ↦ term_write depth text s
]

write_code : (depth num_buf : ℕ) → Bytes → Registers → Terminal → Run Terminal
write_code depth num_buf mem regs s =
    let code =
      term_write depth error_code s
      >>= (λ s.
          if regs.code == 0
          then term_write depth nought s
          else write_number depth num_buf mem regs.code s)
      >>= term_write depth new_line in
    if shows_code regs.int_no then code else done s

-- The screen; behind it the processor halts for good.
pub kernel_exception_handler :
    (depth num_buf : ℕ) → Bytes → Registers → Kernel → Terminal → Run Terminal
kernel_exception_handler depth num_buf mem regs k s =
    term_clear s
    >>= term_set_cursor_pos depth 0 0
    >>= (λ s. done (term_set_background_color color_red s))
    >>= (λ s. done (term_set_text_color color_white s))
    >>= term_write depth exception_colon
    >>= write_message depth regs.int_no
    >>= term_write depth new_line
    >>= write_code depth num_buf mem regs
    >>= term_write depth new_line
    >>= (λ s. done (term_set_background_color color_black s))
    >>= term_write depth process_line
    >>= term_write depth uid_colon
    >>= write_field depth num_buf mem (λ p. p.uid) k.processes
    >>= term_write depth new_line
    >>= term_write depth user_colon
    >>= write_field depth num_buf mem (λ p. p.user) k.processes
    >>= term_write depth new_line
    >>= term_write depth new_line
    >>= term_write depth registers_line
    >>= (λ s. uitoa 34 regs.eip num_buf 16 mem >>= (λ (num, mem).
        term_write depth eip_colon s >>= term_write depth (text_at num num_buf mem)))
    >>= term_write depth new_line
