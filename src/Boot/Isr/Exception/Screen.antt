-- ===== src/Boot/Isr/Exception/Screen.antt =====
-- The screen of an exception on the native terminal.
use tomat_os_old.Common.{
  ℕ, suc, ◌^◌, ◌<◌, ◌≡◌, refl, ap, inl, inr, true, false, ◌==◌, List, All, get_elem?, if◌then◌else◌,
  Run, done, ◌>>=◌, Bool-cases, Option-cases,
}
use tomat_os_old.Kernel.{Registers, Process, Kernel, process_get_running}
use tomat_os_old.Klibc.Strings.{Bytes, uitoa}
use tomat_os_old.Graphics.Window.Home.{tame, ends_home}
use tomat_os_old.Graphics.Terminal.{Terminal, term_write}
use tomat_os_old.Graphics.Terminal.Ready.{IsReady}
use tomat_os_old.Graphics.Terminal.Home.{
  Keeps, Keeps-runs, Keeps-bind, Keeps-same, forget, stays, term_write-Keeps, term_clear-Keeps,
  term_set_cursor_pos-Keeps, term_set_text_color-Keeps, term_set_background_color-Keeps,
}
use tomat_os_old.Boot.Isr.Messages.{
  exception_colon, new_line, error_code, nought, process_line, uid_colon, no_process, user_colon,
  registers_line, eip_colon, messages,
}
use tomat_os_old.Boot.Isr.Exception.{
  shows_code, text_at, write_number, write_field, write_message, write_code,
  kernel_exception_handler,
}
use tomat_os_old.Boot.Isr.Exception.Text.{
  all_tame, elem_tame, text_at-tame, printed, running_elem, elem-All,
}

module _ (depth num_buf : ℕ) (mem : Bytes) (placed : 0 < num_buf) where
  text-Keeps :
      (text : List ℕ) → tame false text ≡ true → Keeps false false (term_write (suc depth) text)
  text-Keeps text is_tame =
      forget false (ends_home false text) (term_write (suc depth) text)
        (term_write-Keeps text false depth is_tame)

  write_number-Keeps :
      (v : ℕ) → v < 2 ^ 32 → Keeps false false (write_number (suc depth) num_buf mem v)
  unfolding write_number
  write_number-Keeps v small =
      let (num, mem', run, printable) = printed v num_buf mem placed small in
      Keeps-same false false (write_number (suc depth) num_buf mem v)
        (term_write (suc depth) (text_at num num_buf mem'))
        (λ s.
          ap (λ r. r >>= (λ (num, mem). term_write (suc depth) (text_at num num_buf mem) s)) run)
        (text-Keeps (text_at num num_buf mem') (text_at-tame num num_buf false mem' printable))

  write_message-Keeps : (int_no : ℕ) → Keeps false false (write_message (suc depth) int_no)
  unfolding write_message all_tame tame
  write_message-Keeps int_no = elim (Option-cases (get_elem? messages int_no)) [
    | inl no_text ↦
        Keeps-same false false (write_message (suc depth) int_no) (λ s. done s)
          (λ s. rw (write_message, no_text) refl) stays
    | inr (text, found) ↦
        Keeps-same false false (write_message (suc depth) int_no) (term_write (suc depth) text)
          (λ s. rw (write_message, found) refl)
          (text-Keeps text (elem_tame messages int_no text refl found))
  ]

  write_field-Keeps :
      (field : Process → ℕ) (ps : List Process)
      → All (λ p. field p < 2 ^ 32) ps
      → Keeps false false (write_field (suc depth) num_buf mem field ps)
  unfolding write_field tame
  write_field-Keeps field ps small = elim (Option-cases (process_get_running ps)) [
    | inl no_one ↦
        Keeps-same false false (write_field (suc depth) num_buf mem field ps)
          (term_write (suc depth) no_process) (λ s. rw (write_field, no_one) refl)
          (text-Keeps no_process refl)
    | inr (i, found) ↦
        let (p, elem) = running_elem ps i found in
        Keeps-same false false (write_field (suc depth) num_buf mem field ps)
          (write_number (suc depth) num_buf mem (field p)) (λ s. rw (write_field, found, elem) refl)
          (write_number-Keeps (field p) (elem-All (λ p. field p < 2 ^ 32) ps i p small elem))
  ]

  code_number :
      (code : ℕ)
      → code < 2 ^ 32
      → Keeps false false (λ s.
        if code == 0
        then term_write (suc depth) nought s
        else write_number (suc depth) num_buf mem code s)
  unfolding tame
  code_number code small = elim (Bool-cases (code == 0)) [
    | inl zero_code ↦
        Keeps-same false false _ (term_write (suc depth) nought) (λ s. rw zero_code refl)
          (text-Keeps nought refl)
    | inr some_code ↦
        Keeps-same false false _ (write_number (suc depth) num_buf mem code)
          (λ s. rw some_code refl) (write_number-Keeps code small)
  ]

  write_code-Keeps :
      (regs : Registers)
      → regs.code < 2 ^ 32
      → Keeps false false (write_code (suc depth) num_buf mem regs)
  unfolding write_code tame
  write_code-Keeps regs small = elim (Bool-cases (shows_code regs.int_no)) [
    | inr hidden ↦
        Keeps-same false false (write_code (suc depth) num_buf mem regs) (λ s. done s)
          (λ s. rw (write_code, hidden) refl) stays
    | inl shown ↦
        let k1 =
          Keeps-bind false false false _ _ (text-Keeps error_code refl)
            (code_number regs.code small) in
        let k2 = Keeps-bind false false false _ _ k1 (text-Keeps new_line refl) in
        Keeps-same false false (write_code (suc depth) num_buf mem regs) _
          (λ s. rw (write_code, shown) refl) k2
  ]

  eip_line : (eip : ℕ) → Terminal → Run Terminal
  eip_line eip s = uitoa 34 eip num_buf 16 mem >>= (λ (num, mem).
      term_write (suc depth) eip_colon s >>= term_write (suc depth) (text_at num num_buf mem))

  eip_line-Keeps : (eip : ℕ) → eip < 2 ^ 32 → Keeps false false (eip_line eip)
  unfolding eip_line tame
  eip_line-Keeps eip small =
      let (num, mem', run, printable) = printed eip num_buf mem placed small in
      Keeps-same false false (eip_line eip) _
        (λ s.
          ap
            (λ r. r >>= (λ (num, mem).
              term_write (suc depth) eip_colon s
              >>= term_write (suc depth) (text_at num num_buf mem)))
            run)
        (Keeps-bind false false false _ _ (text-Keeps eip_colon refl)
          (text-Keeps (text_at num num_buf mem') (text_at-tame num num_buf false mem' printable)))

  -- From a ready terminal the screen of every exception is written to its end, with and without a
  -- running process, and the terminal is ready again: it writes to the native window, with the cursor
  -- on the screen. The buffer for the digits is not at 0, and the error code, the instruction pointer
  -- and the processes' uids and users are words.
  pub kernel_exception_handler-IsReady :
      (regs : Registers) (k : Kernel) (s : Terminal)
      → regs.code < 2 ^ 32
      → regs.eip < 2 ^ 32
      → All (λ p. p.uid < 2 ^ 32) k.processes
      → All (λ p. p.user < 2 ^ 32) k.processes
      → IsReady s
      → (s' : Terminal) × (kernel_exception_handler (suc depth) num_buf mem regs k s ≡ done s')
        × IsReady s'
  unfolding kernel_exception_handler eip_line tame ends_home
  kernel_exception_handler-IsReady regs k s code eip uids users ready =
      let line = text-Keeps new_line refl in
      let cursor = forget false true _ (term_set_cursor_pos-Keeps depth) in
      let k1 = Keeps-bind false false false _ _ term_clear-Keeps cursor in
      let k2 = Keeps-bind false false false _ _ k1 (term_set_background_color-Keeps 0x4) in
      let k3 = Keeps-bind false false false _ _ k2 (term_set_text_color-Keeps 0xf) in
      let k4 = Keeps-bind false false false _ _ k3 (text-Keeps exception_colon refl) in
      let k5 = Keeps-bind false false false _ _ k4 (write_message-Keeps regs.int_no) in
      let k6 = Keeps-bind false false false _ _ k5 line in
      let k7 = Keeps-bind false false false _ _ k6 (write_code-Keeps regs code) in
      let k8 = Keeps-bind false false false _ _ k7 line in
      let k9 = Keeps-bind false false false _ _ k8 (term_set_background_color-Keeps 0x0) in
      let k10 =
        Keeps-bind false false true _ _ k9 (term_write-Keeps process_line false depth refl) in
      let k11 = Keeps-bind false true false _ _ k10 (term_write-Keeps uid_colon true depth refl) in
      let k12 =
        Keeps-bind false false false _ _ k11 (write_field-Keeps (λ p. p.uid) k.processes uids) in
      let k13 = Keeps-bind false false true _ _ k12 (term_write-Keeps new_line false depth refl) in
      let k14 = Keeps-bind false true false _ _ k13 (term_write-Keeps user_colon true depth refl) in
      let k15 =
        Keeps-bind false false false _ _ k14 (write_field-Keeps (λ p. p.user) k.processes users) in
      let k16 = Keeps-bind false false false _ _ (Keeps-bind false false false _ _ k15 line) line in
      let k17 = Keeps-bind false false false _ _ k16 (text-Keeps registers_line refl) in
      let k18 = Keeps-bind false false false _ _ k17 (eip_line-Keeps regs.eip eip) in
      Keeps-runs _ false (Keeps-bind false false false _ _ k18 line) s ready
