-- ===== src/Drivers/Keyboard/Interrupts.antt =====
-- The keyboard's interrupt, over and over (ps2_keyboard.c, lines 83-106).
use tomat_os_old.Common.{
  ℕ, zero, suc, ◌≡◌, ◌≢◌, refl, false, some, List, [], ◌∷◌, All, length, ==_of_ne, Run, done, ◌>>=◌,
}
use tomat_os_old.Kernel.{process_get_core_process}
use tomat_os_old.Kernel.Processes.Queue.{receive, core-receive}
use tomat_os_old.Drivers.Ps2.{Ports, ps2_read}
use tomat_os_old.Drivers.Keyboard.{Keyboard, handle_scancode, handle_keyboard_irq}
use tomat_os_old.Drivers.Keyboard.Events.{
  held, all_events, latest_first, step, Steps, none_Steps, next_Steps,
}

-- What a key sends: one byte, or 0xE0 and one byte.
pub data ScanCode : Type 0 where
  plain extended : ℕ → ScanCode

unfoldable pub bytes_of : List ScanCode → List ℕ
bytes_of [] = []
bytes_of (plain b ∷ codes) = b ∷ bytes_of codes
bytes_of (extended b ∷ codes) = 0xE0 ∷ b ∷ bytes_of codes

pub plains : List ScanCode → List ℕ
plains [] = []
plains (plain b ∷ codes) = b ∷ plains codes
plains (extended b ∷ codes) = plains codes

-- 0xE0 is no scan code of its own, and 0x80 is behind the table.
abbrev pub IsKnown : ScanCode → Type 0
IsKnown (plain b) = (b ≢ 128) × (b ≢ 0xE0)
IsKnown (extended b) = Unit

module _ {S : Type 0} (ports : Ports S) (fuel : ℕ) where
  -- The interrupt, `n` times.
  pub handle_keyboard_irqs : (n : ℕ) → S → Keyboard → Run (S × Keyboard)
  handle_keyboard_irqs zero devices s = done (devices, s)
  handle_keyboard_irqs (suc n) devices s =
      handle_keyboard_irq ports fuel devices s
      >>= (λ (devices, s). handle_keyboard_irqs n devices s)

  -- Reading the controller again and again gives these bytes.
  unfoldable pub Delivers : List ℕ → S → S → Type 0
  Delivers [] devices last = devices ≡ last
  Delivers (b ∷ bs) devices last =
      (next : S) × (ps2_read ports fuel devices ≡ done (b, next)) × Delivers bs next last

  plain_irq :
      (b : ℕ) (devices next : S) (s s1 : Keyboard)
      → ps2_read ports fuel devices ≡ done (b, next)
      → b ≢ 0xE0
      → handle_scancode b s ≡ done s1
      → handle_keyboard_irq ports fuel devices s ≡ done (next, s1)
  unfolding handle_keyboard_irq
  plain_irq b devices next s s1 read no_prefix run =
      rw (handle_keyboard_irq, read, ==_of_ne b 0xE0 no_prefix, run) refl

  extended_irq :
      (b : ℕ) (devices next last : S) (s : Keyboard)
      → ps2_read ports fuel devices ≡ done (0xE0, next)
      → ps2_read ports fuel next ≡ done (b, last)
      → handle_keyboard_irq ports fuel devices s ≡ done (last, s)
  unfolding handle_keyboard_irq
  extended_irq b devices next last s read again = rw (handle_keyboard_irq, read, again) refl

  handle_keyboard_irqs-Steps :
      (older : List ℕ) (codes : List ScanCode) (devices last : S) (i : ℕ) (s : Keyboard)
      → process_get_core_process s.kernel.processes ≡ some i
      → ((c : ℕ) → s.key_states c ≡ held older c)
      → All IsKnown codes
      → Delivers (bytes_of codes) devices last
      → (s' : Keyboard) × (handle_keyboard_irqs (length codes) devices s ≡ done (last, s'))
        × Steps older (plains codes) i s s'
  unfolding handle_keyboard_irqs plains bytes_of Delivers
  handle_keyboard_irqs-Steps older [] devices last i s core states known sent =
      (s, rw sent refl, none_Steps older i s states)
  handle_keyboard_irqs-Steps older (plain b ∷ codes) devices last i s core states
        ((inside, no_prefix), known) (next, read, sent) =
      let (s1, first, one) = step older b i s core states inside in
      let core1 : process_get_core_process s1.kernel.processes ≡ some i =
        rw (one.queue, core-receive) core in
      let (s2, rest, more) =
        handle_keyboard_irqs-Steps (b ∷ older) codes next last i s1 core1 one.states known sent in
      (
        s2,
        rw (plain_irq b devices next s s1 read no_prefix first) rest,
        next_Steps older (plains codes) b i s s1 s2 one more,
      )
  handle_keyboard_irqs-Steps older (extended b ∷ codes) devices last i s core states (_, known)
        (next, read, (third, again, sent)) =
      let (s2, rest, more) =
        handle_keyboard_irqs-Steps older codes third last i s core states known sent in
      (s2, rw (extended_irq b devices next third s read again) rest, more)

  -- With a living core process and no key held down, let the controller deliver scan codes one after
  -- another, each a byte, other than 0x80 and 0xE0, or 0xE0 and a byte. Then one interrupt for each of
  -- them returns and reads its bytes, those behind 0xE0 change nothing, and for the others: a key is
  -- held down in `key_states` exactly when the last of its scan codes was a press; and the queue of the
  -- core process has grown by the events of the scan codes, in order: a KEY event for a press, that
  -- says whether the key was held down before, a CHAR event behind it if the key is printable, with the
  -- shifted character if a shift key is held down, and a KEY_UP event for a release. Nothing else
  -- changes.
  pub handle_keyboard_irqs_lem :
      (codes : List ScanCode) (devices last : S) (i : ℕ) (s : Keyboard)
      → process_get_core_process s.kernel.processes ≡ some i
      → ((c : ℕ) → s.key_states c ≡ false)
      → All IsKnown codes
      → Delivers (bytes_of codes) devices last
      → (s' : Keyboard) × (handle_keyboard_irqs (length codes) devices s ≡ done (last, s'))
        × ((c : ℕ) → s'.key_states c ≡ held (latest_first [] (plains codes)) c)
        × (s'.kernel ≡ record s.kernel {
          processes = receive i (all_events [] (plains codes)) s.kernel.processes;
        })
  unfolding held
  handle_keyboard_irqs_lem codes devices last i s core up known sent =
      let (s', run, both) =
        handle_keyboard_irqs-Steps [] codes devices last i s core up known sent in
      (s', run, both.states, both.queue)
