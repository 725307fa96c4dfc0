-- ===== src/Drivers/Keyboard/Steps.antt =====
-- Single key presses and releases (ps2_keyboard.c, lines 29-106).
use tomat_os_old.Common.{
  ℕ, ◌-◌, ◌≡◌, ◌≢◌, refl, Bool, true, false, some, List, [], ◌∷◌, ltb, ◌==◌, if◌then◌else◌, update,
  arith, Bool-cases, inl, inr, done,
}
use tomat_os_old.Kernel.{char, key, key_up, Event, Kernel, process_get_core_process}
use tomat_os_old.Kernel.Processes.Queue.{receive, push_event-receive, receive-receive}
use tomat_os_old.Drivers.Keyboard.{
  Keyboard, scs_mapping, is_shift_pressed, event_of, key_release, is_printable, shifted, key_press,
  handle_scancode,
}

-- The key of a scan code, 0 for none; a release has bit 7 set.
unfoldable pub key_of : ℕ → ℕ
key_of b = if ltb b 128 then scs_mapping b else scs_mapping (b - 128)

-- The events `es` for the core process, at `i`.
abbrev pub with_events : ℕ → List Event → Kernel → Kernel
with_events i es k = record k { processes = receive i es k.processes }

unfoldable pub press_events : (repeated : Bool) (c typed : ℕ) → List Event
press_events repeated c typed =
    event_of key c (if repeated then 1 else 0)
    ∷ (if is_printable c then event_of char typed 0 ∷ [] else [])

unfoldable pub pressed : (c i : ℕ) → Keyboard → Keyboard
pressed c i s =
    let key_states = update s.key_states c true in
    record s {
      kernel =
          with_events i (press_events (s.key_states c) c (shifted (is_shift_pressed key_states) c))
            s.kernel;
      key_states = key_states;
    }

unfoldable pub released : (c i : ℕ) → Keyboard → Keyboard
released c i s = record s {
  kernel = with_events i (event_of key_up c 0 ∷ []) s.kernel;
  key_states = update s.key_states c false;
}

pub press_steps :
    (c i : ℕ) (s : Keyboard)
    → process_get_core_process s.kernel.processes ≡ some i
    → key_press c s ≡ done (pressed c i s)
unfolding key_press press_events pressed
press_steps c i s core = elim (Bool-cases (is_printable c)) [
  | inl shown ↦
      rw (key_press, core, shown, push_event-receive, push_event-receive, receive-receive) refl
  | inr other ↦ rw (key_press, core, other, push_event-receive) refl
]

pub release_steps :
    (c i : ℕ) (s : Keyboard)
    → process_get_core_process s.kernel.processes ≡ some i
    → key_release c s ≡ done (released c i s)
unfolding key_release released
release_steps c i s core = rw (key_release, core, push_event-receive) refl

pub branches :
    (b : ℕ) (s : Keyboard)
    → b ≢ 128
    → handle_scancode b s ≡ (
        if key_of b == 0
        then done s
        else if ltb b 128
        then key_press (key_of b) s
        else key_release (key_of b) s)
unfolding handle_scancode key_of
branches b s inside = elim (Bool-cases (ltb b 128)) [
  | inl press ↦ ground (arith, press, inside)
  | inr release ↦ ground (arith, release, inside)
]
