-- ===== src/Drivers/Keyboard/Events.antt =====
-- What sequences of scan codes do to the key states and to the queue of the core process.
use tomat_os_old.Common.{
  ℕ, ◌≡◌, ◌≢◌, refl, sym, ◌∙◌, Bool, true, false, some, List, [], ◌∷◌, ◌++◌, ltb, ◌==◌,
  if◌then◌else◌, update, arith, Bool-cases, ==→eq, ==_of_ne, inl, inr, done,
}
use tomat_os_old.Kernel.{char, key, key_up, Event, process_get_core_process}
use tomat_os_old.Kernel.Processes.Queue.{receive_nil, receive-receive}
use tomat_os_old.Drivers.Keyboard.{
  Keyboard, keys_left_shift, keys_right_shift, is_shift_pressed, event_of, is_printable, shifted,
  handle_scancode,
}
use tomat_os_old.Drivers.Keyboard.Steps.{
  key_of, with_events, press_events, pressed, released, press_steps, release_steps, branches,
}

-- Whether a key is held down, after the scan codes `older`, the last one first: whether the last of its
-- scan codes was a press.
unfoldable pub held : (older : List ℕ) → (keycode : ℕ) → Bool
held [] keycode = false
held (b ∷ older) keycode =
    let before = held older keycode in
    if key_of b == 0 then before else if key_of b == keycode then ltb b 128 else before

-- The events of the scan code `b` that comes after `older`.
pub events_of : (older : List ℕ) → (b : ℕ) → List Event
events_of older b =
    let c = key_of b in
    let shift = is_shift_pressed (held (b ∷ older)) in
    if c == 0
    then []
    else if ltb b 128
    then event_of key c (if held older c then 1 else 0)
      ∷ (if is_printable c then event_of char (shifted shift c) 0 ∷ [] else [])
    else event_of key_up c 0 ∷ []

-- The events of scan codes one after another.
pub all_events : (older : List ℕ) → List ℕ → List Event
all_events older [] = []
all_events older (b ∷ bs) = events_of older b ++ all_events (b ∷ older) bs

pub latest_first : (older : List ℕ) → List ℕ → List ℕ
latest_first older [] = older
latest_first older (b ∷ bs) = latest_first (b ∷ older) bs

-- What one scan code does, after the scan codes `older`.
pub record Step (older : List ℕ) (b i : ℕ) (s s' : Keyboard) : Type 0 where
  pub states : (c : ℕ) → s'.key_states c ≡ held (b ∷ older) c
  pub queue : s'.kernel ≡ with_events i (events_of older b) s.kernel

held_skip : (older : List ℕ) (b c : ℕ) → key_of b ≡ 0 → held (b ∷ older) c ≡ held older c
unfolding held
held_skip older b c none_here = ground (arith, none_here)

held_key :
    (older : List ℕ) (b c : ℕ)
    → key_of b ≢ 0
    → held (b ∷ older) c ≡ (if key_of b == c then ltb b 128 else held older c)
unfolding held
held_key older b c some_key = ground (arith, some_key)

is_shift_pressed_ext :
    (f g : ℕ → Bool) → ((c : ℕ) → f c ≡ g c) → is_shift_pressed f ≡ is_shift_pressed g
unfolding is_shift_pressed
is_shift_pressed_ext f g same = rw (same keys_left_shift, same keys_right_shift) refl

ignored :
    (older : List ℕ) (b i : ℕ) (s : Keyboard)
    → ((c : ℕ) → s.key_states c ≡ held older c)
    → key_of b ≡ 0
    → Step older b i s s
unfolding events_of
ignored older b i s states none_here = record {
  states = λ c. states c ∙ sym (held_skip older b c none_here);
  queue = rw (events_of, none_here, receive_nil) refl;
}

changed :
    (older : List ℕ) (b : ℕ) (down : Bool) (key_states : ℕ → Bool)
    → ((c : ℕ) → key_states c ≡ held older c)
    → key_of b ≢ 0
    → ltb b 128 ≡ down
    → (c : ℕ) → update key_states (key_of b) down c ≡ held (b ∷ older) c
changed older b down key_states states some_key direction c =
    rw (held_key older b c some_key, direction, states c) refl

press_Step :
    (older : List ℕ) (b i : ℕ) (s : Keyboard)
    → ((c : ℕ) → s.key_states c ≡ held older c)
    → key_of b ≢ 0
    → ltb b 128 ≡ true
    → Step older b i s (pressed (key_of b) i s)
unfolding pressed events_of press_events
press_Step older b i s states some_key press =
    let now = changed older b true s.key_states states some_key press in
    record {
      states = now;
      queue =
          rw
            (
              events_of,
              ==_of_ne (key_of b) 0 some_key,
              press,
              states (key_of b),
              is_shift_pressed_ext _ _ now,
            )
            refl;
    }

release_Step :
    (older : List ℕ) (b i : ℕ) (s : Keyboard)
    → ((c : ℕ) → s.key_states c ≡ held older c)
    → key_of b ≢ 0
    → ltb b 128 ≡ false
    → Step older b i s (released (key_of b) i s)
unfolding released events_of
release_Step older b i s states some_key release = record {
  states = changed older b false s.key_states states some_key release;
  queue = rw (events_of, ==_of_ne (key_of b) 0 some_key, release) refl;
}

pub step :
    (older : List ℕ) (b i : ℕ) (s : Keyboard)
    → process_get_core_process s.kernel.processes ≡ some i
    → ((c : ℕ) → s.key_states c ≡ held older c)
    → b ≢ 128
    → (s' : Keyboard) × (handle_scancode b s ≡ done s') × Step older b i s s'
step older b i s core states inside = elim (Bool-cases (key_of b == 0)) [
  | inl unmapped ↦ (
    s,
    ground (arith, branches b s inside, unmapped),
    ignored older b i s states (==→eq _ _ unmapped),
  )
  | inr mapped ↦
      let some_key : key_of b ≢ 0 = ground (arith, mapped) in
      elim (Bool-cases (ltb b 128)) [
        | inl press ↦ (
          pressed (key_of b) i s,
          ground (arith, branches b s inside, mapped, press, press_steps (key_of b) i s core),
          press_Step older b i s states some_key press,
        )
        | inr release ↦ (
          released (key_of b) i s,
          ground (arith, branches b s inside, mapped, release, release_steps (key_of b) i s core),
          release_Step older b i s states some_key release,
        )
      ]
]

-- What scan codes one after another do, after `older`.
pub record Steps (older bs : List ℕ) (i : ℕ) (s s' : Keyboard) : Type 0 where
  pub states : (c : ℕ) → s'.key_states c ≡ held (latest_first older bs) c
  pub queue : s'.kernel ≡ with_events i (all_events older bs) s.kernel

pub none_Steps :
    (older : List ℕ) (i : ℕ) (s : Keyboard)
    → ((c : ℕ) → s.key_states c ≡ held older c)
    → Steps older [] i s s
unfolding all_events latest_first
none_Steps older i s states = record { states = states; queue = rw (all_events, receive_nil) refl }

pub next_Steps :
    (older bs : List ℕ) (b i : ℕ) (s s1 s2 : Keyboard)
    → Step older b i s s1
    → Steps (b ∷ older) bs i s1 s2
    → Steps older (b ∷ bs) i s s2
unfolding all_events latest_first
next_Steps older bs b i s s1 s2 first rest = record {
  states = rest.states;
  queue = rest.queue ∙ rw (all_events, first.queue, receive-receive) refl;
}
