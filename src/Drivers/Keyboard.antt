-- ===== src/Drivers/Keyboard.antt =====
-- TomatKernel/core/drivers/ps2_keyboard.h and ps2_keyboard.c: the keyboard.
pub mod Mapping
pub mod Steps
pub mod Events
pub mod Interrupts
pub mod Ready
mod Tests
use tomat_os_old.Common.{
  ℕ, ◌-◌, Bool, true, false, not, ◌&&◌, ◌||◌, Option, none, some, List, [], ◌∷◌, ltb, leb, ◌==◌,
  if◌then◌else◌, update, Run, done, panic, fault, ◌>>=◌,
}
use tomat_os_old.Kernel.{EventType, char, key, key_up, Event, Kernel, process_get_core_process}
use tomat_os_old.Kernel.Processes.{push_event}
use tomat_os_old.Drivers.Ps2.{Ports, ps2_read}

abbrev pub scancode_max : ℕ
scancode_max = 0x80

abbrev pub keys_right_shift : ℕ
keys_right_shift = 0xA0

abbrev pub keys_left_shift : ℕ
keys_left_shift = 0xA1

-- table[i] = c, one after another.
pub assign : List (ℕ × ℕ) → (ℕ → ℕ) → ℕ → ℕ
assign [] table = table
assign ((i, c) ∷ writes) table = assign writes (update table i c)

-- The assignments of `ps2_keyboard_init`.
abbrev pub scs_writes : List (ℕ × ℕ)
scs_writes =
    (11, 48)
    ∷ (2, 49)
    ∷ (3, 50)
    ∷ (4, 51)
    ∷ (5, 52)
    ∷ (6, 53)
    ∷ (7, 54)
    ∷ (8, 55)
    ∷ (9, 56)
    ∷ (10, 57)
    ∷ (41, 96)
    ∷ (12, 45)
    ∷ (13, 61)
    ∷ (26, 91)
    ∷ (27, 93)
    ∷ (39, 59)
    ∷ (40, 39)
    ∷ (43, 92)
    ∷ (43, 92)
    ∷ (51, 44)
    ∷ (52, 46)
    ∷ (53, 47)
    ∷ (30, 97)
    ∷ (48, 98)
    ∷ (46, 99)
    ∷ (32, 100)
    ∷ (18, 101)
    ∷ (33, 102)
    ∷ (34, 103)
    ∷ (35, 104)
    ∷ (23, 105)
    ∷ (36, 106)
    ∷ (37, 107)
    ∷ (38, 108)
    ∷ (50, 109)
    ∷ (49, 110)
    ∷ (24, 111)
    ∷ (25, 112)
    ∷ (16, 113)
    ∷ (19, 114)
    ∷ (31, 115)
    ∷ (20, 116)
    ∷ (22, 117)
    ∷ (47, 118)
    ∷ (17, 119)
    ∷ (45, 120)
    ∷ (21, 121)
    ∷ (44, 122)
    ∷ (57, 32)
    ∷ (42, keys_left_shift)
    ∷ (54, keys_right_shift)
    ∷ []

abbrev pub shift_writes : List (ℕ × ℕ)
shift_writes =
    (48, 41)
    ∷ (49, 33)
    ∷ (50, 64)
    ∷ (51, 35)
    ∷ (52, 36)
    ∷ (53, 37)
    ∷ (54, 94)
    ∷ (55, 38)
    ∷ (56, 42)
    ∷ (57, 40)
    ∷ (96, 126)
    ∷ (45, 95)
    ∷ (61, 43)
    ∷ (91, 123)
    ∷ (93, 125)
    ∷ (59, 58)
    ∷ (39, 34)
    ∷ (92, 124)
    ∷ (44, 60)
    ∷ (46, 62)
    ∷ (47, 63)
    ∷ (97, 65)
    ∷ (98, 66)
    ∷ (99, 67)
    ∷ (100, 68)
    ∷ (101, 69)
    ∷ (102, 70)
    ∷ (103, 71)
    ∷ (104, 72)
    ∷ (105, 73)
    ∷ (106, 74)
    ∷ (107, 75)
    ∷ (108, 76)
    ∷ (109, 77)
    ∷ (110, 78)
    ∷ (111, 79)
    ∷ (112, 80)
    ∷ (113, 81)
    ∷ (114, 82)
    ∷ (115, 83)
    ∷ (116, 84)
    ∷ (117, 85)
    ∷ (118, 86)
    ∷ (119, 87)
    ∷ (120, 88)
    ∷ (121, 89)
    ∷ (122, 90)
    ∷ (32, 32)
    ∷ []

-- The tables after `ps2_keyboard_init`, which clears them first.
pub scs_mapping : ℕ → ℕ
scs_mapping = assign scs_writes (λ i. 0)

pub shift_mapping : ℕ → ℕ
shift_mapping = assign shift_writes (λ i. 0)

-- `key_states`, and the processes.
pub record Keyboard : Type 0 where
  pub key_states : ℕ → Bool
  pub kernel : Kernel

pub is_shift_pressed : (ℕ → Bool) → Bool
is_shift_pressed key_states = key_states keys_left_shift || key_states keys_right_shift

abbrev pub event_of : EventType → (data0 data1 : ℕ) → Event
event_of type data0 data1 = record {
  type = type;
  data0 = data0;
  data1 = data1;
  data2 = 0;
  data3 = 0;
}

-- buf_push(process->events, event), for the process at `i`.
abbrev push : ℕ → Event → Kernel → Kernel
push i event k = record k { processes = push_event i event k.processes }

pub key_release : (keycode : ℕ) → Keyboard → Run Keyboard
key_release keycode s = elim (process_get_core_process s.kernel.processes) [
  | none ↦ panic
  | some i ↦ done (record s {
    kernel = push i (event_of key_up keycode 0) s.kernel;
    key_states = update s.key_states keycode false;
  })
]

-- if(keycode >= ' ' && keycode <= '~')
pub is_printable : ℕ → Bool
is_printable keycode = leb 32 keycode && leb keycode 126

-- The character of a key.
pub shifted : (shift : Bool) (keycode : ℕ) → ℕ
shifted shift keycode = if shift then shift_mapping keycode else keycode

pub key_press : (keycode : ℕ) → Keyboard → Run Keyboard
key_press keycode s = elim (process_get_core_process s.kernel.processes) [
  | none ↦ panic
  | some i ↦
      let repeated = if s.key_states keycode then 1 else 0 in
      let k = push i (event_of key keycode repeated) s.kernel in
      let key_states = update s.key_states keycode true in
      let c = shifted (is_shift_pressed key_states) keycode in
      done (record s {
        kernel = if is_printable keycode then push i (event_of char c 0) k else k;
        key_states = key_states;
      })
]

-- What `handle_keyboard_irq` does with a byte that is not 0xE0; the tables have 0x80 entries.
pub handle_scancode : (scancode : ℕ) → Keyboard → Run Keyboard
handle_scancode scancode s =
    if leb scancode scancode_max
    then (if scancode == scancode_max
        then fault
        else if scs_mapping scancode == 0
        then done s
        else key_press (scs_mapping scancode) s)
    else if scs_mapping (scancode - scancode_max) == 0
    then done s
    else key_release (scs_mapping (scancode - scancode_max)) s

-- Behind 0xE0 a second byte is read and ignored.
pub handle_keyboard_irq : {S : Type 0} → Ports S → (fuel : ℕ) → S → Keyboard → Run (S × Keyboard)
handle_keyboard_irq ports fuel devices s = ps2_read ports fuel devices >>= (λ (scancode, devices).
    if scancode == 0xE0
    then ps2_read ports fuel devices >>= (λ (ignored, devices). done (devices, s))
    else handle_scancode scancode s >>= (λ s. done (devices, s)))
