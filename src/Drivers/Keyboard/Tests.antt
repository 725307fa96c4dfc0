-- ===== src/Drivers/Keyboard/Tests.antt =====
-- Runs of the keyboard and its controller.
use tomat_os_old.Common.{
  ℕ, suc, ◌+◌, ◌*◌, ◌≤◌, ◌<◌, ◌≡◌, ◌⊎◌, inr, refl, Bool, true, false, none, some, List, [], ◌∷◌,
  ◌==◌, done, panic, fault, leb, arith, if◌then◌else◌,
}
use tomat_os_old.Common.Bits.{test_bit}
use tomat_os_old.Kernel.{
  Registers, Status, running, normal, suspended, any, Event, Process, Kernel, find_from,
  process_get_core_process,
}
use tomat_os_old.Kernel.Processes.Ready.{Ready}
use tomat_os_old.Kernel.Processes.Queue.{receive}
use tomat_os_old.Drivers.Ps2.{Ports, ps2_status, ps2_read, ps2_data, polled, ps2_read-returns}
use tomat_os_old.Drivers.Keyboard.{Keyboard, scs_mapping, shifted, handle_scancode}
use tomat_os_old.Drivers.Keyboard.Mapping.{shifted_unique}
use tomat_os_old.Drivers.Keyboard.Events.{held, all_events, latest_first}
use tomat_os_old.Drivers.Keyboard.Interrupts.{
  ScanCode, plain, extended, bytes_of, plains, Delivers, handle_keyboard_irqs,
  handle_keyboard_irqs_lem,
}
use tomat_os_old.Drivers.Keyboard.Ready.{handle_scancode-Ready}

abbrev zeroes : Registers
zeroes = record {
  ds = 0;
  edi = 0;
  esi = 0;
  ebp = 0;
  esp = 0;
  ebx = 30;
  edx = 0;
  ecx = 0;
  eax = 0;
  int_no = 0;
  code = 0;
  eip = 0;
  cs = 0;
  eflags = 0;
  useresp = 0;
  ss = 0;
}

abbrev no_event : Event
no_event = record { type = any; data0 = 0; data1 = 0; data2 = 0; data3 = 0 }

abbrev process : (uid : ℕ) → Status → Process
process uid status = record {
  pd = 4096 * uid;
  status = status;
  main = 0;
  registers = zeroes;
  current_event = no_event;
  stack = 0;
  events = [];
  user = 1;
  uid = uid;
  suspended_time = 20;
  running_time = 5000;
  priority = 1;
  core = false;
  foreground = true;
  started = true;
}

-- ALIVE, the core process, which runs, with a timer, and a process that is ready.
abbrev kernel : Kernel
kernel = record {
  processes =
      process 0 suspended ∷ record (process 1 running) { core = true } ∷ process 2 normal ∷ [];
  last_uid = 2;
  can_update = true;
  enabled = true;
  updates = 0;
  timers = record { id = 1; uid = 1; millis_left = 10; finished = false } ∷ [];
  last_id = 1;
  directory = 4096;
  freed = [];
  event_address = λ i. 64 * i;
}

kernel-Ready : Ready kernel
kernel-Ready = record { on = refl; may = refl; one = refl; owned = (inr refl, record {}) }

core_at : process_get_core_process kernel.processes ≡ some 1
unfolding process_get_core_process find_from
core_at = refl

abbrev keyboard : Keyboard
keyboard = record { key_states = λ c. false; kernel = kernel }

-- A controller whose state is what it has still to deliver.
abbrev buffered : Ports (List ℕ)
buffered = record {
  inb = λ port bs. elim bs [
    | [] ↦ (0, [])
    | c ∷ cs ↦ if port == ps2_data then (c, cs) else (1, c ∷ cs)
  ];
  outb = λ port value bs. bs;
}

-- Shift, 'a', a key behind 0xE0, and 'a' again while it is held down; then 'a' and shift are released.
abbrev typed : List ScanCode
typed = plain 0x2A ∷ plain 0x1E ∷ extended 0x2A ∷ plain 0x1E ∷ plain 0x9E ∷ plain 0xAA ∷ []

typed-Delivers : Delivers buffered 1 (bytes_of typed) (bytes_of typed) []
unfolding Delivers bytes_of ps2_read ps2_status test_bit
typed-Delivers = (_, refl, (_, refl, (_, refl, (_, refl, (_, refl, (_, refl, (_, refl, refl)))))))

handle_keyboard_irqs_example :
    (s' : Keyboard) × (handle_keyboard_irqs buffered 1 6 (bytes_of typed) keyboard ≡ done ([], s'))
    × ((c : ℕ) → s'.key_states c ≡ held (latest_first [] (plains typed)) c)
    × (s'.kernel
        ≡ record kernel { processes = receive 1 (all_events [] (plains typed)) kernel.processes })
handle_keyboard_irqs_example =
    handle_keyboard_irqs_lem buffered 1 typed (bytes_of typed) [] 1 keyboard core_at (λ c. refl)
      (
        (omega arith, omega arith),
        (
          (omega arith, omega arith),
          (
            tt,
            (
              (omega arith, omega arith),
              ((omega arith, omega arith), ((omega arith, omega arith), tt)),
            ),
          ),
        ),
      )
      typed-Delivers

handle_scancode_example :
    ((◌≡◌ {A = ℕ} 0x1E 128) × (handle_scancode 0x1E keyboard ≡ fault))
    ⊎ ((process_get_core_process kernel.processes ≡ none) × (handle_scancode 0x1E keyboard ≡ panic))
    ⊎ ((s' : Keyboard) × (handle_scancode 0x1E keyboard ≡ done s') × Ready s'.kernel)
handle_scancode_example = handle_scancode-Ready 0x1E keyboard kernel-Ready

-- '%' is shift and '5'.
shifted_unique_example :
    (i : ℕ) × (i < 128)
    × ((shift : Bool) × (shifted shift (scs_mapping i) ≡ 37))
    × ((j : ℕ) (shift : Bool) → j < 128 → shifted shift (scs_mapping j) ≡ 37 → j ≡ i)
shifted_unique_example = shifted_unique 37 (omega arith) (omega arith)

-- A controller whose state counts the reads; its status reports a byte from the third one on.
abbrev slow : Ports ℕ
slow = record { inb = λ port s. (if leb 2 s then 1 else 0, s + 1); outb = λ port value s. s }

reports : test_bit (ps2_status slow (polled slow 2 0)).0 0 ≡ true
unfolding polled ps2_status test_bit
reports = refl

ps2_read_example :
    (m : ℕ) × (m ≤ 2)
    × (ps2_read slow 3 0 ≡ done (slow.inb ps2_data (polled slow (suc m) 0)))
    × (test_bit (ps2_status slow (polled slow m 0)).0 0 ≡ true)
    × ((j : ℕ) → j < m → test_bit (ps2_status slow (polled slow j 0)).0 0 ≡ false)
ps2_read_example = ps2_read-returns slow 2 3 0 (omega arith) reports
