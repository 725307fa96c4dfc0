-- ===== src/User/Os.antt =====
-- TomatLib/tomato/os.h: a program's calls of the processes and timers, and OS.hpp, which waits for
-- events with them.
pub mod Wait
pub mod Sleep
mod Events
mod Tests
use tomat_os_old.Common.{
  ℕ, zero, suc, ◌+◌, Bool, true, false, not, if◌then◌else◌, ◌==◌, Run, done, hang, ◌>>=◌,
}
use tomat_os_old.Kernel.{
  Registers, EventType, any, char, key, key_up, timer, terminate, mouse_click, mouse_up,
  mouse_scroll, mouse_drag, Event,
}
use tomat_os_old.User.Kinds.{
  syscall_os_cancel_timer, syscall_os_process_kill, syscall_os_pull_event, syscall_os_queue_event,
  syscall_os_start_timer,
}
use tomat_os_old.User.Trap.{request, int_80}
use tomat_os_old.Boot.Isr.{RegsHandler}

-- The values of `tomato_event_kind_t`, which the library compares.
pub kind_number : EventType → ℕ
kind_number any = 0
kind_number char = 1
kind_number key = 2
kind_number key_up = 3
kind_number timer = 4
kind_number terminate = 5
kind_number mouse_click = 6
kind_number mouse_up = 7
kind_number mouse_scroll = 8
kind_number mouse_drag = 9

-- event.kind == kind
pub is_kind : EventType → Event → Bool
is_kind kind event = kind_number event.type == kind_number kind

module _ {S : Type 0} (trap : RegsHandler S) where
  pub tomato_os_start_timer : (millis : ℕ) → Registers → S → Run (ℕ × S)
  tomato_os_start_timer millis regs s =
      int_80 trap syscall_os_start_timer (record regs { ebx = millis }) s

  pub tomato_os_cancel_timer : (tid : ℕ) → Registers → S → Run S
  tomato_os_cancel_timer tid regs s =
      request trap syscall_os_cancel_timer (record regs { ebx = tid }) s

  pub tomato_os_kill : (uid : ℕ) → Registers → S → Run S
  tomato_os_kill uid regs s = request trap syscall_os_process_kill (record regs { ebx = uid }) s

  -- `event` is the address of the event.
  pub tomato_os_queue_event : (event uid : ℕ) → Registers → S → Run S
  tomato_os_queue_event event uid regs s =
      request trap syscall_os_queue_event (record regs { ebx = event; ecx = uid }) s

-- `event_at` reads an event from the memory, and `regs` are the registers of the program.
module _ {S : Type 0} (trap : RegsHandler S) (event_at : S → ℕ → Event) (regs : Registers) where
  -- *event = *ret
  pub tomato_os_pull_event : S → Run (Event × S)
  tomato_os_pull_event s =
      int_80 trap syscall_os_pull_event regs s >>= (λ (ret, s). done (event_at s ret, s))

  -- The loop of `OS::PullEventRaw`, on fuel.
  pub pull_kind : (fuel : ℕ) → EventType → S → Run (Event × S)
  pull_kind zero kind s = hang
  pull_kind (suc fuel) kind s = tomato_os_pull_event s >>= (λ (event, s).
      let rest = pull_kind fuel kind s in if is_kind kind event then done (event, s) else rest)

  -- `OS::PullEventRaw`
  pub pull_event_raw : (fuel : ℕ) → EventType → S → Run (Event × S)
  pull_event_raw fuel kind s =
      if kind_number kind == 0 then tomato_os_pull_event s else pull_kind fuel kind s

  -- `OS::PullEvent`
  pub pull_event : (fuel : ℕ) → EventType → S → Run (Event × S)
  pull_event fuel kind s = pull_event_raw fuel kind s >>= (λ (event, s).
      if is_kind terminate event
      then tomato_os_kill trap 0 regs s >>= (λ s. done (event, s))
      else done (event, s))

  -- The loop of `OS::Sleep`; both loops are on fuel, the inner one on `inner`.
  pub wait_timer : (inner outer id : ℕ) → S → Run S
  wait_timer inner zero id s = hang
  wait_timer inner (suc outer) id s = pull_event inner timer s >>= (λ (event, s).
      let again = wait_timer inner outer id s in if event.data0 == id then done s else again)

  -- `OS::StartTimer` and `OS::Sleep`, for a type `F` of numbers that C calls `float`, and the
  -- conversion of `seconds * 1000` to a uint32_t.
  module _ {F : Type 0} (to_millis : F → ℕ) where
    pub start_timer : (seconds : F) → S → Run (ℕ × S)
    start_timer seconds s = tomato_os_start_timer trap (to_millis seconds) regs s

    pub sleep : (inner outer : ℕ) → (millis : F) → S → Run S
    sleep inner outer millis s = start_timer millis s >>= (λ (id, s). wait_timer inner outer id s)
