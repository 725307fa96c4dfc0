-- ===== src/Kernel.antt =====
-- TomatKernel/core/process/process.h, perm.h and kernel.h: the process table, and the look-ups of
-- process.c (lines 210-235). A `process_t*` is an index into the table; the queue `events` is a
-- list, empty for a null buffer. The heap of a process is the subject of `Memory.Heap`.
pub mod Timers
pub mod Scheduler
pub mod Processes
pub mod Buffer
mod Tests
use tomat_os_old.Common.{
  ℕ, zero, suc, ◌+◌, ◌-◌, Bool, true, false, not, ◌&&◌, ◌||◌, Option, none, some, List, [], ◌∷◌,
  ltb, ◌==◌, if◌then◌else◌, u8,
}

-- `registers_t`
pub record Registers : Type 0 where
  pub ds : ℕ
  pub edi : ℕ
  pub esi : ℕ
  pub ebp : ℕ
  pub esp : ℕ
  pub ebx : ℕ
  pub edx : ℕ
  pub ecx : ℕ
  pub eax : ℕ
  pub int_no : ℕ
  pub code : ℕ
  pub eip : ℕ
  pub cs : ℕ
  pub eflags : ℕ
  pub useresp : ℕ
  pub ss : ℕ

pub data Status : Type 0 where
  running normal suspended dead : Status

pub data EventType : Type 0 where
  any char key key_up timer terminate mouse_click mouse_up mouse_scroll mouse_drag : EventType

-- `event_t`, with the four words of `data`.
pub record Event : Type 0 where
  pub type : EventType
  pub data0 : ℕ
  pub data1 : ℕ
  pub data2 : ℕ
  pub data3 : ℕ

pub record Process : Type 0 where
  pub pd : ℕ
  pub status : Status
  pub main : ℕ
  pub registers : Registers
  pub current_event : Event
  pub stack : ℕ
  pub events : List Event
  pub user : ℕ
  pub uid : ℕ
  pub suspended_time : ℕ
  pub running_time : ℕ
  pub priority : ℕ
  pub core : Bool
  pub foreground : Bool
  pub started : Bool

-- `timer_t`
pub record Timer : Type 0 where
  pub id : ℕ
  pub uid : ℕ
  pub millis_left : ℕ
  pub finished : Bool

-- The static variables of process.c and timer.c, the page directory that CR3 holds, the directories
-- given to `paging_free_directory` (last first), and where the table keeps the field
-- `current_event` of each process.
pub record Kernel : Type 0 where
  pub processes : List Process
  pub last_uid : ℕ
  pub can_update : Bool
  pub enabled : Bool
  pub updates : ℕ
  pub timers : List Timer
  pub last_id : ℕ
  pub directory : ℕ
  pub freed : List ℕ
  pub event_address : ℕ → ℕ

-- USER_ALIVE
abbrev pub user_alive : ℕ
user_alive = 0xFF

-- The index of ALIVE in the table, and its uid.
abbrev pub alive : ℕ
alive = 0

-- perm.h: both arguments are a `user_t`, 8 bits of the 32 of `process->user`; with `required` at least
-- 1, `has > required - 1`.
pub has_permission : (required has : ℕ) → Bool
has_permission required has =
    let required = u8 required in
    let has = u8 has in if required == 0 then true else ltb (required - 1) has

abbrev pub is_dead : Status → Bool
is_dead dead = true
is_dead _ = false

abbrev pub is_running : Status → Bool
is_running running = true
is_running _ = false

abbrev pub is_normal : Status → Bool
is_normal normal = true
is_normal _ = false

abbrev pub is_suspended : Status → Bool
is_suspended suspended = true
is_suspended _ = false

-- for (process = processes; process < buf_end(processes); process++) if (test) return process;
unfoldable pub find_from : (Process → Bool) → ℕ → List Process → Option ℕ
find_from test i [] = none
find_from test i (p ∷ ps) = let rest = find_from test (i + 1) ps in if test p then some i else rest

unfoldable pub process_get_core_process : List Process → Option ℕ
process_get_core_process ps = find_from (λ p. not (is_dead p.status) && p.core) 0 ps

pub process_get : ℕ → List Process → Option ℕ
process_get uid ps = find_from (λ p. not (is_dead p.status) && (p.uid == uid)) 0 ps

unfoldable pub process_get_running : List Process → Option ℕ
process_get_running ps = find_from (λ p. is_running p.status) 0 ps

-- Writes through a pointer into the table.
abbrev pub modify {ℓ} : {A : Type ℓ} → ℕ → (A → A) → List A → List A
modify i f [] = []
modify zero f (x ∷ xs) = f x ∷ xs
modify (suc i) f (x ∷ xs) = x ∷ modify i f xs

-- pull_event: the first event leaves the queue (with an empty queue nothing is defined).
abbrev pub pull_event : List Event → Event → Event × List Event
pull_event [] current = (current, [])
pull_event (e ∷ es) current = (e, es)

-- buf_len(events) > 0
abbrev pub has_events : List Event → Bool
has_events [] = false
has_events (e ∷ es) = true

-- buf_push: a new element at the end.
pub buf_push {ℓ} : {A : Type ℓ} → List A → A → List A
buf_push [] x = x ∷ []
buf_push (y ∷ ys) x = y ∷ buf_push ys x
