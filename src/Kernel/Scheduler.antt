-- ===== src/Kernel/Scheduler.antt =====
-- TomatKernel/core/process/process.c, lines 332-469: switching processes, and the scheduler.
pub mod Pick
pub mod Running
pub mod One
pub mod Live
use tomat_os_old.Common.{
  ℕ, zero, suc, ◌+◌, ◌-◌, ◌*◌, ◌/◌, ◌%◌, ◌^◌, Bool, true, false, not, ◌&&◌, ◌||◌, Option, none,
  some, List, [], ◌∷◌, ltb, ◌==◌, if◌then◌else◌, add32, mul32, get_elem?, Run, done, fault, ◌>>=◌,
}
use tomat_os_old.Kernel.{
  Registers, Status, running, normal, Event, Process, Kernel, user_alive, alive, is_dead,
  is_running, is_normal, is_suspended, modify, pull_event, has_events,
}

-- memset(&registers, 0, sizeof(registers_t)) and the first values of a process.
pub first_registers : Process → Registers
first_registers p = record {
  ds = 0;
  edi = 0;
  esi = 0;
  ebp = p.stack;
  esp = p.stack;
  ebx = 0;
  edx = 0;
  ecx = 0;
  eax = 0;
  int_no = 0;
  code = 0;
  eip = p.main;
  cs = 0;
  eflags = 0x202;
  useresp = p.stack;
  ss = 0;
}

-- GDT_SEGMENT_DATA and GDT_SEGMENT_CODE for ALIVE, the user segments for everybody else.
abbrev pub data_segment : ℕ → ℕ
data_segment user = if user == user_alive then 16 else 32

abbrev pub code_segment : ℕ → ℕ
code_segment user = if user == user_alive then 8 else 24

-- The process that is switched to, ready to run.
pub switch_in : Process → Process
unfolding first_registers
switch_in p =
    let registers = if p.started then p.registers else first_registers p in
    record p {
      started = true;
      status = running;
      registers = record registers { ds = data_segment p.user; cs = code_segment p.user };
    }

-- The process that is switched away from.
pub switch_out : Registers → Process → Process
switch_out regs p = record p { registers = regs; status = normal }

-- Returns what goes into the registers at the end of the interrupt.
pub process_switch :
    Registers → (current : Option ℕ) → (new : ℕ) → Kernel → Run (Registers × Kernel)
unfolding switch_in switch_out
process_switch regs current new k =
    let saved : List Process = elim current [
      | none ↦ k.processes
      | some c ↦ modify c (switch_out regs) k.processes
    ] in
    elim (get_elem? saved new) [
      | none ↦ fault
      | some p ↦ done (
        (switch_in p).registers,
        record k { processes = modify new switch_in saved; directory = p.pd },
      )
    ]

-- The body of the loop over all processes that a timer tick runs.
pub tick : (time_passed event_address : ℕ) → Process → Process
tick t address p =
    let waited =
      if not (is_dead p.status) && not (is_running p.status)
      then record p { suspended_time = add32 p.suspended_time t }
      else if is_running p.status
      then record p { running_time = add32 p.running_time t }
      else p in
    let (event, events) = pull_event p.events p.current_event in
    if is_suspended p.status && has_events p.events
    then record waited {
      current_event = event;
      events = events;
      registers = record p.registers { eax = address };
      status = normal;
    }
    else waited

-- What the loop leaves: the table, `count` and `running_process`.
pub record Ticked : Type 0 where
  pub processes : List Process
  pub count : ℕ
  pub running_process : Option ℕ

pub tick_all : (time_passed : ℕ) → (ℕ → ℕ) → ℕ → List Process → Ticked
unfolding tick
tick_all t address i [] = record { processes = []; count = 0; running_process = none }
tick_all t address i (p ∷ ps) =
    let rest = tick_all t address (i + 1) ps in
    record {
      processes = tick t (address i) p ∷ rest.processes;
      count = (if is_dead p.status then 0 else 1) + rest.count;
      running_process = elim rest.running_process [
        | some j ↦ some j
        | none ↦ if is_running p.status then some i else none
      ];
    }

-- suspended_time * (priority + 1), as a uint32_t.
pub score : Process → ℕ
score p = mul32 p.suspended_time (p.priority + 1)

-- bestScore < score on `int`: a score from 2^31 on is negative.
pub beats : (best_score : ℕ) → Process → Bool
unfolding score
beats best_score p = ltb (score p) (2 ^ 31) && ltb best_score (score p)

-- The search for processWithBestScore.
pub pick : (i best_score : ℕ) → Option ℕ → List Process → Option ℕ
unfolding beats
pick i best_score best [] = best
pick i best_score best (p ∷ ps) =
    let better = beats best_score p in
    let rest =
      pick (i + 1) (if is_normal p.status && better then score p else best_score)
        (if is_normal p.status && better then some i else best) ps in
    if is_normal p.status && not p.started then some i else rest

-- With nobody running the best process runs, or ALIVE from its start.
pub run_next : Registers → Kernel → Run (Registers × Kernel)
unfolding pick process_switch
run_next regs k = elim (pick 0 0 none k.processes) [
  | some i ↦ process_switch regs none i k
  | none ↦
      process_switch regs none alive
        (record k { processes = modify alive (λ p. record p { started = false }) k.processes })
]

-- The running process goes on unless its time is up and another one can run.
pub preempt : Registers → (count current : ℕ) → Kernel → Run (Registers × Kernel)
unfolding pick process_switch
preempt regs count current k = elim (get_elem? k.processes current) [
  | none ↦ fault
  | some p ↦
      if ltb (1000 / count + p.priority * 100) p.running_time
      then elim (pick 0 0 none k.processes) [
        | some i ↦ process_switch regs (some current) i k
        | none ↦ done (regs, k)
      ]
      else done (regs, k)
]

-- The part of `scheduler_update` behind its guards.
pub schedule : Registers → (from_timer : Bool) → Kernel → Run (Registers × Kernel)
unfolding tick_all run_next preempt
schedule regs from_timer k =
    let ticked = tick_all (k.updates * 10 + 10) k.event_address 0 k.processes in
    let after = if from_timer then record k { processes = ticked.processes; updates = 0 } else k in
    let current = if from_timer then ticked.running_process else none in
    elim current [ none ↦ run_next regs after | some r ↦ preempt regs ticked.count r after ]

pub scheduler_update : Registers → (from_timer : Bool) → Kernel → Run (Registers × Kernel)
unfolding schedule
scheduler_update regs from_timer k =
    if not k.enabled
    then done (regs, k)
    else if not k.can_update
    then done (regs, if from_timer then record k { updates = k.updates + 1 } else k)
    else schedule regs from_timer (record k { can_update = false }) >>= λ (regs, k).
        done (regs, record k { can_update = true })
