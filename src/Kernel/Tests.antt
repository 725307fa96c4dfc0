-- ===== src/Kernel/Tests.antt =====
-- Runs of the process table, the scheduler and the timers.
use tomat_os_old.Common.{
  ℕ, ◌*◌, ◌≡◌, ◌≢◌, ◌⊎◌, inl, inr, refl, true, false, not, none, some, List, [], ◌∷◌, done, fault,
  arith, leb, u8, if◌then◌else◌,
}
use tomat_os_old.Kernel.{
  Timer, Registers, Status, running, normal, suspended, dead, any, Event, Process, Kernel,
  process_get, find_from, process_get_running,
}
use tomat_os_old.Kernel.Scheduler.{pick, scheduler_update}
use tomat_os_old.Kernel.Scheduler.Pick.{Picked, pick-Picked}
use tomat_os_old.Kernel.Scheduler.Running.{runs}
use tomat_os_old.Kernel.Scheduler.One.{scheduler_update_one}
use tomat_os_old.Kernel.Processes.{
  process_start, syscall_start_alive, process_kill, syscall_process_kill,
}
use tomat_os_old.Kernel.Processes.Boot.{process_init, start_all, boot-Ready}
use tomat_os_old.Kernel.Processes.Ready.{Ready, handle_timer_irq-Ready}
use tomat_os_old.Kernel.Processes.Interrupts.{Returns}
use tomat_os_old.Kernel.Processes.Reach.{Interrupt, handle, handle-Ready, Reach, Reach-Ready}
use tomat_os_old.Kernel.Timers.{place_timer, timer_start}
use tomat_os_old.Kernel.Processes.Expiry.{syscall_process_kill-inverted}
use tomat_os_old.Kernel.Processes.Countdown.{NextTick, Ticks, timer_start-handle_timer_irq}
use tomat_os_old.Kernel.Processes.Start.{
  any_dead, started_as, Entered, process_start-Entered, process_start-stuck,
}

abbrev zeroes : Registers
zeroes = record {
  ds = 0;
  edi = 0;
  esi = 0;
  ebp = 0;
  esp = 0;
  ebx = 30;
  edx = 0;
  ecx = 0;
  eax = 0;
  int_no = 0;
  code = 0;
  eip = 0;
  cs = 0;
  eflags = 0;
  useresp = 0;
  ss = 0;
}

abbrev no_event : Event
no_event = record { type = any; data0 = 0; data1 = 0; data2 = 0; data3 = 0 }

abbrev process : (uid : ℕ) → Status → Process
process uid status = record {
  pd = 4096 * uid;
  status = status;
  main = 0;
  registers = zeroes;
  current_event = no_event;
  stack = 0;
  events = [];
  user = 1;
  uid = uid;
  suspended_time = 20;
  running_time = 5000;
  priority = 1;
  core = false;
  foreground = true;
  started = true;
}

-- ALIVE, a running process with a timer that runs out, and a process that is ready.
abbrev kernel : Kernel
kernel = record {
  processes = process 0 suspended ∷ process 1 running ∷ process 2 normal ∷ [];
  last_uid = 2;
  can_update = true;
  enabled = true;
  updates = 0;
  timers = record { id = 1; uid = 1; millis_left = 10; finished = false } ∷ [];
  last_id = 1;
  directory = 4096;
  freed = [];
  event_address = λ i. 64 * i;
}

kernel-Ready : Ready kernel
kernel-Ready = record { on = refl; may = refl; one = refl; owned = (inr refl, record {}) }

scheduler_update_example :
    (out : Registers × Kernel) × (scheduler_update zeroes true kernel ≡ done out)
    × (runs out.1.processes ≡ 1)
    × (out.1.can_update ≡ true)
scheduler_update_example =
    scheduler_update_one zeroes true kernel refl refl (omega arith) (omega arith) (inl refl)

pick_example : Picked 0 0 none kernel.processes (pick 0 0 none kernel.processes)
pick_example = pick-Picked 0 0 none kernel.processes

handle_example :
    ((Interrupt.timer_start_call ≡ Interrupt.process_kill_call)
      × (zeroes.ebx ≢ 0)
      × (process_get zeroes.ebx kernel.processes ≡ none)
      × (handle Interrupt.timer_start_call zeroes kernel ≡ fault))
    ⊎ Returns (handle Interrupt.timer_start_call zeroes kernel)
handle_example = handle-Ready Interrupt.timer_start_call zeroes kernel kernel-Ready

-- The kernel after the timer interrupt.
abbrev ticked : Registers × Kernel
ticked = (handle_timer_irq-Ready zeroes kernel kernel-Ready).0

handle-ticked : handle Interrupt.timer_irq zeroes kernel ≡ done ticked
unfolding handle
handle-ticked = (handle_timer_irq-Ready zeroes kernel kernel-Ready).1

Reach_example : Ready ticked.1
Reach_example =
    Reach-Ready (Reach.next Interrupt.timer_irq zeroes Reach.here handle-ticked) kernel-Ready

-- The table with a DEAD process.
abbrev with_dead : Kernel
with_dead = record kernel {
  processes = process 0 suspended ∷ process 1 dead ∷ process 2 running ∷ [];
}

process_start_example :
    (i : ℕ) × Entered
      (started_as (process 3 suspended))
      with_dead.processes
      i
      (process_start (process 3 suspended) with_dead).processes
    × ((process_start (process 3 suspended) with_dead).can_update
        ≡ not (any_dead with_dead.processes))
process_start_example = process_start-Entered (process 3 suspended) with_dead

process_start-stuck_example :
    (k' : Kernel) × (scheduler_update zeroes true (process_start (process 3 suspended) with_dead)
      ≡ done (zeroes, k'))
    × (k'.processes ≡ (process_start (process 3 suspended) with_dead).processes)
    × (k'.can_update ≡ false)
process_start-stuck_example = process_start-stuck (process 3 suspended) zeroes true with_dead refl

found_one : process_get 1 kernel.processes ≡ some 1
unfolding process_get find_from
found_one = refl

found_two : process_get 2 kernel.processes ≡ some 2
unfolding process_get find_from
found_two = refl

found_running : process_get_running kernel.processes ≡ some 1
unfolding process_get_running find_from
found_running = refl

-- A finished timer is overwritten by one of process 1 with 15 milliseconds.
abbrev calm : Kernel
calm = record kernel { timers = record { id = 4; uid = 2; millis_left = 3; finished = true } ∷ [] }

abbrev waiting : Kernel
waiting = (timer_start 1 15 calm).1

waiting-Ready : Ready waiting
unfolding timer_start place_timer
waiting-Ready = record { on = refl; may = refl; one = refl; owned = (inr refl, record {}) }

-- The kernel after one interrupt of the timer; the next one pushes the event.
abbrev after_tick : Registers × Kernel
after_tick = (handle_timer_irq-Ready zeroes waiting waiting-Ready).0

countdown_example :
    (ts : List Timer) × NextTick 1 1
      (record { id = (timer_start 1 15 calm).0; uid = 1; millis_left = 15; finished = false })
      zeroes
      after_tick.1
      ts
countdown_example =
    timer_start-handle_timer_irq 1 15 1 1 calm after_tick.1 zeroes (refl, tt) (omega arith)
      (omega arith) (omega arith)
      (Ticks.next zeroes (handle_timer_irq-Ready zeroes waiting waiting-Ready).1 refl Ticks.here)
      (handle_timer_irq-Ready zeroes waiting waiting-Ready).2

-- The caller has the user of its target, so it may kill it, and does not.
abbrev kill_regs : Registers
kill_regs = record zeroes { ebx = 2 }

kill_example : syscall_process_kill kill_regs kernel ≡ (
    if leb (u8 (process 2 normal).user) (u8 (process 1 running).user)
    then done (kill_regs, kernel)
    else process_kill kill_regs 2 kernel)
kill_example =
    syscall_process_kill-inverted kill_regs kernel 1 2 (process 1 running) (process 2 normal)
      found_running refl (omega arith) found_two refl

-- The kernel before `process_init`.
abbrev cold : Kernel
cold = record kernel { processes = []; enabled = false; can_update = false; timers = [] }

boot_example :
    (out : Registers × Kernel) × (syscall_start_alive zeroes (
        start_all
          (process 1 suspended ∷ process 2 suspended ∷ [])
          (process_init 4096 0 0 (process 7 dead) cold))
      ≡ done out)
    × Ready out.1
boot_example =
    boot-Ready 4096 0 0 (process 7 dead) (process 1 suspended) (process 2 suspended ∷ []) zeroes
      cold refl refl
