-- ===== src/Kernel/Processes.antt =====
-- TomatKernel/core/process/process.c, lines 96-183 and 233-319 (starting, killing and the system
-- calls), and TomatKernel/core/timer.c, lines 29-81 (the timer interrupt and its system calls).
-- A process that is looked up is its index in the table; a null pointer that is followed is `fault`.
pub mod Ready
pub mod Interrupts
pub mod Reach
pub mod Queue
pub mod Expiry
pub mod Countdown
pub mod Start
pub mod Boot
use tomat_os_old.Common.{
  ℕ, zero, suc, ◌+◌, ◌-◌, ◌*◌, ◌/◌, ◌^◌, ◌%◌, Bool, true, false, not, ◌&&◌, ◌||◌, Option, none,
  some, List, [], ◌∷◌, ltb, ◌==◌, if◌then◌else◌, add32, sub32, get_elem?, Run, done, panic, fault,
  ◌>>=◌,
}
use tomat_os_old.Kernel.{
  Registers, Status, normal, suspended, dead, EventType, timer, any, Event, Process, Timer, Kernel,
  alive, has_permission, is_dead, is_running, process_get, process_get_running, modify, pull_event,
  has_events, buf_push,
}
use tomat_os_old.Kernel.Timers.{timer_start, timer_cancel}
use tomat_os_old.Kernel.Scheduler.{first_registers, scheduler_update}

-- PROCESS_MAX_STACK_SIZE
abbrev process_max_stack_size : ℕ
process_max_stack_size = 1024 * 1024 * 20

-- The fields that `process_create` writes, for the page directory `pd` it allocates and the address
-- `kernel_end` of `tomatkernel_end`; the stack's pages and the heap are the memory's part.
pub process_create : (pd kernel_end main user : ℕ) (foreground : Bool) → Kernel → Process × Kernel
process_create pd kernel_end main user foreground k =
    let uid = add32 k.last_uid 1 in
    let zeroes : Registers = record {
      ds = 0;
      edi = 0;
      esi = 0;
      ebp = 0;
      esp = 0;
      ebx = 0;
      edx = 0;
      ecx = 0;
      eax = 0;
      int_no = 0;
      code = 0;
      eip = 0;
      cs = 0;
      eflags = 0;
      useresp = 0;
      ss = 0;
    } in
    let p : Process = record {
      pd = pd;
      status = suspended;
      main = main;
      registers = zeroes;
      current_event = record { type = any; data0 = 0; data1 = 0; data2 = 0; data3 = 0 };
      stack =
          add32 (add32 (add32 kernel_end (1024 * 1024 * 50)) (1024 * 1024)) process_max_stack_size;
      events = [];
      user = user;
      uid = uid;
      suspended_time = 0;
      running_time = 0;
      priority = 0;
      core = false;
      foreground = foreground;
      started = false;
    } in
    (p, record k { last_uid = uid })

-- The first dead entry is overwritten; `none` when there is no dead entry.
pub reuse_dead : Process → List Process → Option (List Process)
reuse_dead new [] = none
reuse_dead new (p ∷ ps) =
    let rest = reuse_dead new ps in
    if is_dead p.status
    then some (new ∷ ps)
    else elim rest [ none ↦ none | some qs ↦ some (p ∷ qs) ]

pub process_start : Process → Kernel → Kernel
unfolding reuse_dead
process_start newprocess k =
    let new : Process = record newprocess { started = false; status = normal } in
    elim (reuse_dead new k.processes) [
      | some ps ↦ record k { can_update = false; processes = ps }
      | none ↦ record k { can_update = true; processes = buf_push k.processes new }
    ]

-- `process_kill` up to its call of the scheduler: `p` is the process at `i`, `alive_pd` the page
-- directory of ALIVE; `window_delete_for_process` does nothing.
pub retire : (i alive_pd : ℕ) → Process → Kernel → Kernel
retire i alive_pd p k =
    let was_running = is_running p.status in
    let k = record k { directory = if was_running then alive_pd else k.directory } in
    let k = record k {
      processes = modify i (λ p. record p { status = dead; events = [] }) k.processes;
      freed = p.pd ∷ k.freed;
    } in
    let k = timer_cancel p.uid 0 k in record k { can_update = true }

pub process_kill : Registers → ℕ → Kernel → Run (Registers × Kernel)
process_kill regs i k = elim (get_elem? k.processes i) [
  | none ↦ fault
  | some p ↦ elim (get_elem? k.processes alive) [
    | none ↦ fault
    | some a ↦
        if is_running p.status
        then scheduler_update regs false (retire i a.pd p k)
        else done (regs, retire i a.pd p k)
  ]
]

pub syscall_start_alive : Registers → Kernel → Run (Registers × Kernel)
syscall_start_alive regs k =
    if k.enabled then done (regs, k) else elim (get_elem? k.processes alive) [
      | none ↦ fault
      | some a ↦ scheduler_update regs false (record k { enabled = true; directory = a.pd })
    ]

-- What `syscall_pull_event` does with the running process `p` at `i`.
pub pull_or_wait : Registers → ℕ → Process → Kernel → Run (Registers × Kernel)
pull_or_wait regs i p k =
    let (event, events) = pull_event p.events p.current_event in
    if has_events p.events
    then done (
      record regs { eax = k.event_address i },
      record k {
        processes = modify i (λ p. record p { current_event = event; events = events }) k.processes;
      },
    )
    else scheduler_update regs false (record k {
      processes = modify i (λ p. record p { status = suspended; registers = regs }) k.processes;
    })

pub syscall_pull_event : Registers → Kernel → Run (Registers × Kernel)
unfolding pull_or_wait
syscall_pull_event regs k = elim (process_get_running k.processes) [
  | none ↦ panic
  | some i ↦ elim (get_elem? k.processes i) [ none ↦ fault | some p ↦ pull_or_wait regs i p k ]
]

pub push_event : ℕ → Event → List Process → List Process
push_event i e ps = modify i (λ p. record p { events = buf_push p.events e }) ps

-- `event` is what `ebx` points at.
pub syscall_queue_event : Registers → (event : Event) → Kernel → Run Kernel
unfolding push_event
syscall_queue_event regs event k = elim (process_get_running k.processes) [
  | none ↦ panic
  | some i ↦
      let target = if regs.ecx == 0 then some i else process_get regs.ecx k.processes in
      elim target [
        | none ↦ done k
        | some j ↦ elim (get_elem? k.processes i) [
          | none ↦ fault
          | some p ↦ elim (get_elem? k.processes j) [
            | none ↦ fault
            | some q ↦
                if not (i == j) && not (has_permission q.user p.user)
                then done k
                else done (record k { processes = push_event j event k.processes })
          ]
        ]
      ]
]

pub syscall_process_kill : Registers → Kernel → Run (Registers × Kernel)
unfolding process_kill
syscall_process_kill regs k =
    let current = process_get_running k.processes in
    let target = if regs.ebx == 0 then current else process_get regs.ebx k.processes in
    elim target [
      | none ↦ fault
      | some j ↦ elim current [
        | none ↦ fault
        | some i ↦ elim (get_elem? k.processes j) [
          | none ↦ fault
          | some q ↦ elim (get_elem? k.processes i) [
            | none ↦ fault
            | some p ↦
                if not (regs.ebx == 0) && has_permission q.user p.user
                then done (regs, k)
                else process_kill regs j k
          ]
        ]
      ]
    ]

pub timer_event : Timer → Event
timer_event t = record { type = timer; data0 = t.id; data1 = 0; data2 = 0; data3 = 0 }

-- millis_left - 10 == 0 || millis_left - 10 > millis_left, on uint32_t.
pub runs_out : Timer → Bool
runs_out t = sub32 t.millis_left 10 == 0 || ltb t.millis_left (sub32 t.millis_left 10)

-- The body of the loop of `handle_timer_irq`.
pub fire : Timer → List Process → Run (Timer × List Process)
fire t ps =
    if t.finished
    then done (t, ps)
    else if not (runs_out t)
    then done (record t { millis_left = sub32 t.millis_left 10 }, ps)
    else elim (process_get t.uid ps) [
      | none ↦ panic
      | some i ↦ done (record t { finished = true }, push_event i (timer_event t) ps)
    ]

pub fire_timers : List Timer → List Process → Run (List Timer × List Process)
unfolding fire
fire_timers [] ps = done ([], ps)
fire_timers (t ∷ ts) ps =
    fire t ps >>= λ (t, ps). fire_timers ts ps >>= λ (ts, ps). done (t ∷ ts, ps)

pub handle_timer_irq : Registers → Kernel → Run (Registers × Kernel)
unfolding fire_timers
handle_timer_irq regs k = fire_timers k.timers k.processes >>= λ (ts, ps).
    scheduler_update regs true (record k { timers = ts; processes = ps })

pub syscall_timer_start : Registers → Kernel → Run (Registers × Kernel)
syscall_timer_start regs k = elim (process_get_running k.processes) [
  | none ↦ panic
  | some i ↦ elim (get_elem? k.processes i) [
    | none ↦ fault
    | some p ↦ let (id, k) = timer_start p.uid regs.ebx k in done (record regs { eax = id }, k)
  ]
]

pub syscall_timer_cancel : Registers → Kernel → Run Kernel
syscall_timer_cancel regs k = elim (process_get_running k.processes) [
  | none ↦ panic
  | some i ↦ elim (get_elem? k.processes i) [
    | none ↦ fault
    | some p ↦ done (timer_cancel p.uid regs.ebx k)
  ]
]
