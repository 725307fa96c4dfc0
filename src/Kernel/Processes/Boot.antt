-- ===== src/Kernel/Processes/Boot.antt =====
-- The start of the system: `process_init` (process.c, lines 44-90 and 189-207), the processes that are
-- started then, and `syscall_start_alive`.
use tomat_os_old.Common.{
  ℕ, ◌<◌, ◌≡◌, refl, ◌∙◌, inr, true, false, some, List, [], ◌∷◌, length, get_elem?, sym, done,
  arith,
}
use mathlib.Core.Path.{subst}
use tomat_os_old.Kernel.{Registers, suspended, Process, Kernel, user_alive, alive, buf_push}
use tomat_os_old.Kernel.Scheduler.Running.{runs}
use tomat_os_old.Kernel.Scheduler.One.{scheduler_update_one}
use tomat_os_old.Kernel.Scheduler.Live.{scheduler_update-Kept}
use tomat_os_old.Kernel.Processes.{process_start, syscall_start_alive}
use tomat_os_old.Kernel.Processes.Start.{any_dead, started_as, reuse_dead-none}
use tomat_os_old.Kernel.Processes.Ready.{Ready, TimersLive}

-- `pd` is the new page directory, `wait` the address of `alive_wait_for_events`, `stack` that of
-- `tomatokernel_stack`; the fields that `initialize_alive` does not write are those of `old`.
pub initialize_alive : (pd wait stack : ℕ) → Process → Process
initialize_alive pd wait stack old = record old {
  pd = pd;
  status = suspended;
  main = wait;
  stack = stack;
  events = [];
  user = user_alive;
  uid = alive;
  priority = 0;
  foreground = false;
  core = false;
  started = true;
}

-- The table of `process_init` has one entry; the memory for it is not part of the state.
pub process_init : (pd wait stack : ℕ) → Process → Kernel → Kernel
process_init pd wait stack old k = record k { processes = initialize_alive pd wait stack old ∷ [] }

pub start_all : List Process → Kernel → Kernel
start_all [] k = k
start_all (p ∷ ps) k = start_all ps (process_start p k)

-- Before the scheduler runs.
record Prepared (k : Kernel) : Type 0 where
  off : k.enabled ≡ false
  none_dead : any_dead k.processes ≡ false
  none_running : runs k.processes ≡ 0
  some_process : 0 < length k.processes
  no_timer : k.timers ≡ []

pushed_dead :
    (ps : List Process) (p : Process)
    → any_dead ps ≡ false
    → any_dead (buf_push ps (started_as p)) ≡ false
unfolding buf_push
pushed_dead [] p h = refl
pushed_dead (q ∷ ps) p h = ground (arith, h, pushed_dead ps p)

pushed_runs : (ps : List Process) (p : Process) → runs (buf_push ps (started_as p)) ≡ runs ps
unfolding buf_push
pushed_runs [] p = refl
pushed_runs (q ∷ ps) p = ground (arith, pushed_runs ps p)

pushed_length : (ps : List Process) (p : Process) → 0 < length (buf_push ps p)
unfolding buf_push
pushed_length [] p = omega arith
pushed_length (q ∷ ps) p = omega arith

start_steps :
    (p : Process) (k : Kernel)
    → Prepared k
    → process_start p k
      ≡ record k { can_update = true; processes = buf_push k.processes (started_as p) }
unfolding process_start
start_steps p k ready = ground (arith, reuse_dead-none (started_as p) k.processes ready.none_dead)

process_start-Prepared : (p : Process) (k : Kernel) → Prepared k → Prepared (process_start p k)
process_start-Prepared p k ready = rw (start_steps p k ready) (record {
  off = ready.off;
  none_dead = pushed_dead k.processes p ready.none_dead;
  none_running = pushed_runs k.processes p ∙ ready.none_running;
  some_process = pushed_length k.processes (started_as p);
  no_timer = ready.no_timer;
})

start_all-Prepared :
    (ps : List Process) (k : Kernel)
    → Prepared k
    → k.can_update ≡ true
    → Prepared (start_all ps k) × ((start_all ps k).can_update ≡ true)
unfolding start_all
start_all-Prepared [] k ready may = (ready, may)
start_all-Prepared (p ∷ ps) k ready may =
    start_all-Prepared ps (process_start p k) (process_start-Prepared p k ready)
      (rw (start_steps p k ready) refl)

process_init-Prepared :
    (pd wait stack : ℕ) (old : Process) (k : Kernel)
    → k.enabled ≡ false
    → k.timers ≡ []
    → Prepared (process_init pd wait stack old k)
unfolding process_init initialize_alive
process_init-Prepared pd wait stack old k off no_timer = record {
  off = off;
  none_dead = refl;
  none_running = refl;
  some_process = omega arith;
  no_timer = no_timer;
}

first_entry : (ps : List Process) → 0 < length ps → (a : Process) × (get_elem? ps alive ≡ some a)
first_entry [] h = absurd (omega (arith, h))
first_entry (p ∷ ps) h = (p, refl)

start_alive-Ready :
    (regs : Registers) (k : Kernel)
    → Prepared k
    → k.can_update ≡ true
    → (out : Registers × Kernel) × (syscall_start_alive regs k ≡ done out) × Ready out.1
unfolding syscall_start_alive
start_alive-Ready regs k ready may =
    let (a, entry) = first_entry k.processes ready.some_process in
    let k1 : Kernel = record k { enabled = true; directory = a.pd } in
    let (out, run, one, free) =
      scheduler_update_one regs false k1 refl may ready.some_process
        (omega (arith, ready.none_running)) (inr ready.none_running) in
    let kept = scheduler_update-Kept regs false k1 run in
    (
      out,
      rw (syscall_start_alive, ready.off, entry) run,
      record {
        on = kept.enabled;
        may = free;
        one = one;
        owned = subst (λ ts. TimersLive out.1.processes ts) (sym (kept.timers ∙ ready.no_timer)) tt;
      },
    )

-- The start of the system, with the scheduler not yet enabled and no timers: after `process_init`, at
-- least one call of `process_start`, and the first system call, which starts ALIVE, the kernel is in a
-- ready state: enabled, with its scheduler free to update, and exactly one process RUNNING.
pub boot-Ready :
    (pd wait stack : ℕ) (old p : Process) (ps : List Process) (regs : Registers) (k : Kernel)
    → k.enabled ≡ false
    → k.timers ≡ []
    → (out : Registers × Kernel) × (syscall_start_alive regs
          (start_all (p ∷ ps) (process_init pd wait stack old k))
        ≡ done out)
      × Ready out.1
unfolding start_all
boot-Ready pd wait stack old p ps regs k off no_timer =
    let first = process_init-Prepared pd wait stack old k off no_timer in
    let (ready, may) =
      start_all-Prepared ps (process_start p (process_init pd wait stack old k))
        (process_start-Prepared p _ first) (rw (start_steps p _ first) refl) in
    start_alive-Ready regs _ ready may
