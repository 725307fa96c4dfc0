-- ===== src/Kernel/Scheduler/One.antt =====
-- `scheduler_update` leaves exactly one process RUNNING (process.c, lines 376-469).
use tomat_os_old.Common.{
  ℕ, suc, ◌+◌, ◌*◌, ◌/◌, ◌≤◌, ◌<◌, ◌≡◌, ◌⊎◌, inl, inr, refl, Bool, true, false, not, Option, none,
  some, List, [], ◌∷◌, ◌∙◌, ap, ltb, if◌then◌else◌, get_elem?, length, Run, done, ◌>>=◌, arith,
  Bool-cases, Option-cases,
}
use mathlib.Core.Path.{subst}
use tomat_os_old.Kernel.{
  Registers, Status, running, normal, suspended, dead, Process, Kernel, alive, is_dead, is_running,
  modify,
}
use tomat_os_old.Kernel.Scheduler.{
  tick, Ticked, tick_all, pick, run_next, preempt, schedule, scheduler_update,
}
use tomat_os_old.Kernel.Scheduler.Running.{
  runs, one_if, one-runs, runs-modify, get_elem?-modify_self, pick-IsReady, normal-not_running,
  switch_none, switch_some,
}

abbrev pub Outcome : Run (Registers × Kernel) → Type 0
Outcome r = (out : Registers × Kernel) × (r ≡ done out) × (runs out.1.processes ≡ 1)

restart : Process → Process
restart p = record p { started = false }

first_process : (ps : List Process) → 0 < length ps → (p : Process) × (get_elem? ps 0 ≡ some p)
first_process [] h = absurd (omega arith)
first_process (p ∷ ps) h = (p, refl)

run_next_one :
    (regs : Registers) (k : Kernel)
    → 0 < length k.processes
    → runs k.processes ≡ 0
    → Outcome (run_next regs k)
unfolding run_next
run_next_one regs k some_process idle = elim (Option-cases (pick 0 0 none k.processes)) [
  | inr (j, found) ↦
      let (p, at, ready) = pick-IsReady k.processes j found in
      rw (run_next, found) (switch_none regs j k at (normal-not_running p ready) idle)
  | inl nothing ↦
      let (p, at) = first_process k.processes some_process in
      let f : Process → Process = λ p. record p { started = false } in
      let reset = modify alive f k.processes in
      let at' = get_elem?-modify_self alive f k.processes at in
      let waiting = one-runs alive k.processes at in
      rw (run_next, nothing)
        (switch_none regs alive (record k { processes = reset }) at' (ground arith)
          (ground (arith, runs-modify alive f k.processes at)))
]

preempt_one :
    (regs : Registers) (count c : ℕ) (k : Kernel) {p : Process}
    → get_elem? k.processes c ≡ some p
    → is_running p.status ≡ true
    → runs k.processes ≡ 1
    → Outcome (preempt regs count c k)
unfolding preempt
preempt_one regs count c k {p} at run one =
    elim (Bool-cases (ltb (1000 / count + p.priority * 100) p.running_time)) [
      | inr time_left ↦ rw (preempt, at, time_left) ((regs, k), refl, one)
      | inl time_up ↦ elim (Option-cases (pick 0 0 none k.processes)) [
        | inl nothing ↦ rw (preempt, at, time_up, nothing) ((regs, k), refl, one)
        | inr (j, found) ↦
            let (q, at_j, ready) = pick-IsReady k.processes j found in
            rw (preempt, at, time_up, found)
              (switch_some regs c j k at run at_j (normal-not_running q ready) one)
      ]
    ]

-- A tick neither starts nor stops the running process.
tick-is_running :
    (t address : ℕ) (p : Process) → is_running (tick t address p).status ≡ is_running p.status
unfolding tick
tick-is_running t address p = ground arith

runs-tick_all :
    (t : ℕ) (address : ℕ → ℕ) (i : ℕ) (ps : List Process)
    → runs (tick_all t address i ps).processes ≡ runs ps
unfolding tick_all
runs-tick_all t address i [] = refl
runs-tick_all t address i (p ∷ ps) =
    ground (arith, tick-is_running t (address i) p, runs-tick_all t address (i + 1) ps)

length-tick_all :
    (t : ℕ) (address : ℕ → ℕ) (i : ℕ) (ps : List Process)
    → length (tick_all t address i ps).processes ≡ length ps
unfolding tick_all
length-tick_all t address i [] = refl
length-tick_all t address i (p ∷ ps) = ap suc (length-tick_all t address (i + 1) ps)

-- What the loop says of the running process.
abbrev Seen : ℕ → Ticked → Option ℕ → Type 0
Seen i t none = runs t.processes ≡ 0
Seen i t (some j) =
    (n : ℕ) × (p : Process) × (j ≡ i + n)
    × (get_elem? t.processes n ≡ some p)
    × (is_running p.status ≡ true)

tick_all-Seen :
    (t : ℕ) (address : ℕ → ℕ) (i : ℕ) (ps : List Process)
    → Seen i (tick_all t address i ps) (tick_all t address i ps).running_process
unfolding tick_all
tick_all-Seen t address i [] = refl
tick_all-Seen t address i (p ∷ ps) =
    let ih = tick_all-Seen t address (i + 1) ps in
    let same = tick-is_running t (address i) p in
    elim (Option-cases (tick_all t address (i + 1) ps).running_process) [
      | inr (j, e) ↦
          let (n, q, at_j, at, run) = later j e ih in rw e (suc n, q, omega (arith, at_j), at, run)
      | inl e ↦ elim (Bool-cases (is_running p.status)) [
        | inl run ↦ rw (e, run) (0, tick t (address i) p, omega arith, refl, same ∙ run)
        | inr idle ↦ rw (e, idle) (ground (arith, gone e ih, same, idle))
      ]
    ]
  where
    later :
        (j : ℕ)
        → (tick_all t address (i + 1) ps).running_process ≡ some j
        → Seen
            (i + 1)
            (tick_all t address (i + 1) ps)
            (tick_all t address (i + 1) ps).running_process
        → Seen (i + 1) (tick_all t address (i + 1) ps) (some j)
    later j e h = rw e at h

    gone :
        (tick_all t address (i + 1) ps).running_process ≡ none
        → Seen
            (i + 1)
            (tick_all t address (i + 1) ps)
            (tick_all t address (i + 1) ps).running_process
        → runs (tick_all t address (i + 1) ps).processes ≡ 0
    gone e h = rw e at h

running-alive : (s : Status) → one_if (is_running s) ≤ (if is_dead s then 0 else 1)
running-alive running = omega arith
running-alive normal = omega arith
running-alive suspended = omega arith
running-alive dead = omega arith

-- A running process counts as alive, so the scheduler's division is by at least one: the `count`
-- that the loop leaves is at least the number of RUNNING processes.
pub runs-count :
    (t : ℕ) (address : ℕ → ℕ) (i : ℕ) (ps : List Process)
    → runs ps ≤ (tick_all t address i ps).count
unfolding tick_all
runs-count t address i [] = omega arith
runs-count t address i (p ∷ ps) =
    let ih = runs-count t address (i + 1) ps in
    let head = running-alive p.status in omega (arith, ih, head)

Seen-some :
    (t : Ticked) (j : ℕ)
    → Seen 0 t t.running_process
    → t.running_process ≡ some j
    → Seen 0 t (some j)
Seen-some t j h e = rw e at h

schedule_one :
    (regs : Registers) (from_timer : Bool) (k : Kernel)
    → 0 < length k.processes
    → runs k.processes ≤ 1
    → (from_timer ≡ true) ⊎ (runs k.processes ≡ 0)
    → Outcome (schedule regs from_timer k)
unfolding schedule
schedule_one regs false k some_process one calm =
    run_next_one regs k some_process (ground (arith, calm))
schedule_one regs true k some_process one calm =
    let t : Ticked = tick_all (k.updates * 10 + 10) k.event_address 0 k.processes in
    let after : Kernel = record k { processes = t.processes; updates = 0 } in
    let seen = tick_all-Seen (k.updates * 10 + 10) k.event_address 0 k.processes in
    let same = runs-tick_all (k.updates * 10 + 10) k.event_address 0 k.processes in
    let long = length-tick_all (k.updates * 10 + 10) k.event_address 0 k.processes in
    elim (Option-cases t.running_process) [
      | inl e ↦ rw (schedule, e) (run_next_one regs after (omega (arith, long)) (idle t 0 seen e))
      | inr (j, e) ↦
          let (p, at_j, run) = busy t j seen e in
          let some_run = one-runs j t.processes at_j in
          let exactly : runs t.processes ≡ 1 = ground (arith, some_run, run, same) in
          rw (schedule, e) (preempt_one regs t.count j after at_j run exactly)
    ]
  where
    idle :
        (t : Ticked) (i : ℕ)
        → Seen i t t.running_process
        → t.running_process ≡ none
        → runs t.processes ≡ 0
    idle t i h e = rw e at h

    busy :
        (t : Ticked) (j : ℕ)
        → Seen 0 t t.running_process
        → t.running_process ≡ some j
        → (p : Process) × (get_elem? t.processes j ≡ some p) × (is_running p.status ≡ true)
    busy t j h e =
        let (n, p, j_n, at, run) = Seen-some t j h e in
        (p, subst (λ m. get_elem? t.processes m ≡ some p) (omega (arith, j_n)) at, run)

-- Both guards passed.
guards :
    {A : Type 0} (on may : Bool) (x y z : A)
    → on ≡ true
    → may ≡ true
    → (if not on then x else if not may then y else z) ≡ z
guards true true x y z h h' = refl
guards true false x y z h h' = ground arith
guards false may x y z h h' = ground arith

-- Where the scheduler is enabled and may update, the table is not empty, at most one process is
-- RUNNING, and none is unless the call comes from the timer: `scheduler_update` returns, exactly
-- one process is RUNNING afterwards, and the scheduler may update again.
pub scheduler_update_one :
    (regs : Registers) (from_timer : Bool) (k : Kernel)
    → k.enabled ≡ true
    → k.can_update ≡ true
    → 0 < length k.processes
    → runs k.processes ≤ 1
    → (from_timer ≡ true) ⊎ (runs k.processes ≡ 0)
    → (out : Registers × Kernel) × (scheduler_update regs from_timer k ≡ done out)
      × (runs out.1.processes ≡ 1)
      × (out.1.can_update ≡ true)
unfolding scheduler_update
scheduler_update_one regs from_timer k on may some_process one calm =
    let k0 : Kernel = record k { can_update = false } in
    let ((r, k'), returns, left) = schedule_one regs from_timer k0 some_process one calm in
    let finish : Registers × Kernel → Run (Registers × Kernel) =
      λ (regs, k). done (regs, record k { can_update = true }) in
    (
      (r, record k' { can_update = true }),
      guards k.enabled k.can_update _ _ _ on may ∙ ap (λ r. r >>= finish) returns,
      left,
      refl,
    )
