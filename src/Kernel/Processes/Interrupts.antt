-- ===== src/Kernel/Processes/Interrupts.antt =====
-- The interrupts that reach a running kernel (process.c, lines 107-183 and 289-319, and timer.c,
-- lines 29-81), one after another.
use tomat_os_old.Common.{
  ℕ, zero, suc, ◌+◌, ◌<◌, ◌≡◌, ◌≢◌, refl, ◌∙◌, ap, inl, inr, Bool, true, false, some, List, [], ◌∷◌,
  ◌==◌, if◌then◌else◌, get_elem?, length, Run, done, arith, Bool-cases,
}
use tomat_os_old.Kernel.{
  Registers, suspended, dead, Process, Timer, Kernel, alive, is_running, find_from,
  process_get_running, modify, pull_event, has_events,
}
use tomat_os_old.Kernel.Timers.{place_timer, cancel_all, timer_cancel}
use tomat_os_old.Kernel.Scheduler.{scheduler_update}
use tomat_os_old.Kernel.Scheduler.Running.{runs, runs-modify}
use tomat_os_old.Kernel.Scheduler.Live.{live, live-modify}
use tomat_os_old.Kernel.Processes.{retire, process_kill, pull_or_wait}
use tomat_os_old.Kernel.Processes.Ready.{
  Owned, TimersLive, Ready, Lives, TimersLive-Lives, length-runs, runs-modify_same, update-Ready,
}

-- What a look-up finds is in the table and passes the test.
pub find_from_lem :
    (test : Process → Bool) (n j : ℕ) (ps : List Process)
    → find_from test n ps ≡ some j
    → (i : ℕ) × (p : Process) × (j ≡ n + i) × (get_elem? ps i ≡ some p) × (test p ≡ true)
unfolding find_from
find_from_lem test n j [] h = absurd (ground (arith, h))
find_from_lem test n j (p ∷ ps) h = elim (Bool-cases (test p)) [
  | inl e ↦ (0, p, ground (arith, e, h), refl, e)
  | inr e ↦
      let (i, q, at, elem, ok) = find_from_lem test (n + 1) j ps (ground (arith, e, h)) in
      (suc i, q, omega (arith, at), elem, ok)
]

find_from-runs :
    (n : ℕ) (ps : List Process)
    → 0 < runs ps
    → (j : ℕ) × (find_from (λ p. is_running p.status) n ps ≡ some j)
unfolding find_from
find_from-runs n [] h = absurd (omega (arith, h))
find_from-runs n (p ∷ ps) h = elim (Bool-cases (is_running p.status)) [
  | inl e ↦ (n, ground (arith, e))
  | inr e ↦
      let (j, found) = find_from-runs (n + 1) ps (ground (arith, e, h)) in
      (j, ground (arith, e, found))
]

-- The running process of a table.
pub record Current (ps : List Process) : Type 0 where
  pub at : ℕ
  pub process : Process
  pub found : process_get_running ps ≡ some at
  pub elem : get_elem? ps at ≡ some process
  pub runs_now : is_running process.status ≡ true

pub current : (ps : List Process) → runs ps ≡ 1 → Current ps
unfolding process_get_running
current ps one =
    let (j, found) = find_from-runs 0 ps (omega (arith, one)) in
    let (i, p, at, elem, run) = find_from_lem (λ p. is_running p.status) 0 j ps found in
    record {
      at = i;
      process = p;
      found = found ∙ ap some (omega (arith, at));
      elem = elem;
      runs_now = run;
    }

pub live-at :
    (i : ℕ) (ps : List Process) {p : Process}
    → get_elem? ps i ≡ some p
    → is_running p.status ≡ true
    → live p.uid ps ≡ true
live-at i [] h run = absurd (ground (arith, h))
live-at zero (q ∷ ps) h run = ground (arith, h, run)
live-at (suc i) (q ∷ ps) h run = ground (arith, live-at i ps h run)

All-if :
    (ps : List Process) (b : Bool) (ts us : List Timer)
    → TimersLive ps ts
    → TimersLive ps us
    → TimersLive ps (if b then ts else us)
All-if ps true ts us h h' = h
All-if ps false ts us h h' = h'

pub place_timer-TimersLive :
    (ps : List Process) (t : Timer) (ts : List Timer)
    → Owned ps t
    → TimersLive ps ts
    → TimersLive ps (place_timer t ts)
unfolding place_timer
place_timer-TimersLive ps t [] own h = (own, record {})
place_timer-TimersLive ps t (s ∷ ts) own (own', h) =
    All-if ps s.finished (t ∷ ts) (s ∷ place_timer t ts) (own, h)
      (own', place_timer-TimersLive ps t ts own h)

-- Cancelling all timers of `uid` leaves owned timers when only `uid` can have died.
cancel_all-TimersLive :
    (ps qs : List Process) (uid : ℕ) (ts : List Timer)
    → ((other : ℕ) → other ≢ uid → live other ps ≡ true → live other qs ≡ true)
    → TimersLive ps ts
    → TimersLive qs (cancel_all uid 0 ts)
unfolding cancel_all
cancel_all-TimersLive ps qs uid [] keep h = record {}
cancel_all-TimersLive ps qs uid (t ∷ ts) keep (own, h) = (
  elim (Bool-cases (t.uid == uid)) [
    | inl mine ↦ ground (arith, mine)
    | inr not_mine ↦ elim own [
      | inl over ↦ ground (arith, not_mine, over)
      | inr l ↦ ground (arith, not_mine, keep t.uid (ground (arith, not_mine)) l)
    ]
  ],
  cancel_all-TimersLive ps qs uid ts keep h,
)

pub cancel_some-TimersLive :
    (ps : List Process) (uid id : ℕ) (ts : List Timer)
    → TimersLive ps ts
    → TimersLive ps (cancel_all uid id ts)
unfolding cancel_all
cancel_some-TimersLive ps uid id [] h = record {}
cancel_some-TimersLive ps uid id (t ∷ ts) (own, h) =
    (ground (arith, own), cancel_some-TimersLive ps uid id ts h)

live-kill :
    (i other : ℕ) (f : Process → Process) (ps : List Process) {p : Process}
    → get_elem? ps i ≡ some p
    → other ≢ p.uid
    → live other ps ≡ true
    → live other (modify i f ps) ≡ true
live-kill i other f [] at ne h = h
live-kill zero other f (q ∷ ps) at ne h = ground (arith, at, h)
live-kill (suc i) other f (q ∷ ps) at ne h = ground (arith, h, live-kill i other f ps at ne)

-- `process_kill` before it calls the scheduler.
retire-runs :
    (i pd : ℕ) (k : Kernel) {p : Process}
    → get_elem? k.processes i ≡ some p
    → runs (retire i pd p k).processes + (if is_running p.status then 1 else 0) ≡ runs k.processes
unfolding retire timer_cancel
retire-runs i pd k {p} at =
    ground (arith, runs-modify i (λ p. record p { status = dead; events = [] }) k.processes at)

retire-TimersLive :
    (i pd : ℕ) (k : Kernel) {p : Process}
    → get_elem? k.processes i ≡ some p
    → TimersLive k.processes k.timers
    → TimersLive (retire i pd p k).processes (retire i pd p k).timers
unfolding retire timer_cancel
retire-TimersLive i pd k {p} at h =
    let kill : Process → Process = λ p. record p { status = dead; events = [] } in
    cancel_all-TimersLive k.processes (modify i kill k.processes) p.uid k.timers
      (λ other ne l. live-kill i other kill k.processes at ne l) h

length-modify :
    (i : ℕ) (f : Process → Process) (ps : List Process) → length (modify i f ps) ≡ length ps
length-modify i f [] = refl
length-modify zero f (p ∷ ps) = refl
length-modify (suc i) f (p ∷ ps) = ap suc (length-modify i f ps)

retire-length :
    (i pd : ℕ) (p : Process) (k : Kernel) → length (retire i pd p k).processes ≡ length k.processes
unfolding retire timer_cancel
retire-length i pd p k = length-modify i _ k.processes

retire-enabled : (i pd : ℕ) (p : Process) (k : Kernel) → (retire i pd p k).enabled ≡ k.enabled
unfolding retire timer_cancel
retire-enabled i pd p k = refl

retire-can_update : (i pd : ℕ) (p : Process) (k : Kernel) → (retire i pd p k).can_update ≡ true
unfolding retire
retire-can_update i pd p k = refl

first_entry : (ps : List Process) → 0 < length ps → (p : Process) × (get_elem? ps alive ≡ some p)
first_entry [] h = absurd (omega arith)
first_entry (p ∷ ps) h = (p, refl)

abbrev pub Returns : Run (Registers × Kernel) → Type 0
Returns r = (out : Registers × Kernel) × (r ≡ done out) × Ready out.1

kill_steps :
    (regs : Registers) (i : ℕ) (k : Kernel) (p a : Process) (r : Run (Registers × Kernel))
    → get_elem? k.processes i ≡ some p
    → get_elem? k.processes alive ≡ some a
    → (if is_running p.status
        then scheduler_update regs false (retire i a.pd p k)
        else done (regs, retire i a.pd p k))
      ≡ r
    → process_kill regs i k ≡ r
unfolding process_kill
kill_steps regs i k p a r at first rest = rw (process_kill, at, first) rest

pub process_kill-Ready :
    (regs : Registers) (i : ℕ) (k : Kernel) {p : Process}
    → get_elem? k.processes i ≡ some p
    → Ready k
    → Returns (process_kill regs i k)
unfolding process_kill
process_kill-Ready regs i k {p} at ready =
    let some_process = length-runs k.processes ready.one in
    let (a, first) = first_entry k.processes some_process in
    let fewer = retire-runs i a.pd k at in
    let owned = retire-TimersLive i a.pd k at ready.owned in
    elim (Bool-cases (is_running p.status)) [
      | inl run ↦
          let (out, returns, left) =
            update-Ready regs false (retire i a.pd p k) (retire-enabled i a.pd p k ∙ ready.on)
              (retire-can_update i a.pd p k) (omega (arith, some_process, retire-length i a.pd p k))
              (inl (ground (arith, fewer, run, ready.one))) owned in
          (out, kill_steps regs i k p a _ at first (rw run returns), left)
      | inr idle ↦ (
        (regs, retire i a.pd p k),
        kill_steps regs i k p a _ at first (rw idle refl),
        record {
          on = retire-enabled i a.pd p k ∙ ready.on;
          may = retire-can_update i a.pd p k;
          one = ground (arith, fewer, idle, ready.one);
          owned = owned;
        },
      )
    ]

pub pull_or_wait-Ready :
    (regs : Registers) (i : ℕ) (k : Kernel) {p : Process}
    → get_elem? k.processes i ≡ some p
    → is_running p.status ≡ true
    → Ready k
    → Returns (pull_or_wait regs i p k)
unfolding pull_or_wait
pull_or_wait-Ready regs i k {p} at run ready = elim (Bool-cases (has_events p.events)) [
  | inl some_event ↦
      let (event, events) = pull_event p.events p.current_event in
      let take : Process → Process = λ p. record p { current_event = event; events = events } in
      let lives : Lives k.processes (modify i take k.processes) = λ uid h.
        live-modify uid i k.processes (record { same_uid = λ p. refl; lives = λ p h. h }) h in
      (
        (
          record regs { eax = k.event_address i },
          record k { processes = modify i take k.processes },
        ),
        rw some_event refl,
        record {
          on = ready.on;
          may = ready.may;
          one = runs-modify_same i take k.processes (λ p. refl) ∙ ready.one;
          owned =
              TimersLive-Lives k.processes (modify i take k.processes) k.timers lives ready.owned;
        },
      )
  | inr no_event ↦
      let wait : Process → Process = λ p. record p { status = suspended; registers = regs } in
      let lives : Lives k.processes (modify i wait k.processes) = λ uid h.
        live-modify uid i k.processes (record { same_uid = λ p. refl; lives = λ p h. refl }) h in
      let (out, returns, left) =
        update-Ready regs false (record k { processes = modify i wait k.processes }) ready.on
          ready.may
          (omega (arith, length-runs k.processes ready.one, length-modify i wait k.processes))
          (inl (ground (arith, runs-modify i wait k.processes at, run, ready.one)))
          (TimersLive-Lives k.processes (modify i wait k.processes) k.timers lives ready.owned) in
      (out, rw no_event returns, left)
]
