-- ===== src/Kernel/Processes/Ready.antt =====
-- The state between two interrupts, and the timers (TomatKernel/core/timer.c, lines 29-122).
use tomat_os_old.Common.{
  ℕ, zero, suc, ◌<◌, ◌≡◌, refl, ◌∙◌, ◌⊎◌, inl, inr, Bool, true, List, [], ◌∷◌, sub32, length, All,
  done, arith, Bool-cases,
}
use tomat_os_old.Kernel.{Registers, Event, Process, Timer, Kernel, modify}
use tomat_os_old.Kernel.Scheduler.{scheduler_update}
use tomat_os_old.Kernel.Scheduler.Running.{runs}
use tomat_os_old.Kernel.Scheduler.One.{scheduler_update_one}
use tomat_os_old.Kernel.Scheduler.Live.{live, process_get-live, live-modify, scheduler_update-Kept}
use tomat_os_old.Kernel.Processes.{
  push_event, timer_event, runs_out, fire, fire_timers, handle_timer_irq,
}

-- A timer that has not finished belongs to a process that lives.
abbrev pub Owned : List Process → Timer → Type 0
Owned ps t = (t.finished ≡ true) ⊎ (live t.uid ps ≡ true)

abbrev pub TimersLive : List Process → List Timer → Type 0
TimersLive ps ts = All (Owned ps) ts

-- The kernel runs, its scheduler is not held up, one process is RUNNING, and every timer that
-- has not finished has an owner.
pub record Ready (k : Kernel) : Type 0 where
  pub on : k.enabled ≡ true
  pub may : k.can_update ≡ true
  pub one : runs k.processes ≡ 1
  pub owned : TimersLive k.processes k.timers

abbrev pub Lives : List Process → List Process → Type 0
Lives ps qs = (uid : ℕ) → live uid ps ≡ true → live uid qs ≡ true

pub Owned-Lives : (ps qs : List Process) (t : Timer) → Lives ps qs → Owned ps t → Owned qs t
Owned-Lives ps qs t keep (inl over) = inl over
Owned-Lives ps qs t keep (inr l) = inr (keep t.uid l)

pub TimersLive-Lives :
    (ps qs : List Process) (ts : List Timer) → Lives ps qs → TimersLive ps ts → TimersLive qs ts
TimersLive-Lives ps qs [] keep h = record {}
TimersLive-Lives ps qs (t ∷ ts) keep (own, h) =
    (Owned-Lives ps qs t keep own, TimersLive-Lives ps qs ts keep h)

pub length-runs : (ps : List Process) → runs ps ≡ 1 → 0 < length ps
length-runs [] h = absurd (omega (arith, h))
length-runs (p ∷ ps) h = omega arith

-- A change that keeps the status of an entry keeps the number of running ones.
pub runs-modify_same :
    (i : ℕ) (f : Process → Process) (ps : List Process)
    → ((p : Process) → (f p).status ≡ p.status)
    → runs (modify i f ps) ≡ runs ps
runs-modify_same i f [] same = refl
runs-modify_same zero f (p ∷ ps) same = ground (arith, same p)
runs-modify_same (suc i) f (p ∷ ps) same = ground (arith, runs-modify_same i f ps same)

pub push_event-runs : (i : ℕ) (e : Event) (ps : List Process) → runs (push_event i e ps) ≡ runs ps
unfolding push_event
push_event-runs i e ps = runs-modify_same i _ ps (λ p. refl)

pub push_event-Lives : (i : ℕ) (e : Event) (ps : List Process) → Lives ps (push_event i e ps)
unfolding push_event
push_event-Lives i e ps uid h =
    live-modify uid i ps (record { same_uid = λ p. refl; lives = λ p h. h }) h

-- What the timers' loop leaves of the table.
pub record Fired (ps qs : List Process) : Type 0 where
  pub lives : Lives ps qs
  pub same : runs qs ≡ runs ps

pub fire-Fired :
    (t : Timer) (ps : List Process)
    → Owned ps t
    → (t' : Timer) × (qs : List Process) × (fire t ps ≡ done (t', qs)) × Fired ps qs × Owned qs t'
unfolding fire
fire-Fired t ps owned =
    let still : Fired ps ps = record { lives = λ uid h. h; same = refl } in
    elim (Bool-cases t.finished) [
      | inl over ↦ (t, ps, ground (arith, over), still, inl over)
      | inr going ↦
          let l : live t.uid ps ≡ true = ground (arith, owned, going) in
          elim (Bool-cases (runs_out t)) [
            | inr waits ↦ (
              record t { millis_left = sub32 t.millis_left 10 },
              ps,
              ground (arith, going, waits),
              still,
              inr l,
            )
            | inl out ↦
                let (i, found) = process_get-live t.uid ps l in
                (
                  record t { finished = true },
                  push_event i (timer_event t) ps,
                  ground (arith, going, out, found),
                  record {
                    lives = push_event-Lives i (timer_event t) ps;
                    same = push_event-runs i (timer_event t) ps;
                  },
                  inl refl,
                )
          ]
    ]

pub fire_timers-Fired :
    (ts : List Timer) (ps : List Process)
    → TimersLive ps ts
    → (ts' : List Timer) × (qs : List Process) × (fire_timers ts ps ≡ done (ts', qs))
      × Fired ps qs
      × TimersLive qs ts'
unfolding fire_timers
fire_timers-Fired [] ps owned =
    ([], ps, refl, record { lives = λ uid h. h; same = refl }, record {})
fire_timers-Fired (t ∷ ts) ps (own, owned) =
    let (t', qs, first, a, own') = fire-Fired t ps own in
    let (ts', rs, rest, b, owned') =
      fire_timers-Fired ts qs (TimersLive-Lives ps qs ts a.lives owned) in
    (
      t' ∷ ts',
      rs,
      ground (arith, first, rest),
      record { lives = λ uid h. b.lives uid (a.lives uid h); same = b.same ∙ a.same },
      (Owned-Lives qs rs t' b.lives own', owned'),
    )

-- The scheduler, from a state that is ready but for the running process.
pub update-Ready :
    (regs : Registers) (from_timer : Bool) (k : Kernel)
    → k.enabled ≡ true
    → k.can_update ≡ true
    → 0 < length k.processes
    → (runs k.processes ≡ 0) ⊎ ((from_timer ≡ true) × (runs k.processes ≡ 1))
    → TimersLive k.processes k.timers
    → (out : Registers × Kernel) × (scheduler_update regs from_timer k ≡ done out) × Ready out.1
update-Ready regs from_timer k on may some_process calm owned =
    let ((r, k'), returns, one, may') =
      scheduler_update_one regs from_timer k on may some_process (ground (arith, calm))
        (ground (arith, calm)) in
    let kept = scheduler_update-Kept regs from_timer k returns in
    (
      (r, k'),
      returns,
      record {
        on = kept.enabled ∙ on;
        may = may';
        one = one;
        owned =
            rw kept.timers (TimersLive-Lives k.processes k'.processes k.timers kept.lives owned);
      },
    )

-- From a ready state the timer interrupt returns, in a ready state: no timer is without its owner,
-- so `handle_timer_irq` does not panic, and one process is RUNNING afterwards.
pub handle_timer_irq-Ready :
    (regs : Registers) (k : Kernel)
    → Ready k
    → (out : Registers × Kernel) × (handle_timer_irq regs k ≡ done out) × Ready out.1
unfolding handle_timer_irq
handle_timer_irq-Ready regs k ready =
    let (ts, ps, fired, a, owned) = fire_timers-Fired k.timers k.processes ready.owned in
    let k' : Kernel = record k { timers = ts; processes = ps } in
    let (out, returns, left) =
      update-Ready regs true k' ready.on ready.may (length-runs ps (a.same ∙ ready.one))
        (inr (refl, a.same ∙ ready.one)) owned in
    (out, rw fired returns, left)
