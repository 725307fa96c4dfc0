-- ===== src/Kernel/Processes/Countdown.antt =====
-- How a timer runs out, interrupt by interrupt (TomatKernel/core/timer.c, lines 29-57 and 96-113).
use tomat_os_old.Common.{
  ℕ, suc, ◌+◌, ◌-◌, ◌*◌, ◌^◌, ◌≤◌, ◌<◌, ◌≡◌, ◌≢◌, ◌⊎◌, inl, inr, ◌∙◌, refl, Bool, sym, ap, true,
  false, Option-cases, none, some, List, [], ◌∷◌, All, leb, ltb, ◌==◌, if◌then◌else◌, add32, sub32,
  done, panic, arith, Bool-cases, ==→eq,
}
use mathlib.Core.Path.{subst}
use tomat_os_old.Kernel.{Registers, Process, Timer, Kernel, process_get}
use tomat_os_old.Kernel.Timers.{place_timer, timer_start}
use tomat_os_old.Kernel.Scheduler.{scheduler_update}
use tomat_os_old.Kernel.Scheduler.Live.{process_get-live, live, scheduler_update-Kept}
use tomat_os_old.Kernel.Processes.{
  push_event, timer_event, runs_out, fire, fire_timers, handle_timer_irq,
}
use tomat_os_old.Kernel.Processes.Ready.{Ready, Owned, TimersLive}

-- With wrap-around the test of the interrupt still means: no more than 10 milliseconds are left.
runs_out_lem : (t : Timer) → t.millis_left < 2 ^ 32 → runs_out t ≡ leb t.millis_left 10
unfolding runs_out
runs_out_lem t small = ground (arith, small)

-- A new timer after `m` interrupts, where it runs out at the one with number `n + 1`.
aged : (n : ℕ) → Timer → (m : ℕ) → Timer
aged n t m = record t {
  millis_left = t.millis_left - 10 * (if leb m n then m else n);
  finished = ltb n m;
}

-- A timer with a time that runs out at the interrupt number `n + 1`.
pub record Due (n : ℕ) (t : Timer) : Type 0 where
  pub small : t.millis_left < 2 ^ 32
  pub low : 10 * n ≤ t.millis_left - 1
  pub high : t.millis_left ≤ 10 * n + 10

-- A timer with `left` milliseconds left.
abbrev with_left : Timer → (left : ℕ) → (over : Bool) → Timer
with_left t left over = record t { millis_left = left; finished = over }

aged_early : (n m : ℕ) (t : Timer) → m ≤ n → aged n t m ≡ with_left t (t.millis_left - 10 * m) false
unfolding aged
aged_early n m t early =
    let now : leb m n ≡ true = ground (arith, early) in
    let going : ltb n m ≡ false = ground (arith, early) in rw (aged, now, going) refl

aged_late : (n m : ℕ) (t : Timer) → n < m → aged n t m ≡ with_left t (t.millis_left - 10 * n) true
unfolding aged
aged_late n m t late =
    let now : leb m n ≡ false = ground (arith, late) in
    let over : ltb n m ≡ true = ground (arith, late) in rw (aged, now, over) refl

new_aged : (n : ℕ) (t : Timer) → t.finished ≡ false → aged n t 0 ≡ t
new_aged n t new =
    aged_early n 0 t (omega arith)
    ∙ ap (λ left. with_left t left false) (omega arith)
    ∙ ap (λ over. with_left t t.millis_left over) (sym new)

count_down :
    (t : Timer) (ps : List Process)
    → t.finished ≡ false
    → t.millis_left < 2 ^ 32
    → 10 < t.millis_left
    → fire t ps ≡ done (record t { millis_left = t.millis_left - 10 }, ps)
unfolding fire
count_down t ps going small long =
    let waits : runs_out t ≡ false = ground (arith, runs_out_lem t small, long) in
    let less : sub32 t.millis_left 10 ≡ t.millis_left - 10 = omega (arith, small, long) in
    let step : fire t ps ≡ done (record t { millis_left = sub32 t.millis_left 10 }, ps) =
      ground (arith, going, waits) in
    step ∙ ap (λ m. done (record t { millis_left = m }, ps)) less

run_out :
    (t : Timer) (ps : List Process) (i : ℕ)
    → t.finished ≡ false
    → t.millis_left < 2 ^ 32
    → t.millis_left ≤ 10
    → process_get t.uid ps ≡ some i
    → fire t ps ≡ done (record t { finished = true }, push_event i (timer_event t) ps)
unfolding fire
run_out t ps i going small short found =
    let out : runs_out t ≡ true = ground (arith, runs_out_lem t small, short) in
    ground (arith, going, out, found)

run_out_nobody :
    (t : Timer) (ps : List Process)
    → t.finished ≡ false
    → t.millis_left < 2 ^ 32
    → t.millis_left ≤ 10
    → process_get t.uid ps ≡ none
    → fire t ps ≡ panic
unfolding fire
run_out_nobody t ps going small short nobody =
    let out : runs_out t ≡ true = ground (arith, runs_out_lem t small, short) in
    ground (arith, going, out, nobody)

ignore : (t : Timer) (ps : List Process) → t.finished ≡ true → fire t ps ≡ done (t, ps)
unfolding fire
ignore t ps over = ground (arith, over)

fire_waits :
    (n m : ℕ) (t : Timer) (ps : List Process)
    → Due n t
    → m < n
    → fire (aged n t m) ps ≡ done (aged n t (suc m), ps)
fire_waits n m t ps due early =
    ap (λ u. fire u ps) (aged_early n m t (omega (arith, early)))
    ∙ count_down (with_left t (t.millis_left - 10 * m) false) ps refl (omega (arith, due.small))
        (omega (arith, due.low, early))
    ∙ ap (λ left. done (with_left t left false, ps)) (omega arith)
    ∙ ap (λ u. done (u, ps)) (sym (aged_early n (suc m) t (omega (arith, early))))

fire_ends :
    (n : ℕ) (t : Timer) (ps : List Process) (i : ℕ)
    → Due n t
    → process_get t.uid ps ≡ some i
    → fire (aged n t n) ps ≡ done (aged n t (suc n), push_event i (timer_event t) ps)
unfolding timer_event
fire_ends n t ps i due found =
    ap (λ u. fire u ps) (aged_early n n t (omega arith))
    ∙ run_out (with_left t (t.millis_left - 10 * n) false) ps i refl (omega (arith, due.small))
        (omega (arith, due.high)) found
    ∙ ap (λ u. done (u, push_event i (timer_event t) ps))
        (sym (aged_late n (suc n) t (omega arith)))

fire_nobody :
    (n : ℕ) (t : Timer) (ps : List Process)
    → Due n t
    → process_get t.uid ps ≡ none
    → fire (aged n t n) ps ≡ panic
fire_nobody n t ps due nobody =
    ap (λ u. fire u ps) (aged_early n n t (omega arith))
    ∙ run_out_nobody (with_left t (t.millis_left - 10 * n) false) ps refl (omega (arith, due.small))
        (omega (arith, due.high)) nobody

fire_over :
    (n m : ℕ) (t : Timer) (ps : List Process)
    → n < m
    → fire (aged n t m) ps ≡ done (aged n t (suc m), ps)
fire_over n m t ps late =
    ap (λ u. fire u ps) (aged_late n m t late)
    ∙ ignore (with_left t (t.millis_left - 10 * n) true) ps refl
    ∙ ap (λ u. done (u, ps)) (sym (aged_late n (suc m) t (omega (arith, late))))

-- A timer that has not run out belongs to a process that lives.
unfinished_live :
    (n : ℕ) (t : Timer) (ps : List Process) → Owned ps (aged n t n) → live t.uid ps ≡ true
unfolding aged
unfinished_live n t ps (inl over) = absurd (ground (arith, over))
unfinished_live n t ps (inr lives) = lives

abbrev AllOver : List Timer → Type 0
AllOver ts = All (λ t. t.finished ≡ true) ts

-- Finished timers do nothing.
fire_timers_over :
    (ts : List Timer) (ps : List Process) → AllOver ts → fire_timers ts ps ≡ done (ts, ps)
unfolding fire_timers fire
fire_timers_over [] ps over = refl
fire_timers_over (t ∷ ts) ps (over, all_over) =
    rw (fire_timers, fire, over, fire_timers_over ts ps all_over) refl

fire_timers_first :
    (t t' : Timer) (ts : List Timer) (ps qs : List Process)
    → AllOver ts
    → fire t ps ≡ done (t', qs)
    → fire_timers (t ∷ ts) ps ≡ done (t' ∷ ts, qs)
unfolding fire_timers
fire_timers_first t t' ts ps qs over first =
    rw (fire_timers, first, fire_timers_over ts qs over) refl

panic_done : (out : Registers × Kernel) → panic ≢ done out
panic_done out e = absurd (ground (arith, e))

-- What the interrupt hands to the scheduler.
irq_steps :
    (regs : Registers) (k : Kernel) (ts : List Timer) (qs : List Process)
    → fire_timers k.timers k.processes ≡ done (ts, qs)
    → handle_timer_irq regs k
      ≡ scheduler_update regs true (record k { timers = ts; processes = qs })
unfolding handle_timer_irq
irq_steps regs k ts qs fired = rw (handle_timer_irq, fired) refl

-- The interrupt with number `m + 1`.
abbrev pub NextTick : (n m : ℕ) (t : Timer) (regs : Registers) (k : Kernel) → List Timer → Type 0
NextTick n m t regs k ts =
    ((m ≢ n) × (handle_timer_irq regs k ≡ scheduler_update regs true (record k { timers = ts })))
    ⊎ ((m ≡ n)
        × ((i : ℕ) × (process_get t.uid k.processes ≡ some i)
            × (handle_timer_irq regs k
                ≡ scheduler_update regs true (record k {
                  timers = ts;
                  processes = push_event i (timer_event t) k.processes;
                }))))

-- `count` interrupts of the timer, each of which returns; between two of them anything may happen that
-- leaves the timers as they are.
pub data Ticks : (count : ℕ) → Kernel → Kernel → Type 0 where
  here : {k : Kernel} → Ticks 0 k k
  next :
      {count : ℕ} {k k1 k2 k' : Kernel} (regs : Registers) {regs1 : Registers}
      → handle_timer_irq regs k ≡ done (regs1, k1)
      → k2.timers ≡ k1.timers
      → Ticks count k2 k'
      → Ticks (suc count) k k'

module _ (n : ℕ) (t : Timer) (rest : List Timer) (due : Due n t) (over : AllOver rest) where
  not_due :
      (m : ℕ) (regs : Registers) (k : Kernel)
      → k.timers ≡ aged n t m ∷ rest
      → m ≢ n
      → handle_timer_irq regs k
        ≡ scheduler_update regs true (record k { timers = aged n t (suc m) ∷ rest })
  not_due m regs k timers other =
      let fires : fire (aged n t m) k.processes ≡ done (aged n t (suc m), k.processes) =
        elim (Bool-cases (ltb m n)) [
          | inl early ↦ fire_waits n m t k.processes due (ground (arith, early))
          | inr late ↦ fire_over n m t k.processes (ground (arith, late, other))
        ] in
      irq_steps regs k (aged n t (suc m) ∷ rest) k.processes (
        ap (λ ts. fire_timers ts k.processes) timers
        ∙ fire_timers_first (aged n t m) _ rest k.processes _ over fires)

  now_due :
      (regs : Registers) (k : Kernel) (i : ℕ)
      → k.timers ≡ aged n t n ∷ rest
      → process_get t.uid k.processes ≡ some i
      → handle_timer_irq regs k
        ≡ scheduler_update regs true (record k {
          timers = aged n t (suc n) ∷ rest;
          processes = push_event i (timer_event t) k.processes;
        })
  now_due regs k i timers found =
      irq_steps regs k (aged n t (suc n) ∷ rest) (push_event i (timer_event t) k.processes) (
        ap (λ ts. fire_timers ts k.processes) timers
        ∙ fire_timers_first (aged n t n) _ rest k.processes _ over
            (fire_ends n t k.processes i due found))

  nobody_due :
      (regs : Registers) (k : Kernel)
      → k.timers ≡ aged n t n ∷ rest
      → process_get t.uid k.processes ≡ none
      → handle_timer_irq regs k ≡ panic
  unfolding handle_timer_irq fire_timers
  nobody_due regs k timers nobody =
      rw (handle_timer_irq, timers, fire_timers, fire_nobody n t k.processes due nobody) refl

  -- The timers behind one interrupt.
  one_tick :
      (m : ℕ) (regs : Registers) (k : Kernel) {out : Registers × Kernel}
      → k.timers ≡ aged n t m ∷ rest
      → handle_timer_irq regs k ≡ done out
      → out.1.timers ≡ aged n t (suc m) ∷ rest
  one_tick m regs k timers returns = elim (Bool-cases (m == n)) [
    | inr other ↦
        (scheduler_update-Kept regs true (record k { timers = aged n t (suc m) ∷ rest })
          (sym (not_due m regs k timers (ground (arith, other))) ∙ returns)).timers
    | inl same ↦
        let now : m ≡ n = ==→eq m n same in
        let timers' : k.timers ≡ aged n t n ∷ rest = timers ∙ ap (λ m. aged n t m ∷ rest) now in
        elim (Option-cases (process_get t.uid k.processes)) [
          | inl nobody ↦ absurd (panic_done _ (sym (nobody_due regs k timers' nobody) ∙ returns))
          | inr (i, found) ↦
              (scheduler_update-Kept regs true _
                (sym (now_due regs k i timers' found) ∙ returns)).timers
              ∙ ap (λ m. aged n t (suc m) ∷ rest) (sym now)
        ]
  ]

  ticked :
      (m count : ℕ) (k k' : Kernel)
      → k.timers ≡ aged n t m ∷ rest
      → Ticks count k k'
      → k'.timers ≡ aged n t (m + count) ∷ rest
  ticked m _ k _ timers here = timers ∙ ap (λ m. aged n t m ∷ rest) (omega arith)
  ticked m _ k k' timers (Ticks.next {count} {k2 = k2} regs returns same more) =
      ticked (suc m) count k2 k' (same ∙ one_tick m regs k timers returns) more
      ∙ ap (λ m. aged n t m ∷ rest) (omega arith)

  interrupt :
      (m : ℕ) (regs : Registers) (k : Kernel)
      → k.timers ≡ aged n t m ∷ rest
      → Ready k
      → NextTick n m t regs k (aged n t (suc m) ∷ rest)
  interrupt m regs k timers ready = elim (Bool-cases (m == n)) [
    | inr other ↦ let ne : m ≢ n = ground (arith, other) in inl (ne, not_due m regs k timers ne)
    | inl same ↦
        let now : m ≡ n = ==→eq m n same in
        let timers' : k.timers ≡ aged n t n ∷ rest = timers ∙ ap (λ m. aged n t m ∷ rest) now in
        let owned = subst (TimersLive k.processes) timers' ready.owned in
        let (i, found) =
          process_get-live t.uid k.processes (unfinished_live n t k.processes owned.0) in
        inr (
          now,
          (
            i,
            found,
            now_due regs k i timers' found
                ∙ ap
                    (λ m. scheduler_update regs true (record k {
                      timers = aged n t (suc m) ∷ rest;
                      processes = push_event i (timer_event t) k.processes;
                    }))
                    (sym now),
          ),
        )
  ]

-- The timers that `timer_start` leaves, where none was running.
placed :
    (t : Timer) (ts : List Timer)
    → AllOver ts
    → (rest : List Timer) × (place_timer t ts ≡ t ∷ rest) × AllOver rest
unfolding place_timer
placed t [] over = ([], refl, tt)
placed t (s ∷ ts) (over_s, over) = (ts, rw (place_timer, over_s) refl, over)

-- Let `timer_start` be called with `millis` milliseconds while no timer is running, and let 10 * n <
-- millis <= 10 * n + 10 (n = 0 for millis = 0). After `m` interrupts of the timer that have returned,
-- between which anything may have happened that leaves the timers as they are, the next one, in a
-- ready state, does nothing but count down and update the scheduler if `m` is not `n`, be it before
-- or behind it; and if it is, it also pushes one event, with the timer's id, to the process that
-- started it. So the event comes exactly once, at the interrupt with number n + 1.
pub timer_start-handle_timer_irq :
    (uid millis n m : ℕ) (k k' : Kernel) (regs : Registers)
    → AllOver k.timers
    → millis < 2 ^ 32
    → 10 * n ≤ millis - 1
    → millis ≤ 10 * n + 10
    → Ticks m (timer_start uid millis k).1 k'
    → Ready k'
    → (ts : List Timer) × NextTick n m
        (record {
          id = (timer_start uid millis k).0;
          uid = uid;
          millis_left = millis;
          finished = false;
        })
        regs
        k'
        ts
unfolding timer_start
timer_start-handle_timer_irq uid millis n m k k' regs over small low high ticks ready =
    let t : Timer = record {
      id = add32 k.last_id 1;
      uid = uid;
      millis_left = millis;
      finished = false;
    } in
    let due : Due n t = record { small = small; low = low; high = high } in
    let (rest, first, over') = placed t k.timers over in
    let start : (timer_start uid millis k).1.timers ≡ aged n t 0 ∷ rest =
      first ∙ ap (λ t. t ∷ rest) (sym (new_aged n t refl)) in
    let timers : k'.timers ≡ aged n t m ∷ rest =
      ticked n t rest due over' 0 m (timer_start uid millis k).1 k' start ticks
      ∙ ap (λ m. aged n t m ∷ rest) (omega arith) in
    (aged n t (suc m) ∷ rest, interrupt n t rest due over' m regs k' timers ready)
