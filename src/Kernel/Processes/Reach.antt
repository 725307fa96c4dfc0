-- ===== src/Kernel/Processes/Reach.antt =====
-- The interrupts of a running kernel as steps, and what holds of every state they reach
-- (process.c, lines 107-183, and timer.c, lines 29-81).
use tomat_os_old.Common.{
  ℕ, ◌≡◌, ◌≢◌, refl, sym, ◌∙◌, ◌⊎◌, inl, inr, Bool, true, false, not, ◌&&◌, none, some, List, ◌==◌,
  ==_of_ne, if◌then◌else◌, get_elem?, Run, done, fault, ◌>>=◌, arith, Bool-cases, Option-cases,
}
use mathlib.Core.Path.{subst}
use tomat_os_old.Kernel.{
  Registers, Event, Process, Kernel, has_permission, process_get, process_get_running,
}
use tomat_os_old.Kernel.Timers.{timer_start, timer_cancel}
use tomat_os_old.Kernel.Processes.{
  process_kill, syscall_pull_event, push_event, syscall_queue_event, syscall_process_kill,
  handle_timer_irq, syscall_timer_start, syscall_timer_cancel,
}
use tomat_os_old.Kernel.Processes.Ready.{
  Ready, TimersLive-Lives, push_event-runs, push_event-Lives, handle_timer_irq-Ready,
}
use tomat_os_old.Kernel.Processes.Interrupts.{
  find_from_lem, Current, current, live-at, place_timer-TimersLive, cancel_some-TimersLive, Returns,
  process_kill-Ready, pull_or_wait-Ready,
}

-- An interrupt that enters the kernel; the event of `queue_event` is what `ebx` points at.
pub data Interrupt : Type 0 where
  timer_irq pull_event_call process_kill_call timer_start_call timer_cancel_call : Interrupt
  queue_event_call : Event → Interrupt

unfoldable pub handle : Interrupt → Registers → Kernel → Run (Registers × Kernel)
handle timer_irq regs k = handle_timer_irq regs k
handle pull_event_call regs k = syscall_pull_event regs k
handle process_kill_call regs k = syscall_process_kill regs k
handle timer_start_call regs k = syscall_timer_start regs k
handle timer_cancel_call regs k = syscall_timer_cancel regs k >>= λ k. done (regs, k)
handle (queue_event_call event) regs k = syscall_queue_event regs event k >>= λ k. done (regs, k)

-- The states that interrupts, one after another, lead to.
pub data Reach (k : Kernel) : Kernel → Type 0 where
  here : Reach k k
  next :
      {k' : Kernel} (i : Interrupt) (regs : Registers) {out : Registers × Kernel}
      → Reach k k'
      → handle i regs k' ≡ done out
      → Reach k out.1

pull-Ready : (regs : Registers) (k : Kernel) → Ready k → Returns (syscall_pull_event regs k)
unfolding syscall_pull_event
pull-Ready regs k ready =
    let c = current k.processes ready.one in
    rw (syscall_pull_event, c.found, c.elem)
      (pull_or_wait-Ready regs c.at k c.elem c.runs_now ready)

start-Ready : (regs : Registers) (k : Kernel) → Ready k → Returns (syscall_timer_start regs k)
unfolding syscall_timer_start timer_start
start-Ready regs k ready =
    let c = current k.processes ready.one in
    let (id, k') = timer_start c.process.uid regs.ebx k in
    (
      (record regs { eax = id }, k'),
      rw (syscall_timer_start, c.found, c.elem) refl,
      record {
        on = ready.on;
        may = ready.may;
        one = ready.one;
        owned =
            place_timer-TimersLive k.processes _ k.timers
              (inr (live-at c.at k.processes c.elem c.runs_now)) ready.owned;
      },
    )

cancel-Ready : (regs : Registers) (k : Kernel) → Ready k → Returns (handle timer_cancel_call regs k)
unfolding handle syscall_timer_cancel timer_cancel
cancel-Ready regs k ready =
    let c = current k.processes ready.one in
    (
      (regs, timer_cancel c.process.uid regs.ebx k),
      rw (syscall_timer_cancel, c.found, c.elem) refl,
      record {
        on = ready.on;
        may = ready.may;
        one = ready.one;
        owned = cancel_some-TimersLive k.processes c.process.uid regs.ebx k.timers ready.owned;
      },
    )

pushed-Ready :
    (j : ℕ) (event : Event) (k : Kernel)
    → Ready k
    → Ready (record k { processes = push_event j event k.processes })
pushed-Ready j event k ready = record {
  on = ready.on;
  may = ready.may;
  one = push_event-runs j event k.processes ∙ ready.one;
  owned =
      TimersLive-Lives k.processes (push_event j event k.processes) k.timers
        (push_event-Lives j event k.processes) ready.owned;
}

process_get-at :
    (uid j : ℕ) (ps : List Process)
    → process_get uid ps ≡ some j
    → (q : Process) × (get_elem? ps j ≡ some q)
unfolding process_get
process_get-at uid j ps h =
    let (i, q, at, elem, ok) = find_from_lem _ 0 j ps h in
    (q, subst (λ n. get_elem? ps n ≡ some q) (omega (arith, at)) elem)

queue-Ready :
    (regs : Registers) (event : Event) (k : Kernel)
    → Ready k
    → (k' : Kernel) × (syscall_queue_event regs event k ≡ done k') × Ready k'
unfolding syscall_queue_event
queue-Ready regs event k ready =
    let c = current k.processes ready.one in
    elim (Bool-cases (regs.ecx == 0)) [
      | inl own ↦ (
        record k { processes = push_event c.at event k.processes },
        ground (arith, c.found, c.elem, own),
        pushed-Ready c.at event k ready,
      )
      | inr other ↦ elim (Option-cases (process_get regs.ecx k.processes)) [
        | inl missing ↦ (k, ground (arith, c.found, other, missing), ready)
        | inr (j, found) ↦
            let (q, elem) = process_get-at regs.ecx j k.processes found in
            elim (Bool-cases (not (c.at == j) && not (has_permission q.user c.process.user))) [
              | inl refused ↦ (
                k,
                rw (syscall_queue_event, c.found, other, found, c.elem, elem, refused) refl,
                ready,
              )
              | inr allowed ↦ (
                record k { processes = push_event j event k.processes },
                rw (syscall_queue_event, c.found, other, found, c.elem, elem, allowed) refl,
                pushed-Ready j event k ready,
              )
            ]
      ]
    ]

kill_own :
    (regs : Registers) (k : Kernel) (c : Current k.processes) (r : Run (Registers × Kernel))
    → (regs.ebx == 0) ≡ true
    → process_kill regs c.at k ≡ r
    → syscall_process_kill regs k ≡ r
unfolding syscall_process_kill
kill_own regs k c r own rest = ground (arith, c.found, c.elem, own, rest)

pub kill_other :
    (regs : Registers) (k : Kernel) (i j : ℕ) (p q : Process) (r : Run (Registers × Kernel))
    → process_get_running k.processes ≡ some i
    → get_elem? k.processes i ≡ some p
    → (regs.ebx == 0) ≡ false
    → process_get regs.ebx k.processes ≡ some j
    → get_elem? k.processes j ≡ some q
    → (if has_permission q.user p.user then done (regs, k) else process_kill regs j k) ≡ r
    → syscall_process_kill regs k ≡ r
unfolding syscall_process_kill
kill_other regs k i j p q r run at other found elem rest =
    rw (syscall_process_kill, other, found, run, elem, at, other) rest

permitted : {A : Type 0} (x : A) {y z : A} (b : Bool) → b ≡ false → y ≡ z → (if b then x else y) ≡ z
permitted x b h e = ground (arith, h, e)

kill-Ready :
    (regs : Registers) (k : Kernel)
    → Ready k
    → ((regs.ebx ≢ 0) × (process_get regs.ebx k.processes ≡ none))
      ⊎ Returns (syscall_process_kill regs k)
unfolding syscall_process_kill
kill-Ready regs k ready =
    let c = current k.processes ready.one in
    elim (Bool-cases (regs.ebx == 0)) [
      | inl own ↦
          let (out, returns, left) = process_kill-Ready regs c.at k c.elem ready in
          inr (out, kill_own regs k c (done out) own returns, left)
      | inr other ↦ elim (Option-cases (process_get regs.ebx k.processes)) [
        | inl missing ↦ inl (ground (arith, other), missing)
        | inr (j, found) ↦
            let (q, elem) = process_get-at regs.ebx j k.processes found in
            elim (Bool-cases (has_permission q.user c.process.user)) [
              | inl refused ↦ inr (
                (regs, k),
                kill_other regs k c.at j c.process q _ c.found c.elem other found elem
                    (rw refused refl),
                ready,
              )
              | inr allowed ↦
                  let (out, returns, left) = process_kill-Ready regs j k elem ready in
                  inr (
                    out,
                    kill_other regs k c.at j c.process q (done out) c.found c.elem other found elem
                        (permitted _ _ allowed returns),
                    left,
                  )
            ]
      ]
    ]

unknown_kill :
    (regs : Registers) (k : Kernel)
    → Ready k
    → regs.ebx ≢ 0
    → process_get regs.ebx k.processes ≡ none
    → syscall_process_kill regs k ≡ fault
unfolding syscall_process_kill
unknown_kill regs k ready some_uid missing =
    let c = current k.processes ready.one in
    rw (syscall_process_kill, c.found, ==_of_ne regs.ebx 0 some_uid, missing) refl

-- From a ready state every interrupt returns, in a ready state: the kernel is enabled, its scheduler
-- may update, exactly one process is RUNNING, and every unfinished timer has a living owner. The one
-- exception is `process_kill` for a uid, not 0, that no living process has, which follows NULL and faults.
pub handle-Ready :
    (i : Interrupt) (regs : Registers) (k : Kernel)
    → Ready k
    → ((i ≡ process_kill_call)
        × (regs.ebx ≢ 0)
        × (process_get regs.ebx k.processes ≡ none)
        × (handle i regs k ≡ fault))
      ⊎ Returns (handle i regs k)
unfolding handle
handle-Ready timer_irq regs k ready = inr (handle_timer_irq-Ready regs k ready)
handle-Ready pull_event_call regs k ready = inr (pull-Ready regs k ready)
handle-Ready process_kill_call regs k ready = elim (kill-Ready regs k ready) [
  | inl (some_uid, missing) ↦
      inl (refl, some_uid, missing, unknown_kill regs k ready some_uid missing)
  | inr returns ↦ inr returns
]
handle-Ready timer_start_call regs k ready = inr (start-Ready regs k ready)
handle-Ready timer_cancel_call regs k ready = inr (cancel-Ready regs k ready)
handle-Ready (queue_event_call event) regs k ready =
    let (k', returns, left) = queue-Ready regs event k ready in
    inr ((regs, k'), rw returns refl, left)

fault_done : (out : Registers × Kernel) → fault ≢ done out
fault_done out h = ground (arith, h)

done_inj : {a b : Registers × Kernel} → done a ≡ done b → a ≡ b
done_inj h = ground (arith, h)

-- Every state that interrupts reach from a ready state is ready.
pub Reach-Ready : {k k' : Kernel} → Reach k k' → Ready k → Ready k'
Reach-Ready here ready = ready
Reach-Ready {k} (next {k' = k'} i regs {out} before returns) ready =
    let ready' = Reach-Ready before ready in
    elim (handle-Ready i regs k' ready') [
      | inr (out', returns', left) ↦ subst (λ o. Ready o.1) (done_inj (sym returns' ∙ returns)) left
      | inl (kill, some_uid, missing, faults) ↦ absurd (fault_done out (sym faults ∙ returns))
    ]
