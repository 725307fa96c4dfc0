-- ===== src/Kernel/Scheduler/Live.antt =====
-- Which processes are alive, and that the scheduler loses none (process.c, lines 217-235, 332-469).
use tomat_os_old.Common.{
  ℕ, zero, suc, ◌+◌, ◌*◌, ◌/◌, ◌≡◌, refl, inl, inr, Bool, true, false, not, ◌&&◌, Option, none,
  some, List, [], ◌∷◌, ltb, ◌==◌, if◌then◌else◌, get_elem?, Run, done, panic, fault, hang, ◌>>=◌,
  arith, Bool-cases, Option-cases,
}
use mathlib.Core.Path.{subst}
use tomat_os_old.Kernel.{Registers, Process, Kernel, alive, is_dead, find_from, process_get, modify}
use tomat_os_old.Kernel.Scheduler.{
  switch_in, switch_out, process_switch, tick, Ticked, tick_all, pick, run_next, preempt, schedule,
  scheduler_update,
}

-- Whether an entry that is not DEAD has the uid.
abbrev pub live : ℕ → List Process → Bool
live uid [] = false
live uid (p ∷ ps) = if not (is_dead p.status) && (p.uid == uid) then true else live uid ps

pub find_from-live :
    (uid i : ℕ) (ps : List Process)
    → live uid ps ≡ true
    → (j : ℕ) × (find_from (λ p. not (is_dead p.status) && (p.uid == uid)) i ps ≡ some j)
unfolding find_from
find_from-live uid i [] h = absurd (ground (arith, h))
find_from-live uid i (p ∷ ps) h = elim (Bool-cases (not (is_dead p.status) && (p.uid == uid))) [
  | inl e ↦ (i, ground (arith, e))
  | inr e ↦
      let (j, found) = find_from-live uid (i + 1) ps (ground (arith, e, h)) in
      (j, ground (arith, e, found))
]

-- `process_get` finds every uid that is live.
pub process_get-live :
    (uid : ℕ) (ps : List Process) → live uid ps ≡ true → (j : ℕ) × (process_get uid ps ≡ some j)
unfolding process_get
process_get-live uid ps h = find_from-live uid 0 ps h

-- A change of an entry that keeps its uid and does not kill it.
pub record Gentle (f : Process → Process) : Type 0 where
  pub same_uid : (p : Process) → (f p).uid ≡ p.uid
  pub lives : (p : Process) → is_dead p.status ≡ false → is_dead (f p).status ≡ false

pub live-modify :
    {f : Process → Process} (uid i : ℕ) (ps : List Process)
    → Gentle f
    → live uid ps ≡ true
    → live uid (modify i f ps) ≡ true
live-modify uid i [] g h = h
live-modify uid zero (p ∷ ps) g h = ground (arith, h, g.same_uid p, g.lives p)
live-modify uid (suc i) (p ∷ ps) g h = ground (arith, h, live-modify uid i ps g)

pub switch_in-Gentle : Gentle switch_in
unfolding switch_in
switch_in-Gentle = record { same_uid = λ p. refl; lives = λ p h. refl }

pub switch_out-Gentle : (regs : Registers) → Gentle (switch_out regs)
unfolding switch_out
switch_out-Gentle regs = record { same_uid = λ p. refl; lives = λ p h. refl }

tick-Gentle : (t address : ℕ) → Gentle (tick t address)
unfolding tick
tick-Gentle t address = record { same_uid = λ p. ground arith; lives = λ p h. ground (arith, h) }

live-tick_all :
    (uid t : ℕ) (address : ℕ → ℕ) (i : ℕ) (ps : List Process)
    → live uid ps ≡ true
    → live uid (tick_all t address i ps).processes ≡ true
unfolding tick_all
live-tick_all uid t address i [] h = h
live-tick_all uid t address i (p ∷ ps) h =
    let g = tick-Gentle t (address i) in
    ground (arith, h, g.same_uid p, g.lives p, live-tick_all uid t address (i + 1) ps)

-- What the scheduler keeps.
pub record Kept (k k' : Kernel) : Type 0 where
  pub lives : (uid : ℕ) → live uid k.processes ≡ true → live uid k'.processes ≡ true
  pub timers : k'.timers ≡ k.timers
  pub enabled : k'.enabled ≡ k.enabled

abbrev Keeps : Kernel → Run (Registers × Kernel) → Type 0
Keeps k (done out) = Kept k out.1
Keeps k _ = Unit

Kept-by :
    (k : Kernel) {r : Run (Registers × Kernel)} {out : Registers × Kernel}
    → Keeps k r
    → r ≡ done out
    → Kept k out.1
Kept-by k {r} {out} h e = subst (Keeps k) e h

-- Switching between entries keeps what an earlier change of the table kept.
process_switch-Keeps :
    (regs : Registers) (current : Option ℕ) (new : ℕ) (k k' : Kernel)
    → Kept k k'
    → Keeps k (process_switch regs current new k')
unfolding process_switch
process_switch-Keeps regs none new k k' kept = elim (Option-cases (get_elem? k'.processes new)) [
  | inl e ↦ rw (process_switch, e) (record {})
  | inr (p, e) ↦
      rw (process_switch, e)
        (record {
          lives = λ uid h. live-modify uid new k'.processes switch_in-Gentle (kept.lives uid h);
          timers = kept.timers;
          enabled = kept.enabled;
        })
]
process_switch-Keeps regs (some c) new k k' kept =
    let saved : List Process = modify c (switch_out regs) k'.processes in
    elim (Option-cases (get_elem? saved new)) [
      | inl e ↦ rw (process_switch, e) (record {})
      | inr (p, e) ↦
          rw (process_switch, e)
            (record {
              lives = λ uid h.
                  live-modify uid new saved switch_in-Gentle
                    (live-modify uid c k'.processes (switch_out-Gentle regs) (kept.lives uid h));
              timers = kept.timers;
              enabled = kept.enabled;
            })
    ]

run_next-Keeps : (regs : Registers) (k k' : Kernel) → Kept k k' → Keeps k (run_next regs k')
unfolding run_next
run_next-Keeps regs k k' kept = elim (Option-cases (pick 0 0 none k'.processes)) [
  | inr (i, e) ↦ rw (run_next, e) (process_switch-Keeps regs none i k k' kept)
  | inl e ↦
      let restarted : Kernel = record k' {
        processes = modify alive (λ p. record p { started = false }) k'.processes;
      } in
      let g : Gentle (λ p. record p { started = false }) = record {
        same_uid = λ p. refl;
        lives = λ p h. h;
      } in
      rw (run_next, e)
        (process_switch-Keeps regs none alive k restarted (record {
          lives = λ uid h. live-modify uid alive k'.processes g (kept.lives uid h);
          timers = kept.timers;
          enabled = kept.enabled;
        }))
]

preempt-Keeps :
    (regs : Registers) (count c : ℕ) (k k' : Kernel) → Kept k k' → Keeps k (preempt regs count c k')
unfolding preempt
preempt-Keeps regs count c k k' kept = elim (Option-cases (get_elem? k'.processes c)) [
  | inl e ↦ rw (preempt, e) (record {})
  | inr (p, e) ↦ elim (Bool-cases (ltb (1000 / count + p.priority * 100) p.running_time)) [
    | inr time_left ↦ rw (preempt, e, time_left) kept
    | inl time_up ↦ elim (Option-cases (pick 0 0 none k'.processes)) [
      | inl nothing ↦ rw (preempt, e, time_up, nothing) kept
      | inr (j, found) ↦
          rw (preempt, e, time_up, found) (process_switch-Keeps regs (some c) j k k' kept)
    ]
  ]
]

schedule-Keeps :
    (regs : Registers) (from_timer : Bool) (k k' : Kernel)
    → Kept k k'
    → Keeps k (schedule regs from_timer k')
unfolding schedule
schedule-Keeps regs false k k' kept = run_next-Keeps regs k k' kept
schedule-Keeps regs true k k' kept =
    let t : Ticked = tick_all (k'.updates * 10 + 10) k'.event_address 0 k'.processes in
    let after : Kernel = record k' { processes = t.processes; updates = 0 } in
    let ticked : Kept k after = record {
      lives = λ uid h. live-tick_all uid _ k'.event_address 0 k'.processes (kept.lives uid h);
      timers = kept.timers;
      enabled = kept.enabled;
    } in
    elim (Option-cases t.running_process) [
      | inl e ↦ rw (schedule, e) (run_next-Keeps regs k after ticked)
      | inr (j, e) ↦ rw (schedule, e) (preempt-Keeps regs t.count j k after ticked)
    ]

finished : Registers × Kernel → Run (Registers × Kernel)
finished (regs, k) = done (regs, record k { can_update = true })

Keeps-finished : (k : Kernel) (r : Run (Registers × Kernel)) → Keeps k r → Keeps k (r >>= finished)
unfolding finished
Keeps-finished k (done out) h = record { lives = h.lives; timers = h.timers; enabled = h.enabled }
Keeps-finished k panic h = record {}
Keeps-finished k fault h = record {}
Keeps-finished k hang h = record {}

Keeps-guards :
    (k : Kernel) (on may : Bool) (x y z : Run (Registers × Kernel))
    → Keeps k x
    → Keeps k y
    → Keeps k z
    → Keeps k (if not on then x else if not may then y else z)
Keeps-guards k false may x y z hx hy hz = hx
Keeps-guards k true false x y z hx hy hz = hy
Keeps-guards k true true x y z hx hy hz = hz

counted :
    (k : Kernel) (from_timer : Bool)
    → Kept k (if from_timer then record k { updates = k.updates + 1 } else k)
counted k true = record { lives = λ uid h. h; timers = refl; enabled = refl }
counted k false = record { lives = λ uid h. h; timers = refl; enabled = refl }

-- Whatever `scheduler_update` returns, every uid that was live is live, the timers are the same, and
-- so is the flag `enabled`.
pub scheduler_update-Kept :
    (regs : Registers) (from_timer : Bool) (k : Kernel) {out : Registers × Kernel}
    → scheduler_update regs from_timer k ≡ done out
    → Kept k out.1
unfolding scheduler_update finished
scheduler_update-Kept regs from_timer k returns =
    let same : Kept k k = counted k false in
    let busy : Kept k (record k { can_update = false }) = record {
      lives = λ uid h. h;
      timers = refl;
      enabled = refl;
    } in
    Kept-by k
      (Keeps-guards k k.enabled k.can_update _ _ _ same (counted k from_timer)
        (Keeps-finished k _ (schedule-Keeps regs from_timer k _ busy)))
      returns

-- While `can_update` is false, `scheduler_update` changes neither the registers nor the table, and
-- leaves `can_update` false.
pub scheduler_update-off :
    (regs : Registers) (from_timer : Bool) (k : Kernel)
    → k.can_update ≡ false
    → (k' : Kernel) × (scheduler_update regs from_timer k ≡ done (regs, k'))
      × (k'.processes ≡ k.processes)
      × (k'.can_update ≡ false)
unfolding scheduler_update
scheduler_update-off regs from_timer k off = elim (Bool-cases k.enabled) [
  | inr idle ↦ (k, ground (arith, idle), refl, off)
  | inl on ↦ (
    if from_timer then record k { updates = k.updates + 1 } else k,
    held k.enabled k.can_update _ _ _ on off,
    ground arith,
    ground (arith, off),
  )
]
  where
    held :
        (on may : Bool) (x y z : Run (Registers × Kernel))
        → on ≡ true
        → may ≡ false
        → (if not on then x else if not may then y else z) ≡ y
    held on may x y z h h' = ground (arith, h, h')
