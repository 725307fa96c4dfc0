-- ===== src/Kernel/Processes/Start.antt =====
-- What `process_start` does to the table and to the scheduler (process.c, lines 272-287).
use tomat_os_old.Common.{
  ℕ, zero, suc, ◌≡◌, ◌≢◌, refl, sym, ◌⊎◌, inl, inr, Bool, true, false, not, none, some, List, [],
  ◌∷◌, if◌then◌else◌, get_elem?, length, done, arith, Bool-cases,
}
use mathlib.Core.Path.{subst}
use tomat_os_old.Kernel.{Registers, normal, Process, Kernel, is_dead, buf_push}
use tomat_os_old.Kernel.Scheduler.{scheduler_update}
use tomat_os_old.Kernel.Scheduler.Live.{scheduler_update-off}
use tomat_os_old.Kernel.Processes.{reuse_dead, process_start}

-- Whether some entry of the table is DEAD.
abbrev pub any_dead : List Process → Bool
any_dead [] = false
any_dead (p ∷ ps) = if is_dead p.status then true else any_dead ps

-- The process as `process_start` enters it.
abbrev pub started_as : Process → Process
started_as p = record p { started = false; status = normal }

-- `qs` is `ps` with `p` in the place `i`, which was free: it held a DEAD process or ended the table.
pub record Entered (p : Process) (ps : List Process) (i : ℕ) (qs : List Process) : Type 0 where
  pub entry : get_elem? qs i ≡ some p
  pub others : (j : ℕ) → j ≢ i → get_elem? qs j ≡ get_elem? ps j
  pub was_free :
      (i ≡ length ps) ⊎ ((q : Process) × (get_elem? ps i ≡ some q) × (is_dead q.status ≡ true))

buf_push-Entered : (p : Process) (ps : List Process) → Entered p ps (length ps) (buf_push ps p)
unfolding buf_push
buf_push-Entered p [] = record { entry = refl; others = λ j ne. past j ne; was_free = inl refl }
  where
    past : (j : ℕ) → j ≢ 0 → get_elem? (p ∷ []) j ≡ none
    past zero ne = absurd (ne refl)
    past (suc j) ne = refl
buf_push-Entered p (q ∷ ps) =
    let ih = buf_push-Entered p ps in
    record { entry = ih.entry; others = rest ih; was_free = inl refl }
  where
    rest :
        Entered p ps (length ps) (buf_push ps p)
        → (j : ℕ) → j ≢ suc (length ps)
        → get_elem? (q ∷ buf_push ps p) j ≡ get_elem? (q ∷ ps) j
    rest ih zero ne = refl
    rest ih (suc j) ne = ih.others j (omega (arith, ne))

reuse_dead-Entered :
    (p : Process) (ps : List Process)
    → any_dead ps ≡ true
    → (i : ℕ) × (qs : List Process) × (reuse_dead p ps ≡ some qs) × Entered p ps i qs
unfolding reuse_dead
reuse_dead-Entered p [] h = absurd (ground (arith, h))
reuse_dead-Entered p (q ∷ ps) h = elim (Bool-cases (is_dead q.status)) [
  | inl e ↦ (
    0,
    p ∷ ps,
    ground (arith, e),
    record { entry = refl; others = first; was_free = inr (q, refl, e) },
  )
  | inr e ↦
      let (i, qs, found, ih) = reuse_dead-Entered p ps (ground (arith, e, h)) in
      (
        suc i,
        q ∷ qs,
        ground (arith, e, found),
        record {
          entry = ih.entry;
          others = later i qs ih;
          was_free = elim ih.was_free [
            | inl last ↦ inl (omega (arith, last))
            | inr dead_entry ↦ inr dead_entry
          ];
        },
      )
]
  where
    first : (j : ℕ) → j ≢ 0 → get_elem? (p ∷ ps) j ≡ get_elem? (q ∷ ps) j
    first zero ne = absurd (ne refl)
    first (suc j) ne = refl

    later :
        (i : ℕ) (qs : List Process)
        → Entered p ps i qs
        → (j : ℕ) → j ≢ suc i
        → get_elem? (q ∷ qs) j ≡ get_elem? (q ∷ ps) j
    later i qs ih zero ne = refl
    later i qs ih (suc j) ne = ih.others j (omega (arith, ne))

pub reuse_dead-none :
    (p : Process) (ps : List Process) → any_dead ps ≡ false → reuse_dead p ps ≡ none
unfolding reuse_dead
reuse_dead-none p [] h = refl
reuse_dead-none p (q ∷ ps) h = elim (Bool-cases (is_dead q.status)) [
  | inl e ↦ absurd (ground (arith, e, h))
  | inr e ↦ ground (arith, e, reuse_dead-none p ps (ground (arith, e, h)))
]

reused :
    (p : Process) (k : Kernel) (qs : List Process)
    → reuse_dead (started_as p) k.processes ≡ some qs
    → (process_start p k).processes ≡ qs
unfolding process_start
reused p k qs found = ground (arith, found)

pushed :
    (p : Process) (k : Kernel)
    → reuse_dead (started_as p) k.processes ≡ none
    → (process_start p k).processes ≡ buf_push k.processes (started_as p)
unfolding process_start
pushed p k missing = ground (arith, missing)

-- `process_start` enters the new process, NORMAL and not started, in a place of the table that held
-- a DEAD process or at its end, and changes no other place; the scheduler may update afterwards
-- exactly when there was no DEAD process.
pub process_start-Entered :
    (p : Process) (k : Kernel)
    → (i : ℕ) × Entered (started_as p) k.processes i (process_start p k).processes
      × ((process_start p k).can_update ≡ not (any_dead k.processes))
unfolding process_start
process_start-Entered p k = elim (Bool-cases (any_dead k.processes)) [
  | inl e ↦
      let (i, qs, found, entered) = reuse_dead-Entered (started_as p) k.processes e in
      (
        i,
        subst (Entered (started_as p) k.processes i) (sym (reused p k qs found)) entered,
        ground (arith, found, e),
      )
  | inr e ↦
      let missing = reuse_dead-none (started_as p) k.processes e in
      (
        length k.processes,
        subst (Entered (started_as p) k.processes (length k.processes)) (sym (pushed p k missing))
            (buf_push-Entered (started_as p) k.processes),
        ground (arith, missing, e),
      )
]

-- Where the table has a DEAD process, `process_start` leaves the scheduler held up: after it
-- `scheduler_update` changes neither the registers nor the table, and may not update the next time.
pub process_start-stuck :
    (p : Process) (regs : Registers) (from_timer : Bool) (k : Kernel)
    → any_dead k.processes ≡ true
    → (k' : Kernel) × (scheduler_update regs from_timer (process_start p k) ≡ done (regs, k'))
      × (k'.processes ≡ (process_start p k).processes)
      × (k'.can_update ≡ false)
process_start-stuck p regs from_timer k some_dead =
    let (i, entered, may) = process_start-Entered p k in
    let held : (process_start p k).can_update ≡ false = ground (arith, may, some_dead) in
    scheduler_update-off regs from_timer (process_start p k) held
