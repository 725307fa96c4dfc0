-- ===== src/Kernel/Scheduler/Running.antt =====
-- How many processes the scheduler leaves in the state RUNNING, and that it does not fault.
use tomat_os_old.Common.{
  ℕ, zero, suc, ◌+◌, ◌≤◌, ◌≡◌, ◌≢◌, refl, Bool, true, false, none, some, List, [], ◌∷◌, ◌∙◌,
  if◌then◌else◌, get_elem?, done, arith,
}
use tomat_os_old.Kernel.{Registers, Process, Kernel, is_running, is_normal, modify}
use tomat_os_old.Kernel.Scheduler.{switch_in, switch_out, process_switch, pick}
use tomat_os_old.Kernel.Scheduler.Pick.{Picked, fresh, top, kept, pick-Picked}

-- The number of processes whose status is RUNNING.
abbrev pub runs : List Process → ℕ
runs [] = 0
runs (p ∷ ps) = (if is_running p.status then 1 else 0) + runs ps

abbrev pub one_if : Bool → ℕ
one_if b = if b then 1 else 0

pub runs-modify :
    (i : ℕ) (f : Process → Process) (ps : List Process) {p : Process}
    → get_elem? ps i ≡ some p
    → runs (modify i f ps) + one_if (is_running p.status)
      ≡ runs ps + one_if (is_running (f p).status)
runs-modify i f [] h = ground arith
runs-modify zero f (x ∷ ps) h = ground arith
runs-modify (suc i) f (x ∷ ps) h = ground (arith, runs-modify i f ps h)

pub get_elem?-modify :
    (i j : ℕ) (f : Process → Process) (ps : List Process)
    → i ≢ j
    → get_elem? (modify i f ps) j ≡ get_elem? ps j
get_elem?-modify i j f [] ne = refl
get_elem?-modify zero zero f (x ∷ ps) ne = absurd (ne refl)
get_elem?-modify zero (suc j) f (x ∷ ps) ne = refl
get_elem?-modify (suc i) zero f (x ∷ ps) ne = refl
get_elem?-modify (suc i) (suc j) f (x ∷ ps) ne = get_elem?-modify i j f ps (omega arith)

pub get_elem?-modify_self :
    (i : ℕ) (f : Process → Process) (ps : List Process) {p : Process}
    → get_elem? ps i ≡ some p
    → get_elem? (modify i f ps) i ≡ some (f p)
get_elem?-modify_self i f [] h = ground arith
get_elem?-modify_self zero f (x ∷ ps) h = ground arith
get_elem?-modify_self (suc i) f (x ∷ ps) h = get_elem?-modify_self i f ps h

pub normal-not_running : (p : Process) → is_normal p.status ≡ true → is_running p.status ≡ false
normal-not_running p h = ground arith

pub one-runs :
    (i : ℕ) (ps : List Process) {p : Process}
    → get_elem? ps i ≡ some p
    → one_if (is_running p.status) ≤ runs ps
one-runs i [] h = ground arith
one-runs zero (x ∷ ps) h = ground arith
one-runs (suc i) (x ∷ ps) h = ground (arith, one-runs i ps h)

-- What the search finds is a ready process of the table.
abbrev pub IsReady : List Process → ℕ → Type 0
IsReady ps j = (p : Process) × (get_elem? ps j ≡ some p) × (is_normal p.status ≡ true)

pub pick-IsReady : (ps : List Process) (j : ℕ) → pick 0 0 none ps ≡ some j → IsReady ps j
pick-IsReady ps j e = from (pick-Picked 0 0 none ps)
  where
    from : Picked 0 0 none ps (pick 0 0 none ps) → IsReady ps j
    from (fresh n p r at f before) = (p, ground arith, ground arith)
    from (top n p r at nm above small rivals none_fresh) = (p, ground arith, nm)
    from (kept r rivals none_fresh) = cc

switch_in-runs : (p : Process) → is_running (switch_in p).status ≡ true
unfolding switch_in
switch_in-runs p = refl

switch_out-waits : (regs : Registers) (p : Process) → is_running (switch_out regs p).status ≡ false
unfolding switch_out
switch_out-waits regs p = refl

-- Nobody runs, and a process of the table is switched to.
pub switch_none :
    (regs : Registers) (j : ℕ) (k : Kernel) {p : Process}
    → get_elem? k.processes j ≡ some p
    → is_running p.status ≡ false
    → runs k.processes ≡ 0
    → (out : Registers × Kernel) × (process_switch regs none j k ≡ done out)
      × (runs out.1.processes ≡ 1)
unfolding process_switch
switch_none regs j k {p} at idle zero_runs = (
  (
    (switch_in p).registers,
    record k { processes = modify j switch_in k.processes; directory = p.pd },
  ),
  ground (arith, at),
  ground (arith, runs-modify j switch_in k.processes at, switch_in-runs p),
)

-- The running process is switched away from, and a ready one to.
pub switch_some :
    (regs : Registers) (c j : ℕ) (k : Kernel) {p q : Process}
    → get_elem? k.processes c ≡ some q
    → is_running q.status ≡ true
    → get_elem? k.processes j ≡ some p
    → is_running p.status ≡ false
    → runs k.processes ≡ 1
    → (out : Registers × Kernel) × (process_switch regs (some c) j k ≡ done out)
      × (runs out.1.processes ≡ 1)
unfolding process_switch
switch_some regs c j k {p} {q} at_c runs_c at_j idle one =
    let other : c ≢ j = λ e. absurd (ground arith) in
    let saved = modify c (switch_out regs) k.processes in
    let still : get_elem? saved j ≡ some p =
      get_elem?-modify c j (switch_out regs) k.processes other ∙ at_j in
    (
      (
        (switch_in p).registers,
        record k { processes = modify j switch_in saved; directory = p.pd },
      ),
      ground (arith, still),
      ground (
        arith,
        runs-modify c (switch_out regs) k.processes at_c,
        switch_out-waits regs q,
        runs-modify j switch_in saved still,
        switch_in-runs p,
      ),
    )
