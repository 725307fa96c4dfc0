-- ===== src/Kernel/Processes/Expiry.antt =====
-- Who may kill whom (TomatKernel/core/process/process.c, lines 163-183).
use tomat_os_old.Common.{
  ℕ, ◌≡◌, ◌≢◌, ap, some, leb, ==_of_ne, if◌then◌else◌, u8, get_elem?, done, arith,
}
use tomat_os_old.Kernel.{
  Registers, Process, Kernel, has_permission, process_get, process_get_running,
}
use tomat_os_old.Kernel.Processes.{process_kill, syscall_process_kill}
use tomat_os_old.Kernel.Processes.Reach.{kill_other}

has_permission_lem : (required has : ℕ) → has_permission required has ≡ leb (u8 required) (u8 has)
unfolding has_permission
has_permission_lem required has = ground arith

-- The test of `syscall_process_kill` is the wrong way round: for another process with the uid in
-- `ebx`, which is not 0, the call does nothing where the caller has permission over it, that is, where
-- the low 8 bits of its user are no less than those of the other's, and kills it where not.
pub syscall_process_kill-inverted :
    (regs : Registers) (k : Kernel) (i j : ℕ) (p q : Process)
    → process_get_running k.processes ≡ some i
    → get_elem? k.processes i ≡ some p
    → regs.ebx ≢ 0
    → process_get regs.ebx k.processes ≡ some j
    → get_elem? k.processes j ≡ some q
    → syscall_process_kill regs k
      ≡ (if leb (u8 q.user) (u8 p.user) then done (regs, k) else process_kill regs j k)
syscall_process_kill-inverted regs k i j p q run at some_uid found elem =
    kill_other regs k i j p q _ run at (==_of_ne regs.ebx 0 some_uid) found elem (
      ap (λ b. if b then done (regs, k) else process_kill regs j k)
        (has_permission_lem q.user p.user))
