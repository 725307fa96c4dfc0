-- ===== src/Drivers/Keyboard/Ready.antt =====
-- The keyboard and the state of the kernel between two interrupts.
use tomat_os_old.Common.{
  ℕ, ◌≡◌, ◌≢◌, refl, false, none, some, Option-cases, ltb, ◌==◌, arith, Bool-cases, ==→eq, ◌⊎◌, inl,
  inr, done, panic, fault,
}
use tomat_os_old.Kernel.{process_get_core_process}
use tomat_os_old.Kernel.Processes.Queue.{receive-Ready}
use tomat_os_old.Kernel.Processes.Ready.{Ready}
use tomat_os_old.Drivers.Keyboard.{Keyboard, key_release, key_press, handle_scancode}
use tomat_os_old.Drivers.Keyboard.Steps.{
  key_of, pressed, released, press_steps, release_steps, branches,
}

no_core :
    (b : ℕ) (s : Keyboard)
    → b ≢ 128
    → (key_of b == 0) ≡ false
    → process_get_core_process s.kernel.processes ≡ none
    → handle_scancode b s ≡ panic
unfolding key_press key_release
no_core b s inside mapped missing = elim (Bool-cases (ltb b 128)) [
  | inl press ↦ rw (branches b s inside, mapped, press, key_press, missing) refl
  | inr release ↦ rw (branches b s inside, mapped, release, key_release, missing) refl
]

some_core :
    (b i : ℕ) (s : Keyboard)
    → b ≢ 128
    → (key_of b == 0) ≡ false
    → process_get_core_process s.kernel.processes ≡ some i
    → Ready s.kernel
    → (s' : Keyboard) × (handle_scancode b s ≡ done s') × Ready s'.kernel
unfolding pressed released
some_core b i s inside mapped core ready = elim (Bool-cases (ltb b 128)) [
  | inl press ↦ (
    pressed (key_of b) i s,
    rw (branches b s inside, mapped, press) (press_steps (key_of b) i s core),
    receive-Ready i _ s.kernel ready,
  )
  | inr release ↦ (
    released (key_of b) i s,
    rw (branches b s inside, mapped, release) (release_steps (key_of b) i s core),
    receive-Ready i _ s.kernel ready,
  )
]

-- From a ready state of the kernel a scan code leads to a ready state, except for 0x80, which reads
-- behind the end of the table, and for the scan code of a key while no core process lives, which panics.
pub handle_scancode-Ready :
    (b : ℕ) (s : Keyboard)
    → Ready s.kernel
    → ((b ≡ 128) × (handle_scancode b s ≡ fault))
      ⊎ ((process_get_core_process s.kernel.processes ≡ none) × (handle_scancode b s ≡ panic))
      ⊎ ((s' : Keyboard) × (handle_scancode b s ≡ done s') × Ready s'.kernel)
unfolding handle_scancode
handle_scancode-Ready b s ready = elim (Bool-cases (b == 128)) [
  | inl bad ↦ inl (==→eq b 128 bad, ground (arith, bad))
  | inr good ↦
      let inside : b ≢ 128 = ground (arith, good) in
      inr (elim (Bool-cases (key_of b == 0)) [
        | inl unmapped ↦ inr (s, ground (arith, branches b s inside, unmapped), ready)
        | inr mapped ↦ elim (Option-cases (process_get_core_process s.kernel.processes)) [
          | inl missing ↦ inl (missing, no_core b s inside mapped missing)
          | inr (i, core) ↦ inr (some_core b i s inside mapped core ready)
        ]
      ])
]
