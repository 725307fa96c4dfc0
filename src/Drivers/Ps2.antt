-- ===== src/Drivers/Ps2.antt =====
-- TomatKernel/core/drivers/ps2.h and ps2.c: the PS/2 controller, behind the port instructions.
use tomat_os_old.Common.{
  ℕ, zero, suc, ◌≤◌, ◌<◌, ◌≡◌, true, false, if◌then◌else◌, Run, done, hang, arith, Bool-cases, inl,
  inr,
}
use tomat_os_old.Common.Bits.{test_bit}

-- The instructions `in` and `out` on a machine whose devices are in a state `S`.
pub record Ports (S : Type 0) : Type 0 where
  pub inb : (port : ℕ) → S → ℕ × S
  pub outb : (port value : ℕ) → S → S

abbrev pub ps2_data : ℕ
ps2_data = 0x60

abbrev pub ps2_status_port : ℕ
ps2_status_port = 0x64

abbrev pub ps2_command_port : ℕ
ps2_command_port = 0x64

module _ {S : Type 0} (ports : Ports S) where
  -- The byte of `ps2_status_t`: bit 0 is `output_buffer_status`, bit 1 `input_buffer_status`.
  unfoldable pub ps2_status : S → ℕ × S
  ps2_status s = ports.inb ps2_status_port s

  -- while (!ps2_status().output_buffer_status), on fuel.
  unfoldable pub ps2_read : (fuel : ℕ) → S → Run (ℕ × S)
  ps2_read zero s = hang
  ps2_read (suc fuel) s =
      let (status, s) = ps2_status s in
      let again = ps2_read fuel s in
      if test_bit status 0 then done (ports.inb ps2_data s) else again

  -- while (ps2_status().input_buffer_status), on fuel; then the byte goes to the port.
  pub send : (port value fuel : ℕ) → S → Run S
  send port value zero s = hang
  send port value (suc fuel) s =
      let (status, s) = ps2_status s in
      let again = send port value fuel s in
      if test_bit status 1 then again else done (ports.outb port value s)

  pub ps2_command : (command fuel : ℕ) → S → Run S
  ps2_command command fuel s = send ps2_command_port command fuel s

  pub ps2_write : (value fuel : ℕ) → S → Run S
  ps2_write value fuel s = send ps2_data value fuel s

  -- The state of the devices after `n` reads of the status.
  unfoldable pub polled : (n : ℕ) → S → S
  polled zero s = s
  polled (suc n) s = polled n (ps2_status s).1

  below :
      (s : S) {m : ℕ}
      → test_bit (ps2_status s).0 0 ≡ false
      → ((j : ℕ) → j < m → test_bit (ps2_status (polled j (ps2_status s).1)).0 0 ≡ false)
      → (j : ℕ) → j < suc m
      → test_bit (ps2_status (polled j s)).0 0 ≡ false
  unfolding polled
  below s first rest zero lt = first
  below s first rest (suc j) lt = rest j (omega (arith, lt))

  -- If the controller reports a byte at the read with number `n` of its status, at the latest, then
  -- `ps2_read` returns, with more than `n` rounds of fuel, and what it returns is read right after the first report.
  pub ps2_read-returns :
      (n fuel : ℕ) (s : S)
      → n < fuel
      → test_bit (ps2_status (polled n s)).0 0 ≡ true
      → (m : ℕ) × (m ≤ n)
        × (ps2_read fuel s ≡ done (ports.inb ps2_data (polled (suc m) s)))
        × (test_bit (ps2_status (polled m s)).0 0 ≡ true)
        × ((j : ℕ) → j < m → test_bit (ps2_status (polled j s)).0 0 ≡ false)
  unfolding ps2_read polled
  ps2_read-returns n zero s more ready = absurd (omega (arith, more))
  ps2_read-returns zero (suc fuel) s more ready =
      (0, omega arith, ground (arith, ready), ready, λ j lt. absurd (omega (arith, lt)))
  ps2_read-returns (suc n) (suc fuel) s more ready =
      elim (Bool-cases (test_bit (ps2_status s).0 0)) [
        | inl now ↦ (0, omega arith, ground (arith, now), now, λ j lt. absurd (omega (arith, lt)))
        | inr later ↦
            let (m, le, run, first, before) =
              ps2_read-returns n fuel (ps2_status s).1 (omega (arith, more)) ready in
            (
              suc m,
              omega (arith, le),
              ground (arith, later, run),
              first,
              λ j lt. below s later before j lt,
            )
      ]
