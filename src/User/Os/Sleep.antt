-- ===== src/User/Os/Sleep.antt =====
-- When `OS::Sleep` ends (OS.hpp, lines 188-207).
use tomat_os_old.Common.{
  ℕ, zero, suc, ◌<◌, ◌≡◌, refl, ap, ◌∙◌, ◌⊎◌, inl, inr, Bool, true, false, ◌==◌, ◌&&◌, List, [],
  ◌∷◌, All, length, done, arith, Bool-cases,
}
use tomat_os_old.Kernel.{Registers, timer, Event}
use tomat_os_old.Boot.Isr.{RegsHandler}
use tomat_os_old.User.Os.{
  kind_number, is_kind, tomato_os_pull_event, pull_kind, pull_event, wait_timer, start_timer, sleep,
}
use tomat_os_old.User.Os.Wait.{Delivers, pulled, kind_found, kind_missed}

-- Whether an event is the one of the timer `id`.
abbrev is_timer : ℕ → Event → Bool
is_timer id event = is_kind timer event && (event.data0 == id)

not_timer :
    (id : ℕ) (e : Event) → is_kind timer e ≡ true → is_timer id e ≡ false → (e.data0 == id) ≡ false
not_timer id e is other = ground (arith, is, other)

of_timer :
    (id : ℕ) (e : Event)
    → is_timer id e ≡ true
    → (is_kind timer e ≡ true) × ((e.data0 == id) ≡ true)
of_timer id e is = (ground (arith, is), ground (arith, is))

module _ {S : Type 0} (trap : RegsHandler S) (event_at : S → ℕ → Event) (regs : Registers) where
  -- The next event of any timer, of the events that the kernel delivers up to that of the timer `id`; fewer than `n` others are left before it.
  Next : (id n : ℕ) → (u : S) → Event × S → Type 0
  Next id n u (e, v) =
      (is_kind timer e ≡ true)
      × ((((e.data0 == id) ≡ true) × (v ≡ u))
          ⊎ (((e.data0 == id) ≡ false)
              × ((es' : List Event) × (t : S) × (last : Event) × Delivers trap event_at regs es' v t
                  × All (λ e. is_timer id e ≡ false) es'
                  × (tomato_os_pull_event trap event_at regs t ≡ done (last, u))
                  × (is_timer id last ≡ true)
                  × (length es' < n))))

  Next-more : (id n : ℕ) (u : S) (out : Event × S) → Next id n u out → Next id (suc n) u out
  unfolding Next
  Next-more id n u out (kind, inl found) = (kind, inl found)
  Next-more id n u out (kind, inr (other, (es, t, e, some_events, others, last, is, fewer))) =
      (kind, inr (other, (es, t, e, some_events, others, last, is, omega (arith, fewer))))

  timer-Next :
      (fuel id : ℕ) (es : List Event) (e : Event) (s t u : S)
      → Delivers trap event_at regs es s t
      → All (λ e. is_timer id e ≡ false) es
      → tomato_os_pull_event trap event_at regs t ≡ done (e, u)
      → is_timer id e ≡ true
      → length es < fuel
      → (out : Event × S) × (pull_kind trap event_at regs fuel timer s ≡ done out)
        × Next id (length es) u out
  unfolding Next
  timer-Next zero id es e s t u some_events others last is enough = ground (arith, enough)
  timer-Next (suc fuel) id [] e s _ u Delivers.nothing others last is enough =
      let (kind, same) = of_timer id e is in
      ((e, u), kind_found trap event_at regs fuel timer e s u last kind, (kind, inl (same, refl)))
  timer-Next (suc fuel) id (e' ∷ es) e s t u (Delivers.next {t = v} pull rest) (other, others) last
        is enough =
      elim (Bool-cases (is_kind timer e')) [
        | inl kind ↦ (
          (e', v),
          kind_found trap event_at regs fuel timer e' s v pull kind,
          (kind, inr (not_timer id e' kind other, (es, t, e, rest, others, last, is, omega arith))),
        )
        | inr kind ↦
            let (out, run, next) =
              timer-Next fuel id es e v t u rest others last is (omega (arith, enough)) in
            (
              out,
              kind_missed trap event_at regs fuel timer e' s v pull kind ∙ run,
              Next-more id (length es) u out next,
            )
      ]

  timer_pulled :
      (inner : ℕ) (s u : S) (e : Event)
      → pull_kind trap event_at regs inner timer s ≡ done (e, u)
      → is_kind timer e ≡ true
      → pull_event trap event_at regs inner timer s ≡ done (e, u)
  unfolding kind_number
  timer_pulled inner s u e run kind =
      pulled trap event_at regs inner timer e s u (omega arith) (omega arith) run kind

  wait_found :
      (inner outer id : ℕ) (s u : S) (e : Event)
      → pull_event trap event_at regs inner timer s ≡ done (e, u)
      → (e.data0 == id) ≡ true
      → wait_timer trap event_at regs inner (suc outer) id s ≡ done u
  unfolding wait_timer
  wait_found inner outer id s u e pull same = rw (wait_timer, pull, same) refl

  wait_missed :
      (inner outer id : ℕ) (s u : S) (e : Event)
      → pull_event trap event_at regs inner timer s ≡ done (e, u)
      → (e.data0 == id) ≡ false
      → wait_timer trap event_at regs inner (suc outer) id s
        ≡ wait_timer trap event_at regs inner outer id u
  unfolding wait_timer
  wait_missed inner outer id s u e pull other = rw (wait_timer, pull, other) refl

  wait_timer-Delivers :
      (inner outer id : ℕ) (es : List Event) (e : Event) (s t u : S)
      → Delivers trap event_at regs es s t
      → All (λ e. is_timer id e ≡ false) es
      → tomato_os_pull_event trap event_at regs t ≡ done (e, u)
      → is_timer id e ≡ true
      → length es < inner
      → length es < outer
      → wait_timer trap event_at regs inner outer id s ≡ done u
  unfolding Next
  wait_timer-Delivers inner zero id es e s t u some_events others last is enough rounds =
      ground (arith, rounds)
  wait_timer-Delivers inner (suc outer) id es e s t u some_events others last is enough rounds =
      let (out, run, next) = timer-Next inner id es e s t u some_events others last is enough in
      let e' = out.0 in
      let v = out.1 in
      let (kind, which) = next in
      elim which [
        | inl (same, end) ↦
            wait_found inner outer id s v e' (timer_pulled inner s v e' run kind) same ∙ ap done end
        | inr (other, (es', t', last', some', others', last_pull, is', fewer)) ↦
            wait_missed inner outer id s v e' (timer_pulled inner s v e' run kind) other
            ∙ wait_timer-Delivers inner outer id es' last' v t' u some' others' last_pull is'
                (omega (arith, fewer, enough)) (omega (arith, fewer, rounds))
      ]

  module _ {F : Type 0} (to_millis : F → ℕ) where
    -- `OS::Sleep` ends with the event of the timer that it has started, the first one with that
    -- timer's number among those that the kernel delivers, and loses every event before it,
    -- requests to terminate and the events of other timers among them. The fuel of both loops
    -- exceeds the number of lost events. Its argument is passed on as seconds.
    pub sleep-Delivers :
        (inner outer id : ℕ) (time : F) (es : List Event) (e : Event) (s s0 t u : S)
        → start_timer trap event_at regs to_millis time s ≡ done (id, s0)
        → Delivers trap event_at regs es s0 t
        → All (λ e. is_timer id e ≡ false) es
        → tomato_os_pull_event trap event_at regs t ≡ done (e, u)
        → is_timer id e ≡ true
        → length es < inner
        → length es < outer
        → sleep trap event_at regs to_millis inner outer time s ≡ done u
    unfolding sleep
    sleep-Delivers inner outer id time es e s s0 t u started some_events others last is enough
          rounds =
        rw started
          (wait_timer-Delivers inner outer id es e s0 t u some_events others last is enough rounds)
