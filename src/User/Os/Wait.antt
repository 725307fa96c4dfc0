-- ===== src/User/Os/Wait.antt =====
-- What a program that waits for an event loses (OS.hpp, lines 188-235).
use tomat_os_old.Common.{
  ℕ, zero, suc, ◌<◌, ◌≡◌, ◌≢◌, refl, ◌∙◌, true, false, List, [], ◌∷◌, All, length, Run, done, arith,
}
use tomat_os_old.Kernel.{Registers, EventType, terminate, Event}
use tomat_os_old.Boot.Isr.{RegsHandler}
use tomat_os_old.User.Os.{
  kind_number, is_kind, tomato_os_pull_event, pull_kind, pull_event_raw, pull_event,
}

module _ {S : Type 0} (trap : RegsHandler S) (event_at : S → ℕ → Event) (regs : Registers) where
  -- The kernel delivers these events to the program, in this order, one for each call.
  pub data Delivers : List Event → S → S → Type 0 where
    nothing : {s : S} → Delivers [] s s
    next :
        {e : Event} {es : List Event} {s t u : S}
        → tomato_os_pull_event trap event_at regs s ≡ done (e, t)
        → Delivers es t u
        → Delivers (e ∷ es) s u

  pub kind_found :
      (fuel : ℕ) (kind : EventType) (e : Event) (s t : S)
      → tomato_os_pull_event trap event_at regs s ≡ done (e, t)
      → is_kind kind e ≡ true
      → pull_kind trap event_at regs (suc fuel) kind s ≡ done (e, t)
  unfolding pull_kind
  kind_found fuel kind e s t pull is = rw (pull_kind, pull, is) refl

  pub kind_missed :
      (fuel : ℕ) (kind : EventType) (e : Event) (s t : S)
      → tomato_os_pull_event trap event_at regs s ≡ done (e, t)
      → is_kind kind e ≡ false
      → pull_kind trap event_at regs (suc fuel) kind s ≡ pull_kind trap event_at regs fuel kind t
  unfolding pull_kind
  kind_missed fuel kind e s t pull is = rw (pull_kind, pull, is) refl

  pull_kind-Delivers :
      (fuel : ℕ) (kind : EventType) (es : List Event) (e : Event) (s t u : S)
      → Delivers es s t
      → All (λ e. is_kind kind e ≡ false) es
      → tomato_os_pull_event trap event_at regs t ≡ done (e, u)
      → is_kind kind e ≡ true
      → length es < fuel
      → pull_kind trap event_at regs fuel kind s ≡ done (e, u)
  pull_kind-Delivers zero kind es e s t u some_events others last is enough = ground (arith, enough)
  pull_kind-Delivers (suc fuel) kind [] e s _ u nothing others last is enough =
      kind_found fuel kind e s u last is
  pull_kind-Delivers (suc fuel) kind (e' ∷ es) e s t u (next {t = v} pull rest) (other, others) last
        is enough =
      kind_missed fuel kind e' s v pull other
      ∙ pull_kind-Delivers fuel kind es e v t u rest others last is (omega (arith, enough))

  raw_pulled :
      (fuel : ℕ) (kind : EventType) (s : S) (r : Run (Event × S))
      → kind_number kind ≢ 0
      → pull_kind trap event_at regs fuel kind s ≡ r
      → pull_event_raw trap event_at regs fuel kind s ≡ r
  unfolding pull_event_raw
  raw_pulled fuel kind s r some_kind run = ground (arith, some_kind, run)

  -- An event of a kind that is not the one of a request to terminate is passed on.
  pub pulled :
      (fuel : ℕ) (kind : EventType) (e : Event) (s u : S)
      → kind_number kind ≢ 0
      → kind_number kind ≢ 5
      → pull_kind trap event_at regs fuel kind s ≡ done (e, u)
      → is_kind kind e ≡ true
      → pull_event trap event_at regs fuel kind s ≡ done (e, u)
  unfolding pull_event is_kind kind_number
  pulled fuel kind e s u some_kind no_end run is =
      let stays : is_kind terminate e ≡ false = ground (arith, is, no_end) in
      rw (pull_event, raw_pulled fuel kind s (done (e, u)) some_kind run, stays) refl

  -- A program that waits with `OS::PullEventRaw` or `OS::PullEvent` for events of one kind, neither any
  -- event nor a request to terminate, gets the first one of that kind that the kernel delivers; the events before
  -- it are lost, requests to terminate among them. Both return; the fuel exceeds the number of lost events.
  pub pull_event-Delivers :
      (fuel : ℕ) (kind : EventType) (es : List Event) (e : Event) (s t u : S)
      → kind_number kind ≢ 0
      → kind_number kind ≢ 5
      → Delivers es s t
      → All (λ e. is_kind kind e ≡ false) es
      → tomato_os_pull_event trap event_at regs t ≡ done (e, u)
      → is_kind kind e ≡ true
      → length es < fuel
      → (pull_event_raw trap event_at regs fuel kind s ≡ done (e, u))
        × (pull_event trap event_at regs fuel kind s ≡ done (e, u))
  pull_event-Delivers fuel kind es e s t u some_kind no_end some_events others last is enough =
      let run = pull_kind-Delivers fuel kind es e s t u some_events others last is enough in
      (
        raw_pulled fuel kind s (done (e, u)) some_kind run,
        pulled fuel kind e s u some_kind no_end run is,
      )
