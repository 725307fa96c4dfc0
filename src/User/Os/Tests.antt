-- ===== src/User/Os/Tests.antt =====
-- Runs of a program that waits.
use tomat_os_old.Common.{ℕ, ◌*◌, ◌==◌, if◌then◌else◌, ◌≡◌, refl, List, [], ◌∷◌, Run, done, arith}
use tomat_os_old.Kernel.{Registers, Event, timer, key, terminate}
use tomat_os_old.Boot.Isr.{RegsHandler}
use tomat_os_old.User.Os.{
  kind_number, is_kind, pull_event_raw, pull_event, tomato_os_pull_event, start_timer,
  tomato_os_start_timer, sleep,
}
use tomat_os_old.User.Os.Wait.{Delivers, pull_event-Delivers}
use tomat_os_old.User.Os.Sleep.{sleep-Delivers}

abbrev zeroes : Registers
zeroes = record {
  ds = 0;
  edi = 0;
  esi = 0;
  ebp = 0;
  esp = 0;
  ebx = 0;
  edx = 0;
  ecx = 0;
  eax = 0;
  int_no = 0;
  code = 0;
  eip = 0;
  cs = 0;
  eflags = 0;
  useresp = 0;
  ss = 0;
}

-- A kernel that answers a call with the first of the events; the state holds the event in memory and
-- the events that are still to come.
abbrev Stream : Type 0
Stream = Event × List Event

abbrev no_event : Event
no_event = record { type = key; data0 = 0; data1 = 0; data2 = 0; data3 = 0 }

abbrev first_of : Registers → Event → List Event → Run (Registers × Stream)
first_of regs last [] = done (record regs { eax = 7 }, (last, []))
first_of regs last (e ∷ es) = done (record regs { eax = 7 }, (e, es))

-- The number 45 starts the timer 7; every other one delivers an event.
abbrev deliver : RegsHandler Stream
deliver regs (last, es) =
    if regs.eax == 45 then done (record regs { eax = 7 }, (last, es)) else first_of regs last es

abbrev read : Stream → ℕ → Event
read s ptr = s.0

abbrev stop : Event
stop = record no_event { type = terminate }

abbrev tick : ℕ → Event
tick id = record no_event { type = timer; data0 = id }

pull_event_example :
    (pull_event_raw deliver read zeroes 3 timer (no_event, stop ∷ no_event ∷ tick 7 ∷ [])
      ≡ done (tick 7, (tick 7, [])))
    × (pull_event deliver read zeroes 3 timer (no_event, stop ∷ no_event ∷ tick 7 ∷ [])
        ≡ done (tick 7, (tick 7, [])))
unfolding tomato_os_pull_event is_kind kind_number
pull_event_example =
    pull_event-Delivers deliver read zeroes 3 timer (stop ∷ no_event ∷ []) (tick 7)
      (no_event, stop ∷ no_event ∷ tick 7 ∷ []) (no_event, tick 7 ∷ []) (tick 7, []) (omega arith)
      (omega arith) (Delivers.next refl (Delivers.next refl Delivers.nothing)) (refl, (refl, tt))
      refl refl (omega arith)

sleep_example :
    sleep deliver read zeroes (λ time. time * 1000) 3 3 2 (no_event, tick 6 ∷ stop ∷ tick 7 ∷ [])
    ≡ done (tick 7, [])
unfolding tomato_os_pull_event is_kind kind_number start_timer tomato_os_start_timer
sleep_example =
    sleep-Delivers deliver read zeroes (λ time. time * 1000) 3 3 7 2 (tick 6 ∷ stop ∷ []) (tick 7)
      (no_event, tick 6 ∷ stop ∷ tick 7 ∷ []) (no_event, tick 6 ∷ stop ∷ tick 7 ∷ [])
      (stop, tick 7 ∷ []) (tick 7, []) refl
      (Delivers.next refl (Delivers.next refl Delivers.nothing)) (refl, (refl, tt)) refl refl
      (omega arith) (omega arith)
