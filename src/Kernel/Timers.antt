-- ===== src/Kernel/Timers.antt =====
-- TomatKernel/core/timer.c, lines 96-122: starting and cancelling timers.
use tomat_os_old.Common.{ℕ, true, false, ◌&&◌, ◌||◌, List, [], ◌∷◌, ◌==◌, if◌then◌else◌, add32}
use tomat_os_old.Kernel.{Timer, Kernel}

-- The first finished timer is overwritten; with none, the new timer is pushed.
unfoldable pub place_timer : Timer → List Timer → List Timer
place_timer t [] = t ∷ []
place_timer t (s ∷ ts) = let rest = place_timer t ts in if s.finished then t ∷ ts else s ∷ rest

-- Returns the id.
unfoldable pub timer_start : (uid millis : ℕ) → Kernel → ℕ × Kernel
unfolding place_timer
timer_start uid millis k =
    let id = add32 k.last_id 1 in
    let t : Timer = record { id = id; uid = uid; millis_left = millis; finished = false } in
    (id, record k { last_id = id; timers = place_timer t k.timers })

unfoldable pub cancel_all : (uid id : ℕ) → List Timer → List Timer
cancel_all uid id [] = []
cancel_all uid id (t ∷ ts) =
    (if (t.id == id || id == 0) && t.uid == uid then record t { finished = true } else t)
    ∷ cancel_all uid id ts

unfoldable pub timer_cancel : (uid id : ℕ) → Kernel → Kernel
unfolding cancel_all
timer_cancel uid id k = record k { timers = cancel_all uid id k.timers }
