-- ===== src/Kernel/Processes/Queue.antt =====
-- The queue that `push_event` extends (buf_push(process->events, event), process.c, line 160).
use tomat_os_old.Common.{
  ℕ, zero, suc, ◌+◌, ◌≡◌, refl, ap, ◌∙◌, List, [], ◌∷◌, ◌++◌, arith, not, ◌&&◌,
}
use tomat_os_old.Kernel.{
  Event, Process, Kernel, find_from, process_get_core_process, modify, is_dead, buf_push,
}
use tomat_os_old.Kernel.Processes.{push_event}
use tomat_os_old.Kernel.Processes.Ready.{Ready, TimersLive-Lives, runs-modify_same}
use tomat_os_old.Kernel.Scheduler.Live.{live-modify}

-- The events `es` arrive at the end of the queue of the process at `i`.
pub receive : ℕ → List Event → List Process → List Process
receive i es ps = modify i (λ p. record p { events = p.events ++ es }) ps

buf_push-append : (es : List Event) (e : Event) → buf_push es e ≡ es ++ (e ∷ [])
unfolding buf_push
buf_push-append [] e = refl
buf_push-append (x ∷ es) e = ap (λ t. x ∷ t) (buf_push-append es e)

append_nil : (es : List Event) → es ++ [] ≡ es
append_nil [] = refl
append_nil (x ∷ es) = ap (λ t. x ∷ t) (append_nil es)

append_assoc : (xs ys zs : List Event) → (xs ++ ys) ++ zs ≡ xs ++ (ys ++ zs)
append_assoc [] ys zs = refl
append_assoc (x ∷ xs) ys zs = ap (λ t. x ∷ t) (append_assoc xs ys zs)

pub push_event-receive :
    (i : ℕ) (e : Event) (ps : List Process) → push_event i e ps ≡ receive i (e ∷ []) ps
unfolding push_event receive
push_event-receive i e [] = refl
push_event-receive zero e (p ∷ ps) =
    ap (λ es. record p { events = es } ∷ ps) (buf_push-append p.events e)
push_event-receive (suc i) e (p ∷ ps) = ap (λ qs. p ∷ qs) (push_event-receive i e ps)

pub receive_nil : (i : ℕ) (ps : List Process) → receive i [] ps ≡ ps
unfolding receive
receive_nil i [] = refl
receive_nil zero (p ∷ ps) = ap (λ es. record p { events = es } ∷ ps) (append_nil p.events)
receive_nil (suc i) (p ∷ ps) = ap (λ qs. p ∷ qs) (receive_nil i ps)

pub receive-receive :
    (i : ℕ) (es fs : List Event) (ps : List Process)
    → receive i fs (receive i es ps) ≡ receive i (es ++ fs) ps
unfolding receive
receive-receive i es fs [] = refl
receive-receive zero es fs (p ∷ ps) =
    ap (λ es. record p { events = es } ∷ ps) (append_assoc p.events es fs)
receive-receive (suc i) es fs (p ∷ ps) = ap (λ qs. p ∷ qs) (receive-receive i es fs ps)

find_from-receive :
    (j i : ℕ) (es : List Event) (ps : List Process)
    → find_from (λ p. not (is_dead p.status) && p.core) j (receive i es ps)
      ≡ find_from (λ p. not (is_dead p.status) && p.core) j ps
unfolding receive find_from
find_from-receive j i es [] = refl
find_from-receive j zero es (p ∷ ps) = refl
find_from-receive j (suc i) es (p ∷ ps) = ground (arith, find_from-receive (j + 1) i es ps)

pub core-receive :
    (i : ℕ) (es : List Event) (ps : List Process)
    → process_get_core_process (receive i es ps) ≡ process_get_core_process ps
unfolding process_get_core_process
core-receive i es ps = find_from-receive 0 i es ps

pub receive-Ready :
    (i : ℕ) (es : List Event) (k : Kernel)
    → Ready k
    → Ready (record k { processes = receive i es k.processes })
unfolding receive
receive-Ready i es k ready = record {
  on = ready.on;
  may = ready.may;
  one = runs-modify_same i _ k.processes (λ p. refl) ∙ ready.one;
  owned =
      TimersLive-Lives k.processes (receive i es k.processes) k.timers
        (λ uid h.
          live-modify uid i k.processes (record { same_uid = λ p. refl; lives = λ p h. h }) h)
        ready.owned;
}
