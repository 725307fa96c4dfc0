-- ===== src/Boot/Isr/Exception/Text.antt =====
-- Which texts the screen of an exception writes, and the process that it shows.
use tomat_os_old.Common.{
  ℕ, zero, suc, ◌+◌, ◌^◌, ◌<◌, ◌≡◌, refl, ap, ◌∙◌, inl, inr, Bool, true, false, ◌&&◌, ◌==◌, none,
  some, List, [], ◌∷◌, All, get_elem?, done, arith, Bool-cases, ==→eq,
}
use mathlib.Core.Path.{subst}
use tomat_os_old.Kernel.{Process, is_running, process_get_running}
use tomat_os_old.Kernel.Processes.Interrupts.{find_from_lem}
use tomat_os_old.Klibc.Strings.{Bytes, uitoa}
use tomat_os_old.Klibc.Strings.Uitoa.{uitoa_lem, uitoa-zero}
use tomat_os_old.Graphics.Window.Home.{tame}
use tomat_os_old.Boot.Isr.Exception.{text_at}

unfoldable pub all_tame : List (List ℕ) → Bool
all_tame [] = true
all_tame (t ∷ ts) = tame false t && all_tame ts

pub elem_tame :
    (ts : List (List ℕ)) (i : ℕ) (t : List ℕ)
    → all_tame ts ≡ true
    → get_elem? ts i ≡ some t
    → tame false t ≡ true
unfolding all_tame
elem_tame (t' ∷ ts) zero t all found = ground (arith, all, found)
elem_tame (t' ∷ ts) (suc i) t all found = elem_tame ts i t (ground (arith, all)) found
elem_tame [] i t all found = ground (arith, found)

-- Printable characters are no tabs.
pub text_at-tame :
    (n s : ℕ) (home : Bool) (mem : Bytes)
    → ((i : ℕ) → i < n → 32 < mem (s + i))
    → tame home (text_at n s mem) ≡ true
unfolding text_at tame
text_at-tame zero s home mem printable = refl
text_at-tame (suc n) s home mem printable =
    let rest =
      text_at-tame n (s + 1) (mem s == 10) mem
        (λ i lt. subst (λ j. 32 < mem j) (omega arith) (printable (i + 1) (omega (arith, lt)))) in
    ground (arith, printable 0 (omega arith), rest)

-- `uitoa` in the radix 16 prints printable characters.
pub printed :
    (v num_buf : ℕ) (mem : Bytes)
    → 0 < num_buf
    → v < 2 ^ 32
    → (num : ℕ) × (mem' : Bytes) × (uitoa 34 v num_buf 16 mem ≡ done (num, mem'))
      × ((i : ℕ) → i < num → 32 < mem' (num_buf + i))
printed v num_buf mem placed small = elim (Bool-cases (v == 0)) [
  | inl none_left ↦
      let (mem', run) = uitoa-zero 32 num_buf mem placed in
      (
        0,
        mem',
        ap (λ v. uitoa 34 v num_buf 16 mem) (==→eq v 0 none_left) ∙ run,
        λ i lt. omega (arith, lt),
      )
  | inr some_left ↦
      let (num, mem', run, short, prints) =
        uitoa_lem 34 v num_buf 16 mem (omega arith) (omega arith) (omega arith) placed small
          (inl (ground (arith, some_left))) in
      (num, mem', run, prints.printable)
]

-- What a look-up of the running process finds is in the table.
pub running_elem :
    (ps : List Process) (j : ℕ)
    → process_get_running ps ≡ some j
    → (p : Process) × (get_elem? ps j ≡ some p)
unfolding process_get_running
running_elem ps j found =
    let (i, p, at, elem, test) = find_from_lem (λ p. is_running p.status) 0 j ps found in
    (p, ap (get_elem? ps) (omega (arith, at)) ∙ elem)

pub elem-All :
    (P : Process → Type 0) (ps : List Process) (i : ℕ) (p : Process)
    → All P ps
    → get_elem? ps i ≡ some p
    → P p
elem-All P [] i p all found = absurd (ground (arith, found))
elem-All P (q ∷ ps) zero p (first, rest) found =
    subst (λ o. elim o [ none ↦ P p | some r ↦ P r ]) found first
elem-All P (q ∷ ps) (suc i) p (first, rest) found = elem-All P ps i p rest found
