-- ===== src/Kernel/Scheduler/Pick.antt =====
-- Which process the search of `scheduler_update` chooses (process.c, lines 417-434 and 447-461).
use tomat_os_old.Common.{
  ℕ, zero, suc, ◌+◌, ◌^◌, ◌≤◌, ◌<◌, ◌≡◌, ◌⊎◌, inl, inr, refl, Bool, true, false, not, ◌&&◌, Option,
  some, List, [], ◌∷◌, ltb, get_elem?, arith, Bool-cases, All,
}
use tomat_os_old.Kernel.{Process, is_normal}
use tomat_os_old.Kernel.Scheduler.{beats, pick, score}

-- Ready to run, and never run before.
abbrev pub is_fresh : Process → Bool
is_fresh p = is_normal p.status && not p.started

-- `p` does not beat the score `b`: as an `int` its score is negative or at most `b`.
abbrev pub Rival : ℕ → Process → Type 0
Rival b p = is_normal p.status ≡ true → (2 ^ 31 ≤ score p) ⊎ (score p ≤ b)

abbrev pub AllBefore {ℓ} : ℕ → (Process → Type ℓ) → List Process → Type ℓ
AllBefore zero P ps = Unit
AllBefore (suc n) P [] = Unit
AllBefore (suc n) P (p ∷ ps) = P p × AllBefore n P ps

-- What a search from index `i` with `best_score` and `best` may return.
pub data Picked (i best_score : ℕ) (best : Option ℕ) (ps : List Process) (r : Option ℕ)
    : Type 0 where
  fresh :
      (n : ℕ) (p : Process)
      → r ≡ some (i + n)
      → get_elem? ps n ≡ some p
      → is_fresh p ≡ true
      → AllBefore n (λ q. is_fresh q ≡ false) ps
      → Picked i best_score best ps r
  top :
      (n : ℕ) (p : Process)
      → r ≡ some (i + n)
      → get_elem? ps n ≡ some p
      → is_normal p.status ≡ true
      → best_score < score p
      → score p < 2 ^ 31
      → All (Rival (score p)) ps
      → All (λ q. is_fresh q ≡ false) ps
      → Picked i best_score best ps r
  kept :
      r ≡ best
      → All (Rival best_score) ps
      → All (λ q. is_fresh q ≡ false) ps
      → Picked i best_score best ps r

Rival-mono : (a b : ℕ) (p : Process) → a ≤ b → Rival a p → Rival b p
Rival-mono a b p le h normal = elim (h normal) [ inl big ↦ inl big | inr small ↦ inr (omega arith) ]

All-Rival-mono : (a b : ℕ) (ps : List Process) → a ≤ b → All (Rival a) ps → All (Rival b) ps
All-Rival-mono a b [] le h = tt
All-Rival-mono a b (p ∷ ps) le h = (Rival-mono a b p le h.0, All-Rival-mono a b ps le h.1)

beats-lt : (b : ℕ) (p : Process) → beats b p ≡ true → (b < score p) × (score p < 2 ^ 31)
unfolding beats
beats-lt b p h = (ground arith, ground arith)

beats-Rival : (b : ℕ) (p : Process) → (is_normal p.status && beats b p) ≡ false → Rival b p
unfolding beats
beats-Rival b p h normal = elim (Bool-cases (ltb b (score p))) [
  | inl above ↦ inl (ground arith)
  | inr below ↦ inr (ground arith)
]

abbrev shift : (i n : ℕ) → i + 1 + n ≡ i + suc n
shift i n = omega arith

-- A process that beats the best so far becomes the best.
pick_better :
    (i bs : ℕ) (best : Option ℕ) (p : Process) (ps : List Process) (r : Option ℕ)
    → is_fresh p ≡ false
    → is_normal p.status ≡ true
    → beats bs p ≡ true
    → Picked (i + 1) (score p) (some i) ps r
    → Picked i bs best (p ∷ ps) r
pick_better i bs best p ps r not_fresh normal better (fresh n q e at f before) =
    fresh (suc n) q (ground arith) at f (not_fresh, before)
pick_better i bs best p ps r not_fresh normal better
      (top n q e at nq above small rivals none_fresh) =
    let b = beats-lt bs p better in
    top (suc n) q (ground arith) at nq (omega arith) small ((λ h. inr (omega arith)), rivals)
      (not_fresh, none_fresh)
pick_better i bs best p ps r not_fresh normal better (kept e rivals none_fresh) =
    let b = beats-lt bs p better in
    top 0 p (ground arith) refl normal b.0 b.1 ((λ h. inr (omega arith)), rivals)
      (not_fresh, none_fresh)

pick_worse :
    (i bs : ℕ) (best : Option ℕ) (p : Process) (ps : List Process) (r : Option ℕ)
    → is_fresh p ≡ false
    → Rival bs p
    → Picked (i + 1) bs best ps r
    → Picked i bs best (p ∷ ps) r
pick_worse i bs best p ps r not_fresh rival (fresh n q e at f before) =
    fresh (suc n) q (ground arith) at f (not_fresh, before)
pick_worse i bs best p ps r not_fresh rival (top n q e at nq above small rivals none_fresh) =
    top (suc n) q (ground arith) at nq above small
      (Rival-mono bs (score q) p (omega arith) rival, rivals) (not_fresh, none_fresh)
pick_worse i bs best p ps r not_fresh rival (kept e rivals none_fresh) =
    kept e (rival, rivals) (not_fresh, none_fresh)

-- The search returns the first process that is ready and was never started; with none, one
-- of the ready processes with the highest positive score; with none, what it was given.
pub pick-Picked :
    (i bs : ℕ) (best : Option ℕ) (ps : List Process) → Picked i bs best ps (pick i bs best ps)
unfolding pick
pick-Picked i bs best [] = kept refl tt tt
pick-Picked i bs best (p ∷ ps) = elim (Bool-cases (is_fresh p)) [
  | inl f ↦ rw f (fresh 0 p (ground arith) refl f tt)
  | inr not_fresh ↦ elim (Bool-cases (is_normal p.status && beats bs p)) [
    | inl better ↦
        rw (not_fresh, better)
          (pick_better i bs best p ps _ not_fresh (ground arith) (ground arith)
            (pick-Picked (i + 1) (score p) (some i) ps))
    | inr worse ↦
        rw (not_fresh, worse)
          (pick_worse i bs best p ps _ not_fresh (beats-Rival bs p worse)
            (pick-Picked (i + 1) bs best ps))
  ]
]
