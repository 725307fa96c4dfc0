-- ===== src/Klibc/Strings/Reverse.antt =====
-- What strlen and strrev compute.
use tomat_os_old.Common.{
  ℕ, zero, suc, ◌+◌, ◌-◌, ◌*◌, ◌≤◌, ◌<◌, ◌≡◌, ◌≢◌, ltb, leb, ◌==◌, ◌&&◌, if◌then◌else◌, update,
  done, arith, sym, ap, ◌∙◌, le_of_ltb, lt_of_ltb, Bool-cases, inl, inr,
}
use tomat_os_old.Klibc.Strings.{Bytes, count_from, strlen, swap_ends, strrev}

-- A string of `n` characters at `s`.
pub record IsString (s n : ℕ) (mem : Bytes) : Type 0 where
  pub end : mem (s + n) ≡ 0
  pub inside : (j : ℕ) → j < n → mem (s + j) ≢ 0

ne_at : (mem : Bytes) {a b c : ℕ} → a ≡ b → mem b ≢ c → mem a ≢ c
ne_at mem same ne e = ne (sym (ap mem same) ∙ e)

count_from_lem :
    (fuel n m s : ℕ) (mem : Bytes)
    → m < fuel
    → mem (s + m) ≡ 0
    → ((j : ℕ) → j < m → mem (s + j) ≢ 0)
    → count_from fuel n s mem ≡ done (n + m)
unfolding count_from
count_from_lem zero n m s mem more stop inside = absurd (omega (arith, more))
count_from_lem (suc fuel) n zero s mem more stop inside = ground (arith, stop)
count_from_lem (suc fuel) n (suc m) s mem more stop inside =
    let ih =
      count_from_lem fuel (n + 1) m (s + 1) mem (omega (arith, more)) (ap mem (omega arith) ∙ stop)
        (λ j lt. ne_at mem (omega arith) (inside (j + 1) (omega (arith, lt)))) in
    let first : mem s ≢ 0 = ne_at mem (omega arith) (inside 0 (omega arith)) in
    ground (arith, first, ih)

-- The bytes from `front` to `back`, the other way round.
abbrev turned : (front back : ℕ) → Bytes → Bytes
turned front back mem j = if leb front j && leb j back then mem (front + back - j) else mem j

-- One byte, or none, is turned.
turned_none :
    (front back : ℕ) (mem : Bytes) (j : ℕ) → back ≤ front → mem j ≡ turned front back mem j
turned_none front back mem j short = elim (Bool-cases (leb front j && leb j back)) [
  | inl here ↦
      let same : mem (front + back - j) ≡ mem j = ap mem (ground (arith, here, short)) in
      ground (arith, here, same)
  | inr other ↦ ground (arith, other)
]

turned_step :
    (front back : ℕ) (mem : Bytes) (j : ℕ)
    → front < back
    → turned (front + 1) (back - 1) (update (update mem front (mem back)) back (mem front)) j
      ≡ turned front back mem j
turned_step front back mem j long =
    let inner : mem (front + 1 + (back - 1) - j) ≡ mem (front + back - j) =
      ap mem (omega (arith, long)) in
    elim (Bool-cases (j == back)) [
      | inl last ↦
          let same : mem (front + back - j) ≡ mem front = ap mem (ground (arith, last)) in
          ground (arith, last, same, long)
      | inr not_last ↦ elim (Bool-cases (j == front)) [
        | inl first ↦
            let same : mem (front + back - j) ≡ mem back = ap mem (ground (arith, first)) in
            ground (arith, first, not_last, same, long)
        | inr not_first ↦ ground (arith, not_first, not_last, inner, long)
      ]
    ]

swap_ends_lem :
    (fuel front back : ℕ) (mem : Bytes)
    → back < front + 2 * fuel
    → (mem' : Bytes) × (swap_ends (suc fuel) front back mem ≡ done mem')
      × ((j : ℕ) → mem' j ≡ turned front back mem j)
unfolding swap_ends
swap_ends_lem zero front back mem more =
    (mem, ground (arith, more), λ j. turned_none front back mem j (omega (arith, more)))
swap_ends_lem (suc fuel) front back mem more = elim (Bool-cases (ltb front back)) [
  | inr over ↦
      (mem, ground (arith, over), λ j. turned_none front back mem j (le_of_ltb front back over))
  | inl going ↦
      let next = update (update mem front (mem back)) back (mem front) in
      let (mem', run, is) = swap_ends_lem fuel (front + 1) (back - 1) next (omega (arith, more)) in
      (
        mem',
        ground (arith, going, run),
        λ j. is j ∙ turned_step front back mem j (lt_of_ltb front back going),
      )
]

-- `strlen` on a string of `n` characters.
pub strlen_lem :
    (fuel s n : ℕ) (mem : Bytes) → n < fuel → IsString s n mem → strlen fuel s mem ≡ done n
unfolding strlen
strlen_lem fuel s n mem more string =
    ground (arith, count_from_lem fuel 0 n s mem more string.end string.inside)

-- On a string of `n` characters `strrev` returns, with fuel for them, and turns the characters round,
-- the end of the string and all other bytes staying as they were.
pub strrev_lem :
    (fuel str n : ℕ) (mem : Bytes)
    → 0 < str
    → n + 1 < fuel
    → IsString str n mem
    → (mem' : Bytes) × (strrev fuel str mem ≡ done mem')
      × ((j : ℕ)
          → mem' j
            ≡ (if leb str j && ltb j (str + n) then mem (str + (str + n - 1) - j) else mem j))
unfolding strrev
strrev_lem zero str n mem placed more string = absurd (omega (arith, more))
strrev_lem (suc fuel) str n mem placed more string =
    let (mem', run, is) = swap_ends_lem fuel str (str + n - 1) mem (omega (arith, more)) in
    (
      mem',
      rw (strrev, strlen_lem (suc fuel) str n mem (omega (arith, more)) string) run,
      λ j. ground (arith, is j, placed),
    )
