-- ===== src/Klibc/Strings/Compare.antt =====
-- When strcmp and memcmp answer 0.
use tomat_os_old.Common.{
  ℕ, zero, suc, ◌+◌, ◌<◌, ◌≡◌, ◌≢◌, refl, sym, ap, ◌∙◌, ◌==◌, ◌↔◌, sub32, done, arith, Bool-cases,
  inl, inr, ==→eq,
}
use tomat_os_old.Klibc.Strings.{Bytes, strcmp, memcmp}
use tomat_os_old.Klibc.Strings.Reverse.{IsString}

-- `n` bytes that agree.
abbrev pub Same : (s1 s2 n : ℕ) → Bytes → Type 0
Same s1 s2 n mem = (j : ℕ) → j < n → mem (s1 + j) ≡ mem (s2 + j)

abbrev pub AreBytes : Bytes → Type 0
AreBytes mem = (j : ℕ) → mem j < 256

at_next : (mem : Bytes) (s j : ℕ) → mem (s + suc j) ≡ mem (s + 1 + j)
at_next mem s j = ap mem (omega arith)

at_start : (mem : Bytes) (s : ℕ) → mem (s + 0) ≡ mem s
at_start mem s = ap mem (omega arith)

Same-cons :
    (s1 s2 n : ℕ) (mem : Bytes)
    → mem s1 ≡ mem s2
    → Same (s1 + 1) (s2 + 1) n mem
    → Same s1 s2 (suc n) mem
Same-cons s1 s2 n mem first rest zero lt = at_start mem s1 ∙ first ∙ sym (at_start mem s2)
Same-cons s1 s2 n mem first rest (suc j) lt =
    at_next mem s1 j ∙ rest j (omega (arith, lt)) ∙ sym (at_next mem s2 j)

Same-head : (s1 s2 n : ℕ) (mem : Bytes) → Same s1 s2 (suc n) mem → mem s1 ≡ mem s2
Same-head s1 s2 n mem same = sym (at_start mem s1) ∙ same 0 (omega arith) ∙ at_start mem s2

Same-tail : (s1 s2 n : ℕ) (mem : Bytes) → Same s1 s2 (suc n) mem → Same (s1 + 1) (s2 + 1) n mem
Same-tail s1 s2 n mem same j lt =
    sym (at_next mem s1 j) ∙ same (suc j) (omega (arith, lt)) ∙ at_next mem s2 j

IsString-tail : (s n : ℕ) (mem : Bytes) → IsString s (suc n) mem → IsString (s + 1) n mem
IsString-tail s n mem string = record {
  end = sym (at_next mem s n) ∙ string.end;
  inside = λ j lt e. string.inside (suc j) (omega (arith, lt)) (at_next mem s j ∙ e);
}

-- The answer for two bytes that end the comparison.
last_bytes :
    (s1 s2 : ℕ) (mem : Bytes) → AreBytes mem → (sub32 (mem s1) (mem s2) ≡ 0) ↔ (mem s1 ≡ mem s2)
last_bytes s1 s2 mem bytes =
    (λ e. ground (arith, e, bytes s1, bytes s2), λ e. ground (arith, e, bytes s1, bytes s2))

-- On a string of `n` characters at `s1`, and any bytes at `s2`, `strcmp` returns, with fuel for the
-- string, and it answers 0 exactly if the string, with its end, stands at `s2` too.
pub strcmp_lem :
    (fuel s1 s2 n : ℕ) (mem : Bytes)
    → AreBytes mem
    → n < fuel
    → IsString s1 n mem
    → (r : ℕ) × (strcmp fuel s1 s2 mem ≡ done r) × ((r ≡ 0) ↔ Same s1 s2 (suc n) mem)
unfolding strcmp
strcmp_lem zero s1 s2 n mem bytes more string = absurd (omega (arith, more))
strcmp_lem (suc fuel) s1 s2 zero mem bytes more string =
    let stop : mem s1 ≡ 0 = sym (at_start mem s1) ∙ string.end in
    let (from, to) = last_bytes s1 s2 mem bytes in
    (
      sub32 (mem s1) (mem s2),
      ground (arith, stop),
      (
        λ e. Same-cons s1 s2 0 mem (from e) (λ j lt. absurd (omega (arith, lt))),
        λ same. to (Same-head s1 s2 0 mem same),
      ),
    )
strcmp_lem (suc fuel) s1 s2 (suc n) mem bytes more string =
    let some_char : mem s1 ≢ 0 = λ e. string.inside 0 (omega arith) (at_start mem s1 ∙ e) in
    elim (Bool-cases (mem s1 == mem s2)) [
      | inl same ↦
          let first = ==→eq (mem s1) (mem s2) same in
          let (r, run, (from, to)) =
            strcmp_lem fuel (s1 + 1) (s2 + 1) n mem bytes (omega (arith, more))
              (IsString-tail s1 n mem string) in
          (
            r,
            ground (arith, some_char, same, run),
            (
              λ e. Same-cons s1 s2 (suc n) mem first (from e),
              λ all. to (Same-tail s1 s2 (suc n) mem all),
            ),
          )
      | inr differ ↦
          let (from, to) = last_bytes s1 s2 mem bytes in
          let apart : mem s1 ≢ mem s2 = ground (arith, differ) in
          (
            sub32 (mem s1) (mem s2),
            ground (arith, differ),
            (λ e. absurd (apart (from e)), λ all. absurd (apart (Same-head s1 s2 (suc n) mem all))),
          )
    ]

-- `memcmp` answers 0 exactly if the `n` bytes agree.
pub memcmp_lem :
    (s1 s2 n : ℕ) (mem : Bytes) → AreBytes mem → (memcmp s1 s2 n mem ≡ 0) ↔ Same s1 s2 n mem
unfolding memcmp
memcmp_lem s1 s2 zero mem bytes = (λ e j lt. absurd (omega (arith, lt)), λ same. refl)
memcmp_lem s1 s2 (suc n) mem bytes =
    let (from, to) = memcmp_lem (s1 + 1) (s2 + 1) n mem bytes in
    let (from', to') = last_bytes s1 s2 mem bytes in
    elim (Bool-cases (mem s1 == mem s2)) [
      | inl same ↦
          let first = ==→eq (mem s1) (mem s2) same in
          let rest : memcmp (s1 + 1) (s2 + 1) n mem ≡ memcmp s1 s2 (suc n) mem =
            ground (arith, same) in
          (
            λ e. Same-cons s1 s2 n mem first (from (rest ∙ e)),
            λ all. sym rest ∙ to (Same-tail s1 s2 n mem all),
          )
      | inr differ ↦
          let apart : mem s1 ≢ mem s2 = ground (arith, differ) in
          let here : sub32 (mem s1) (mem s2) ≡ memcmp s1 s2 (suc n) mem = ground (arith, differ) in
          (
            λ e. absurd (apart (from' (here ∙ e))),
            λ all. absurd (apart (Same-head s1 s2 n mem all)),
          )
    ]
