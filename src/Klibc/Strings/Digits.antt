-- ===== src/Klibc/Strings/Digits.antt =====
-- The digits that uitoa writes, read back.
use tomat_os_old.Common.{
  ℕ, zero, suc, ◌+◌, ◌-◌, ◌*◌, ◌/◌, ◌%◌, ◌^◌, ◌≤◌, ◌<◌, ◌≡◌, ◌≢◌, refl, sym, ap, ◌∙◌, ltb, leb,
  ◌==◌, ◌&&◌, if◌then◌else◌, update, done, arith, Bool-cases, lt_of_ltb, inl, inr, ==→eq,
}
use native.Mathlib.Nat.{div-lt_iff_lt-mul, mul-le-mul_left, pow-suc, mod-lt, div-add-mod'}
use tomat_os_old.Klibc.Strings.{Bytes, digit, put_digits}

-- `v` without its last `i` digits.
pub quot : (radix v i : ℕ) → ℕ
quot radix v zero = v
quot radix v (suc i) = quot radix v i / radix

quot_shift : (radix v i : ℕ) → quot radix (v / radix) i ≡ quot radix v (suc i)
unfolding quot
quot_shift radix v zero = refl
quot_shift radix v (suc i) = ap (λ q. q / radix) (quot_shift radix v i)

less_digits : (radix v k : ℕ) → 2 ≤ radix → v < 2 ^ suc k → v / radix < 2 ^ k
less_digits radix v k base small =
    let some_base : 0 < radix = omega (arith, base) in
    (div-lt_iff_lt-mul some_base).1
      (omega (arith, small, mul-le-mul_left (2 ^ k) base, pow-suc 2 k))

-- What the loop leaves: `n` characters, the last digit first.
pub record Written (radix v at n : ℕ) (mem mem' : Bytes) : Type 0 where
  pub used_up : quot radix v n ≡ 0
  pub bytes :
      (j : ℕ)
      → mem' j ≡ (if leb at j && ltb j (at + n) then digit radix (quot radix v (j - at)) else mem j)

first-Written :
    (radix v str num n : ℕ) (mem mem' : Bytes)
    → Written radix (v / radix) (str + (num + 1)) n (update mem (str + num) (digit radix v)) mem'
    → (j : ℕ)
    → mem' j ≡ (
        if leb (str + num) j && ltb j (str + num + suc n)
        then digit radix (quot radix v (j - (str + num)))
        else mem j)
unfolding quot
first-Written radix v str num n mem mem' w j = elim (Bool-cases (ltb (str + num) j)) [
  | inl behind ↦
      let lt = lt_of_ltb (str + num) j behind in
      let index : suc (j - (str + (num + 1))) ≡ j - (str + num) = omega (arith, lt) in
      let same : digit radix (quot radix (v / radix) (j - (str + (num + 1))))
          ≡ digit radix (quot radix v (j - (str + num))) =
        ap (digit radix) (quot_shift radix v (j - (str + (num + 1))) ∙ ap (quot radix v) index) in
      ground (arith, w.bytes j, same, behind)
  | inr before ↦
      let same : str + num ≡ j → digit radix v ≡ digit radix (quot radix v (j - (str + num))) = λ e.
        let start : 0 ≡ j - (str + num) = omega (arith, e) in
        ap (λ i. digit radix (quot radix v i)) start in
      elim (Bool-cases (str + num == j)) [
        | inl here ↦ ground (arith, w.bytes j, here, same (==→eq _ _ here))
        | inr other ↦ ground (arith, w.bytes j, before, other)
      ]
]

pub put_digits_lem :
    (k fuel radix v str num : ℕ) (mem : Bytes)
    → 2 ≤ radix
    → v < 2 ^ k
    → k < fuel
    → (n : ℕ) × (mem' : Bytes) × (put_digits fuel radix v str num mem ≡ done (num + n, mem'))
      × (n ≤ k)
      × Written radix v (str + num) n mem mem'
unfolding put_digits quot
put_digits_lem k zero radix v str num mem base small more = absurd (omega (arith, more))
put_digits_lem zero (suc fuel) radix v str num mem base small more = (
  0,
  mem,
  ground (arith, small),
  omega arith,
  record { used_up = omega (arith, small); bytes = λ j. ground arith },
)
put_digits_lem (suc k) (suc fuel) radix v str num mem base small more = elim (Bool-cases (v == 0)) [
  | inl over ↦ (
    0,
    mem,
    ground (arith, over),
    omega arith,
    record { used_up = ==→eq v 0 over; bytes = λ j. ground arith },
  )
  | inr going ↦
      let (n, mem', run, short, w) =
        put_digits_lem k fuel radix (v / radix) str (num + 1)
          (update mem (str + num) (digit radix v)) base (less_digits radix v k base small)
          (omega (arith, more)) in
      (
        suc n,
        mem',
        ground (arith, going, run),
        omega (arith, short),
        record {
          used_up = sym (quot_shift radix v n) ∙ w.used_up;
          bytes = λ j. first-Written radix v str num n mem mem' w j;
        },
      )
]

-- The value of a digit.
unfoldable pub digit_of : ℕ → ℕ
digit_of c = if leb 65 c then c - 55 else c - 48

-- The number that `n` digits from `s` on denote, behind digits that denote `v`.
unfoldable pub parse : (radix n s v : ℕ) → Bytes → ℕ
parse radix zero s v mem = v
parse radix (suc n) s v mem = parse radix n (s + 1) (v * radix + digit_of (mem s)) mem

digit_of-digit : (radix v : ℕ) → 0 < radix → radix ≤ 36 → digit_of (digit radix v) ≡ v % radix
unfolding digit_of digit
digit_of-digit radix v some_base base = ground (arith, mod-lt v some_base, base)

pub printable_digit : (radix v : ℕ) → 0 < radix → radix ≤ 36 → 32 < digit radix v
unfolding digit
printable_digit radix v some_base base = ground (arith, mod-lt v some_base, base)

pub some_digit : (radix v : ℕ) → 0 < radix → radix ≤ 36 → digit radix v ≢ 0
unfolding digit
some_digit radix v some_base base = ground (arith, mod-lt v some_base, base)

pub parse_lem :
    (radix v n s : ℕ) (mem : Bytes)
    → 0 < radix
    → radix ≤ 36
    → ((i : ℕ) → i < n → mem (s + i) ≡ digit radix (quot radix v (n - 1 - i)))
    → parse radix n s (quot radix v n) mem ≡ v
unfolding parse quot
parse_lem radix v zero s mem some_base base is = refl
parse_lem radix v (suc n) s mem some_base base is =
    let first : mem s ≡ digit radix (quot radix v n) =
      ap mem (omega arith)
      ∙ is 0 (omega arith)
      ∙ ap (λ i. digit radix (quot radix v i)) (omega arith) in
    let ih = parse_lem radix v n (s + 1) mem some_base base (λ i lt.
      ap mem (omega arith)
      ∙ is (i + 1) (omega (arith, lt))
      ∙ ap (λ i. digit radix (quot radix v i)) (omega (arith, lt))) in
    let next : quot radix v n / radix * radix + digit_of (mem s) ≡ quot radix v n =
      ap (λ c. quot radix v n / radix * radix + digit_of c) first
      ∙ ap (λ d. quot radix v n / radix * radix + d)
          (digit_of-digit radix (quot radix v n) some_base base)
      ∙ div-add-mod' (quot radix v n) radix in
    ap (λ q. parse radix n (s + 1) q mem) next ∙ ih
