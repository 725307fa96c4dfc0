-- ===== src/Klibc/Strings/Uitoa.antt =====
-- What uitoa prints, read back.
use tomat_os_old.Common.{
  ℕ, suc, ◌+◌, ◌-◌, ◌^◌, ◌≤◌, ◌<◌, ◌≡◌, ◌≢◌, ◌⊎◌, refl, sym, ap, ◌∙◌, false, ltb, leb, ◌==◌, ◌&&◌,
  if◌then◌else◌, update, update_self, done, arith, Bool-cases, inl, inr, ==→eq,
}
use mathlib.Core.Path.{subst}
use tomat_os_old.Klibc.Strings.{Bytes, digit, put_digits, strrev, uitoa}
use tomat_os_old.Klibc.Strings.Reverse.{IsString, strrev_lem}
use tomat_os_old.Klibc.Strings.Digits.{
  quot, Written, put_digits_lem, digit_of, some_digit, printable_digit, parse, parse_lem,
}

-- What `uitoa` leaves: a string of `num` printable characters that denotes `v`, and nothing else
-- changed.
pub record Prints (radix v str num : ℕ) (mem mem' : Bytes) : Type 0 where
  pub string : IsString str num mem'
  pub denotes : parse radix num str 0 mem' ≡ v
  pub printable : (i : ℕ) → i < num → 32 < mem' (str + i)
  pub outside : (j : ℕ) → (j < str) ⊎ (str + num < j) → mem' j ≡ mem j

zero_Prints :
    (radix str : ℕ) (mem : Bytes)
    → Prints radix 0 str 1 mem (update (update mem str 48) (str + 1) 0)
unfolding parse digit_of
zero_Prints radix str mem = record {
  string = record {
    end = update_self (update mem str 48) (str + 1) 0;
    inside = λ j lt e. ground (arith, lt, e);
  };
  denotes =
      let first : update (update mem str 48) (str + 1) 0 str ≡ 48 = ground arith in
      rw first (omega arith);
  printable = λ i lt. ground (arith, lt);
  outside = λ j away. ground (arith, away);
}

-- The string before it is turned.
unturned :
    (radix v str n : ℕ) (mem mem' : Bytes)
    → 0 < radix
    → radix ≤ 36
    → Written radix v (str + 0) n mem mem'
    → IsString str n (update mem' (str + n) 0)
unturned radix v str n mem mem' some_base base w = record {
  end = update_self mem' (str + n) 0;
  inside = λ j lt e.
      some_digit radix (quot radix v (str + j - (str + 0))) some_base base
        (ground (arith, w.bytes (str + j), lt, e));
}

turned_Prints :
    (radix v str n : ℕ) (mem mem1 mem2 : Bytes)
    → 0 < radix
    → radix ≤ 36
    → Written radix v (str + 0) n mem mem1
    → ((j : ℕ)
        → mem2 j ≡ (
            if leb str j && ltb j (str + n)
            then update mem1 (str + n) 0 (str + (str + n - 1) - j)
            else update mem1 (str + n) 0 j))
    → Prints radix v str n mem mem2
turned_Prints radix v str n mem mem1 mem2 some_base base w is =
    let digits : (i : ℕ) → i < n → mem2 (str + i) ≡ digit radix (quot radix v (n - 1 - i)) = λ i lt.
      let place : str + (str + n - 1) - (str + i) - (str + 0) ≡ n - 1 - i = omega (arith, lt) in
      let same = ap (λ k. digit radix (quot radix v k)) place in
      ground (arith, is (str + i), w.bytes (str + (str + n - 1) - (str + i)), same, lt) in
    record {
      string = record {
        end = ground (arith, is (str + n));
        inside = λ j lt e.
            some_digit radix (quot radix v (n - 1 - j)) some_base base (sym (digits j lt) ∙ e);
      };
      denotes =
          ap (λ q. parse radix n str q mem2) (sym w.used_up)
          ∙ parse_lem radix v n str mem2 some_base base digits;
      printable = λ i lt.
          ground
            (arith, digits i lt, printable_digit radix (quot radix v (n - 1 - i)) some_base base);
      outside = λ j away. ground (arith, is j, w.bytes j, away);
    }

steps :
    (fuel v str radix n : ℕ) (mem mem1 mem2 : Bytes)
    → 0 < radix
    → (v == 0) ≡ false
    → put_digits fuel radix v str 0 mem ≡ done (0 + n, mem1)
    → strrev fuel str (update mem1 (str + n) 0) ≡ done mem2
    → uitoa fuel v str radix mem ≡ done (n, mem2)
unfolding uitoa
steps fuel v str radix n mem mem1 mem2 some_base some_v wrote turned =
    let wrote' : put_digits fuel radix v str 0 mem ≡ done (n, mem1) =
      wrote ∙ ap (λ m. done (m, mem1)) (omega arith) in
    let known : (radix == 0) ≡ false = ground (arith, some_base) in
    rw (uitoa, some_v, known, wrote', turned) refl

-- With a radix from 2 to 36, fuel for 34 rounds and a buffer not at 0, `uitoa` returns, for a value of
-- 32 bits that is not 0, or 0 in a radix other than 2 and 16: it writes a string of at most 32
-- printable characters, whose length it returns, which denotes the value in the radix, and changes no other byte.
pub uitoa_lem :
    (fuel v str radix : ℕ) (mem : Bytes)
    → 2 ≤ radix
    → radix ≤ 36
    → 34 ≤ fuel
    → 0 < str
    → v < 2 ^ 32
    → (v ≢ 0) ⊎ ((radix ≢ 2) × (radix ≢ 16))
    → (num : ℕ) × (mem' : Bytes) × (uitoa fuel v str radix mem ≡ done (num, mem'))
      × (num ≤ 32)
      × Prints radix v str num mem mem'
unfolding uitoa
uitoa_lem fuel v str radix mem low high enough placed small which = elim (Bool-cases (v == 0)) [
  | inl none ↦
      let zero_v : v ≡ 0 = ==→eq v 0 none in
      (
        1,
        update (update mem str 48) (str + 1) 0,
        ground (arith, none, which),
        omega arith,
        subst (λ w. Prints radix w str 1 mem (update (update mem str 48) (str + 1) 0)) (sym zero_v)
            (zero_Prints radix str mem),
      )
  | inr some_v ↦
      let some_base : 0 < radix = omega (arith, low) in
      let (n, mem1, wrote, short, w) =
        put_digits_lem 32 fuel radix v str 0 mem low small (omega (arith, enough)) in
      let (mem2, turned, is) =
        strrev_lem fuel str n (update mem1 (str + n) 0) placed (omega (arith, enough, short))
          (unturned radix v str n mem mem1 some_base high w) in
      (
        n,
        mem2,
        steps fuel v str radix n mem mem1 mem2 some_base some_v wrote turned,
        short,
        turned_Prints radix v str n mem mem1 mem2 some_base high w is,
      )
]

-- In the radix 16 nothing is printed for 0.
pub uitoa-zero :
    (fuel str : ℕ) (mem : Bytes)
    → 0 < str
    → (mem' : Bytes) × (uitoa (suc (suc fuel)) 0 str 16 mem ≡ done (0, mem'))
unfolding uitoa put_digits
uitoa-zero fuel str mem placed =
    let empty : IsString str 0 (update mem str 0) = record {
      end = ground arith;
      inside = λ j lt e. omega (arith, lt);
    } in
    let (mem', turned, is) =
      strrev_lem (suc (suc fuel)) str 0 (update mem str 0) placed (omega arith) empty in
    let same : strrev (suc (suc fuel)) str (update mem (str + 0) 0) ≡ done mem' =
      ground (arith, turned) in
    (mem', rw same refl)
