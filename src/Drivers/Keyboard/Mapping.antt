-- ===== src/Drivers/Keyboard/Mapping.antt =====
-- The two tables of ps2_keyboard.c, checked over all scan codes and characters.
use tomat_os_old.Common.{
  ℕ, ◌+◌, ◌≤◌, ◌<◌, ◌≡◌, refl, Bool, true, false, not, ◌&&◌, ◌||◌, List, [], ◌∷◌, ltb, ◌==◌,
  if◌then◌else◌, arith, inl, inr, Bool-cases, ==→eq,
}
use tomat_os_old.Common.Bits.{every, every_lem}
use tomat_os_old.Drivers.Keyboard.{
  assign, scs_writes, shift_writes, scs_mapping, shift_mapping, is_printable, shifted,
}

swap : List (ℕ × ℕ) → List (ℕ × ℕ)
swap [] = []
swap ((i, c) ∷ writes) = (c, i) ∷ swap writes

-- The key that types a character, alone or with shift.
key_for : (c : ℕ) → ℕ
unfolding swap assign
key_for c =
    let alone = assign (swap scs_writes) (λ i. 0) in
    let below = assign (swap shift_writes) (λ i. 0) in
    if alone c == 0 then alone (below c) else alone c

onto_test : ℕ → Bool
onto_test c =
    let i = key_for c in
    not (is_printable c)
    || (ltb i 128 && ((shifted false (scs_mapping i) == c) || (shifted true (scs_mapping i) == c)))

onto_table : every onto_test 127 ≡ true
unfolding every onto_test key_for is_printable shifted scs_mapping shift_mapping assign swap
onto_table = refl

unique_test : Bool → ℕ → Bool
unique_test shift i =
    let c = shifted shift (scs_mapping i) in not (is_printable c) || (key_for c == i)

unique_table : every (unique_test false) 128 && every (unique_test true) 128 ≡ true
unfolding every unique_test key_for is_printable shifted scs_mapping shift_mapping assign swap
unique_table = refl

printable : (c : ℕ) → 32 ≤ c → c ≤ 126 → is_printable c ≡ true
unfolding is_printable
printable c low high = ground arith

onto :
    (c : ℕ)
    → is_printable c ≡ true
    → onto_test c ≡ true
    → (key_for c < 128) × ((shift : Bool) × (shifted shift (scs_mapping (key_for c)) ≡ c))
unfolding onto_test
onto c p h = (
  ground (arith, p, h),
  elim (Bool-cases (shifted false (scs_mapping (key_for c)) == c)) [
    | inl alone ↦ (false, ==→eq _ _ alone)
    | inr other ↦ (true, ==→eq _ _ (ground (arith, p, h, other)))
  ],
)

unique :
    (c j : ℕ) (shift : Bool)
    → is_printable c ≡ true
    → shifted shift (scs_mapping j) ≡ c
    → unique_test shift j ≡ true
    → j ≡ key_for c
unfolding unique_test
unique c j shift p types h = let h = rw types at h in ground (arith, p, h)

unique_at : (j : ℕ) (shift : Bool) → j < 128 → unique_test shift j ≡ true
unique_at j true lt = every_lem (unique_test true) j 128 lt (ground (arith, unique_table))
unique_at j false lt = every_lem (unique_test false) j 128 lt (ground (arith, unique_table))

-- Every printable ASCII character is typed by exactly one key: there is a scan code below 128 whose
-- key gives the character, alone or with shift, and every scan code below 128 that gives it, alone or
-- with shift, is that one.
pub shifted_unique :
    (c : ℕ)
    → 32 ≤ c
    → c ≤ 126
    → (i : ℕ) × (i < 128)
      × ((shift : Bool) × (shifted shift (scs_mapping i) ≡ c))
      × ((j : ℕ) (shift : Bool) → j < 128 → shifted shift (scs_mapping j) ≡ c → j ≡ i)
shifted_unique c low high =
    let p = printable c low high in
    let (small, types) = onto c p (every_lem onto_test c 127 (omega (arith, high)) onto_table) in
    (key_for c, small, types, λ j shift lt same. unique c j shift p same (unique_at j shift lt))

capital_test : ℕ → Bool
capital_test c = ltb c 97 || (shifted true c + 32 == c)

capital_table : every capital_test 123 ≡ true
unfolding every capital_test shifted shift_mapping assign
capital_table = refl

-- With shift, a small letter becomes the capital letter.
pub shifted_capital : (c : ℕ) → 97 ≤ c → c ≤ 122 → shifted true c + 32 ≡ c
unfolding capital_test
shifted_capital c low high =
    ground (arith, low, every_lem capital_test c 123 (omega (arith, high)) capital_table)
