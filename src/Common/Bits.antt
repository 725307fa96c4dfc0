-- ===== src/Common/Bits.antt =====
-- The bits of a byte: `b & (1 << i)`, `b |= 1 << i` and `b &= ~(1 << i)`, with their laws checked
-- over every byte and every bit.
use Prim.Native.Nat.{ℕ, zero, suc, ◌-◌, ◌^◌, ◌<◌, bit_and, bit_or}
use mathlib.Core.Path.{◌≡◌, refl}
use mathlib.Core.Bool.{Bool, true, false, not, ◌&&◌}
use native.Mathlib.Omega.{arith}
use tomat_os_old.Common.Tests.{ltb, ◌==◌, if◌then◌else◌}

-- (b & (1 << i)) != 0
unfoldable pub test_bit : ℕ → ℕ → Bool
test_bit b i = not (bit_and b (2 ^ i) == 0)

-- b |= 1 << i
pub set_bit : ℕ → ℕ → ℕ
set_bit b i = bit_or b (2 ^ i)

-- b &= ~(1 << i), on a byte
pub clear_bit : ℕ → ℕ → ℕ
clear_bit b i = bit_and b (255 - 2 ^ i)

-- Whether a test holds of every number below a bound.
unfoldable pub every : (test : ℕ → Bool) (bound : ℕ) → Bool
every test zero = true
every test (suc bound) = if test bound then every test bound else false

pub every_lem :
    (test : ℕ → Bool) (m bound : ℕ) → m < bound → every test bound ≡ true → test m ≡ true
unfolding every
every_lem test m (suc bound) small h = ground (arith, every_lem test m bound, small, h)
every_lem test m zero small h = absurd (omega (arith, small))

beq : Bool → Bool → Bool
beq true b = b
beq false b = not b

eq_of_beq : (a b : Bool) → beq a b ≡ true → a ≡ b
unfolding beq
eq_of_beq true b h = ground arith
eq_of_beq false b h = ground arith

-- A fact about every byte and two bits.
all_bits : (ℕ → ℕ → ℕ → Bool) → Bool
all_bits p = every (λ b. every (λ i. every (p b i) 8) 8) 256

all_bits_sound :
    (p : ℕ → ℕ → ℕ → Bool)
    → all_bits p ≡ true
    → (b i j : ℕ) → b < 256
    → i < 8
    → j < 8
    → p b i j ≡ true
unfolding all_bits
all_bits_sound p h b i j hb hi hj = every_lem _ j 8 hj (every_lem _ i 8 hi (every_lem _ b 256 hb h))

set_bit_law : ℕ → ℕ → ℕ → Bool
set_bit_law b i j = beq (test_bit (set_bit b i) j) (if i == j then true else test_bit b j)

set_bit_table : all_bits set_bit_law ≡ true
unfolding all_bits every set_bit_law beq test_bit set_bit
set_bit_table = refl

pub test_bit-set_bit :
    (b i j : ℕ)
    → b < 256
    → i < 8
    → j < 8
    → test_bit (set_bit b i) j ≡ (if i == j then true else test_bit b j)
unfolding set_bit_law
test_bit-set_bit b i j hb hi hj =
    eq_of_beq _ _ (all_bits_sound set_bit_law set_bit_table b i j hb hi hj)

clear_bit_law : ℕ → ℕ → ℕ → Bool
clear_bit_law b i j = beq (test_bit (clear_bit b i) j) (if i == j then false else test_bit b j)

clear_bit_table : all_bits clear_bit_law ≡ true
unfolding all_bits every clear_bit_law beq test_bit clear_bit
clear_bit_table = refl

pub test_bit-clear_bit :
    (b i j : ℕ)
    → b < 256
    → i < 8
    → j < 8
    → test_bit (clear_bit b i) j ≡ (if i == j then false else test_bit b j)
unfolding clear_bit_law
test_bit-clear_bit b i j hb hi hj =
    eq_of_beq _ _ (all_bits_sound clear_bit_law clear_bit_table b i j hb hi hj)

-- The results are bytes.
range_law : ℕ → ℕ → ℕ → Bool
range_law b i j = ltb (set_bit b i) 256 && ltb (clear_bit b i) 256

range_table : all_bits range_law ≡ true
unfolding all_bits every range_law set_bit clear_bit
range_table = refl

pub set_bit-lt : (b i : ℕ) → b < 256 → i < 8 → set_bit b i < 256
unfolding range_law
set_bit-lt b i hb hi =
    ground (arith, all_bits_sound range_law range_table b i 0 hb hi (omega arith))

pub clear_bit-lt : (b i : ℕ) → b < 256 → i < 8 → clear_bit b i < 256
unfolding range_law
clear_bit-lt b i hb hi =
    ground (arith, all_bits_sound range_law range_table b i 0 hb hi (omega arith))

-- A byte is 255 exactly when each of its bits is set.
full_law : ℕ → ℕ → ℕ → Bool
full_law b i j = if b == 255 then test_bit b i else not (every (test_bit b) 8)

full_table : all_bits full_law ≡ true
unfolding all_bits every full_law test_bit
full_table = refl

pub test_bit_of_full : (i : ℕ) → i < 8 → test_bit 255 i ≡ true
unfolding full_law
test_bit_of_full i hi = all_bits_sound full_law full_table 255 i 0 (omega arith) hi (omega arith)

every_intro : (test : ℕ → Bool) (n : ℕ) → ((m : ℕ) → m < n → test m ≡ true) → every test n ≡ true
unfolding every
every_intro test zero h = refl
every_intro test (suc n) h =
    ground (arith, h n (omega arith), every_intro test n (λ m lt. h m (omega arith)))

pub full_of_test_bits : (b : ℕ) → b < 256 → ((i : ℕ) → i < 8 → test_bit b i ≡ true) → b ≡ 255
unfolding full_law
full_of_test_bits b hb h = ground (
  arith,
  all_bits_sound full_law full_table b 0 0 hb (omega arith) (omega arith),
  every_intro (test_bit b) 8 h,
)

set_full_law : ℕ → Bool
set_full_law i = set_bit 255 i == 255

set_full_table : every set_full_law 8 ≡ true
unfolding every set_full_law set_bit
set_full_table = refl

pub set_bit_of_full : (i : ℕ) → i < 8 → set_bit 255 i ≡ 255
unfolding set_full_law
set_bit_of_full i hi = ground (arith, every_lem set_full_law i 8 hi set_full_table)
