-- ===== src/Klibc/Strings.antt =====
-- TomatKernel/klibc/string.c, on the memory as a function from addresses to bytes. An `int` that is
-- returned is its 32 bits. A loop that runs to the end of a string is on fuel.
pub mod Reverse
pub mod Digits
pub mod Uitoa
pub mod Copy
pub mod Compare
mod Tests
use tomat_os_old.Common.{
  ℕ, zero, suc, ◌+◌, ◌-◌, ◌*◌, ◌/◌, ◌%◌, Bool, not, ◌&&◌, ◌||◌, leb, ltb, ◌==◌, if◌then◌else◌,
  update, u8, sub32, Run, done, fault, hang, ◌>>=◌,
}

abbrev pub Bytes : Type 0
Bytes = ℕ → ℕ

-- while (*s) ++s; `n` is s - p.
pub count_from : (fuel n s : ℕ) → Bytes → Run ℕ
count_from zero n s mem = hang
count_from (suc fuel) n s mem =
    let rest = count_from fuel (n + 1) (s + 1) mem in if mem s == 0 then done n else rest

pub strlen : (fuel s : ℕ) → Bytes → Run ℕ
strlen fuel s mem = count_from fuel 0 s mem

-- for (; front < back; front++, back--)
pub swap_ends : (fuel front back : ℕ) → Bytes → Run Bytes
swap_ends zero front back mem = hang
swap_ends (suc fuel) front back mem =
    let mem' = update (update mem front (mem back)) back (mem front) in
    let rest = swap_ends fuel (front + 1) (back - 1) mem' in
    if ltb front back then rest else done mem

-- `str` is not null.
pub strrev : (fuel str : ℕ) → Bytes → Run Bytes
strrev fuel str mem = strlen fuel str mem >>= (λ n. swap_ends fuel str (str + n - 1) mem)

-- The character of the last digit of `v`.
pub digit : (radix v : ℕ) → ℕ
digit radix v = if leb 10 (v % radix) then u8 (65 + (v % radix - 10)) else 48 + v % radix

-- while (v), with `num` characters written.
pub put_digits : (fuel radix v str num : ℕ) → Bytes → Run (ℕ × Bytes)
put_digits zero radix v str num mem = hang
put_digits (suc fuel) radix v str num mem =
    let mem' = update mem (str + num) (digit radix v) in
    let rest = put_digits fuel radix (v / radix) str (num + 1) mem' in
    if v == 0 then done (num, mem) else rest

-- The number of characters, and the memory; a radix of 0 divides by zero.
pub uitoa : (fuel v str radix : ℕ) → Bytes → Run (ℕ × Bytes)
uitoa fuel v str radix mem =
    if (v == 0) && not (radix == 16) && not (radix == 2)
    then done (1, update (update mem str 48) (str + 1) 0)
    else if not (v == 0) && (radix == 0)
    then fault
    else put_digits fuel radix v str 0 mem
      >>= (λ (num, mem). strrev fuel str (update mem (str + num) 0) >>= (λ mem. done (num, mem)))

-- `v` is the 32 bits of an `int32_t`, negative from 2^31 on.
pub itoa : (fuel v str radix : ℕ) → Bytes → Run (ℕ × Bytes)
itoa fuel v str radix mem =
    if (v == 0) && not (radix == 16) && not (radix == 2)
    then done (1, update (update mem str 48) (str + 1) 0)
    else if leb 2147483648 v
    then uitoa fuel (sub32 0 v) (str + 1) radix (update mem str 45)
      >>= (λ (num, mem). done (1 + num, mem))
    else uitoa fuel v str radix mem

-- do ... while (*s++), with `ret` the last place found.
pub find_last : (fuel ret s c : ℕ) → Bytes → Run ℕ
find_last zero ret s c mem = hang
find_last (suc fuel) ret s c mem =
    let ret' = if mem s == u8 c then s else ret in
    let rest = find_last fuel ret' (s + 1) c mem in if mem s == 0 then done ret' else rest

pub strrchr : (fuel s c : ℕ) → Bytes → Run ℕ
strrchr fuel s c mem = find_last fuel 0 s c mem

pub strcmp : (fuel s1 s2 : ℕ) → Bytes → Run ℕ
strcmp zero s1 s2 mem = hang
strcmp (suc fuel) s1 s2 mem =
    let rest = strcmp fuel (s1 + 1) (s2 + 1) mem in
    if not (mem s1 == 0) && (mem s1 == mem s2) then rest else done (sub32 (mem s1) (mem s2))

pub memcmp : (s1 s2 n : ℕ) → Bytes → ℕ
memcmp s1 s2 zero mem = 0
memcmp s1 s2 (suc n) mem =
    let rest = memcmp (s1 + 1) (s2 + 1) n mem in
    if not (mem s1 == mem s2) then sub32 (mem s1) (mem s2) else rest

pub memcpy : (dest src n : ℕ) → Bytes → Bytes
memcpy dest src zero mem = mem
memcpy dest src (suc n) mem = memcpy (dest + 1) (src + 1) n (update mem dest (mem src))

-- The array `tmp` has its place on the stack, at `tmp`.
pub memmove : (tmp dest src n : ℕ) → Bytes → Bytes
memmove tmp dest src n mem = memcpy dest tmp n (memcpy tmp src n mem)

pub memset : (s c n : ℕ) → Bytes → Bytes
memset s c zero mem = mem
memset s c (suc n) mem = memset (s + 1) c n (update mem s (u8 c))
