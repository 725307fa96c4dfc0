-- ===== src/Klibc/Strings/Copy.antt =====
-- What the loops of memcpy, memmove and memset leave in memory.
use tomat_os_old.Common.{
  ℕ, zero, suc, ◌+◌, ◌-◌, ◌≤◌, ◌≡◌, ◌⊎◌, inl, inr, ltb, leb, ◌==◌, ◌&&◌, if◌then◌else◌, update, u8,
  arith, true, false, ap, Bool-cases, lt_of_ltb, ==→eq,
}
use tomat_os_old.Klibc.Strings.{Bytes, memcpy, memmove, memset}

-- Two ranges of `n` bytes that do not meet.
abbrev pub Apart : (a b n : ℕ) → Type 0
Apart a b n = (a + n ≤ b) ⊎ (b + n ≤ a)

-- A copy downwards, or between ranges that do not meet.
pub memcpy_lem :
    (dest src n : ℕ) (mem : Bytes)
    → (dest ≤ src) ⊎ (src + n ≤ dest)
    → (j : ℕ)
    → memcpy dest src n mem j
      ≡ (if leb dest j && ltb j (dest + n) then mem (src + (j - dest)) else mem j)
unfolding memcpy
memcpy_lem dest src zero mem room j = ground arith
memcpy_lem dest src (suc n) mem room j =
    let ih =
      memcpy_lem (dest + 1) (src + 1) n (update mem dest (mem src)) (omega (arith, room)) j in
    elim (Bool-cases (ltb dest j)) [
      | inl behind ↦
          let same : mem (src + 1 + (j - (dest + 1))) ≡ mem (src + (j - dest)) =
            ap mem (omega (arith, lt_of_ltb dest j behind)) in
          ground (arith, ih, behind, same, room)
      | inr before ↦
          let same : (dest == j) ≡ true → mem (src + (j - dest)) ≡ mem src =
            λ e. ap mem (omega (arith, ==→eq dest j e)) in
          elim (Bool-cases (dest == j)) [
            | inl here ↦ ground (arith, ih, before, here, same here)
            | inr other ↦ ground (arith, ih, before, other)
          ]
    ]

pub memset_lem :
    (s c n : ℕ) (mem : Bytes) (j : ℕ)
    → memset s c n mem j ≡ (if leb s j && ltb j (s + n) then u8 c else mem j)
unfolding memset
memset_lem s c zero mem j = ground arith
memset_lem s c (suc n) mem j = ground (arith, memset_lem (s + 1) c n (update mem s (u8 c)) j)

Apart-copy : (dest src n : ℕ) → Apart dest src n → (dest ≤ src) ⊎ (src + n ≤ dest)
Apart-copy dest src n (inl below) = inl (omega (arith, below))
Apart-copy dest src n (inr above) = inr above

swapped : (a b n : ℕ) → Apart a b n → Apart b a n
swapped a b n (inl below) = inr below
swapped a b n (inr above) = inl above

-- `memmove` with its array `tmp` apart from both ranges, which may overlap: the range at `dest` gets
-- what the range at `src` held, and outside of it and of the array nothing changes.
pub memmove_lem :
    (tmp dest src n : ℕ) (mem : Bytes)
    → Apart tmp src n
    → Apart tmp dest n
    → (j : ℕ) → (leb tmp j && ltb j (tmp + n)) ≡ false
    → memmove tmp dest src n mem j
      ≡ (if leb dest j && ltb j (dest + n) then mem (src + (j - dest)) else mem j)
unfolding memmove
memmove_lem tmp dest src n mem apart_src apart_dest j outside =
    let first = memcpy_lem tmp src n mem (Apart-copy tmp src n apart_src) in
    let second =
      memcpy_lem dest tmp n (memcpy tmp src n mem)
        (Apart-copy dest tmp n (swapped tmp dest n apart_dest)) j in
    elim (Bool-cases (leb dest j && ltb j (dest + n))) [
      | inl inside ↦
          let from : mem (src + (tmp + (j - dest) - tmp)) ≡ mem (src + (j - dest)) =
            ap mem (omega arith) in
          ground (arith, second, inside, first (tmp + (j - dest)), from)
      | inr out ↦ ground (arith, second, out, first j, outside)
    ]
