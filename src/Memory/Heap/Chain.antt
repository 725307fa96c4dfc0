-- ===== src/Memory/Heap/Chain.antt =====
-- The abstract heap: its blocks in address order, and how the headers in memory chain them.
use tomat_os_old.Common.{
  ℕ, ◌+◌, ◌≤◌, ◌<◌, ◌≡◌, ◌≢◌, ◌⊎◌, refl, Bool, List, [], ◌∷◌, ◌++◌, if◌then◌else◌, update, arith,
}
use tomat_os_old.Memory.Heap.{Block, heap_magic, header_size}

-- One block, without its place.
pub record Cell : Type 0 where
  pub allocated : Bool
  pub size : ℕ

abbrev pub cell : Bool → ℕ → Cell
cell a n = record { allocated = a; size = n }

-- The header that stands for a block whose predecessor is at `before`.
abbrev pub header : ℕ → Cell → Block
header p c = record { allocated = c.allocated; before = p; size = c.size; magic = heap_magic }

-- Where the blocks `cs` end if they begin at `a`, and where the last of them begins.
abbrev pub end_of : ℕ → List Cell → ℕ
end_of a [] = a
end_of a (c ∷ cs) = end_of (a + header_size + c.size) cs

abbrev pub last_of : (before a : ℕ) → List Cell → ℕ
last_of p a [] = p
last_of p a (c ∷ cs) = last_of a (a + header_size + c.size) cs

-- From address `a` on the memory holds the headers of `cs`, each with the address of the one before.
abbrev pub Chain : (ℕ → Block) → (before a : ℕ) → List Cell → Type 0
Chain m p a [] = Unit
Chain m p a (c ∷ cs) = (m a ≡ header p c) × Chain m a (a + header_size + c.size) cs

pub le-end_of : (a : ℕ) (cs : List Cell) → a ≤ end_of a cs
le-end_of a [] = omega arith
le-end_of a (c ∷ cs) = omega (arith, le-end_of (a + header_size + c.size) cs)

pub end_of-append : (a : ℕ) (xs ys : List Cell) → end_of a (xs ++ ys) ≡ end_of (end_of a xs) ys
end_of-append a [] ys = refl
end_of-append a (x ∷ xs) ys = end_of-append (a + header_size + x.size) xs ys

pub last_of-append :
    (p a : ℕ) (xs ys : List Cell)
    → last_of p a (xs ++ ys) ≡ last_of (last_of p a xs) (end_of a xs) ys
last_of-append p a [] ys = refl
last_of-append p a (x ∷ xs) ys = last_of-append a (a + header_size + x.size) xs ys

pub Chain-append :
    (m : ℕ → Block) (p a : ℕ) (xs ys : List Cell)
    → Chain m p a xs
    → Chain m (last_of p a xs) (end_of a xs) ys
    → Chain m p a (xs ++ ys)
Chain-append m p a [] ys h k = k
Chain-append m p a (x ∷ xs) ys h k = (h.0, Chain-append m a (a + header_size + x.size) xs ys h.1 k)

pub Chain-front :
    (m : ℕ → Block) (p a : ℕ) (xs ys : List Cell) → Chain m p a (xs ++ ys) → Chain m p a xs
Chain-front m p a [] ys h = tt
Chain-front m p a (x ∷ xs) ys h = (h.0, Chain-front m a (a + header_size + x.size) xs ys h.1)

pub Chain-back :
    (m : ℕ → Block) (p a : ℕ) (xs ys : List Cell)
    → Chain m p a (xs ++ ys)
    → Chain m (last_of p a xs) (end_of a xs) ys
Chain-back m p a [] ys h = h
Chain-back m p a (x ∷ xs) ys h = Chain-back m a (a + header_size + x.size) xs ys h.1

-- A write outside the addresses of a chain leaves it alone.
pub Chain-update :
    (m : ℕ → Block) (p a x : ℕ) (b : Block) (cs : List Cell)
    → (x < a) ⊎ (end_of a cs ≤ x)
    → Chain m p a cs
    → Chain (update m x b) p a cs
Chain-update m p a x b [] out h = tt
Chain-update m p a x b (c ∷ cs) out h =
    let beyond = le-end_of (a + header_size + c.size) cs in
    let ne : x ≢ a = omega (arith, beyond) in
    (
      ground (arith, h.0, ne),
      Chain-update m a (a + header_size + c.size) x b cs (omega (arith, beyond)) h.1,
    )

-- The bytes that count as used: every header, and the payload of every allocated block.
abbrev pub used_of : List Cell → ℕ
used_of [] = 0
used_of (c ∷ cs) = (header_size + (if c.allocated then c.size else 0)) + used_of cs

pub used_of-append : (xs ys : List Cell) → used_of (xs ++ ys) ≡ used_of xs + used_of ys
used_of-append [] ys = omega arith
used_of-append (x ∷ xs) ys = omega (arith, used_of-append xs ys)

pub used_of-le : (a : ℕ) (cs : List Cell) → a + used_of cs ≤ end_of a cs
used_of-le a [] = omega arith
used_of-le a (c ∷ cs) = ground (arith, used_of-le (a + header_size + c.size) cs)
