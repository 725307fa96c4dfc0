-- ===== src/Memory/Heap/Walk.antt =====
-- Walking a well-formed heap: `get_next_block`, `get_next_free_block` and the search of
-- `heap_allocate` (heap.c, lines 31-50 and 211-263) against the list of blocks.
use tomat_os_old.Common.{
  ℕ, zero, suc, ◌+◌, ◌^◌, ◌≤◌, ◌<◌, ◌≡◌, inl, inr, refl, Bool, true, false, Option, none, some,
  List, [], ◌∷◌, leb, if◌then◌else◌, arith, add32, length, Bool-cases, done, leb_of_le, leb_of_lt,
}
use tomat_os_old.Memory.Heap.{
  Heap, header_size, is_valid, get_next_block, get_next_free_block, find_block,
}
use tomat_os_old.Memory.Heap.Chain.{Cell, header, end_of, Chain, le-end_of}

abbrev pub is_cons : List Cell → Bool
is_cons [] = false
is_cons (c ∷ cs) = true

abbrev pub any_free : List Cell → Bool
any_free [] = false
any_free (c ∷ cs) = if c.allocated then any_free cs else true

-- The address of the first free block, or the end.
abbrev pub first_free_of : ℕ → List Cell → ℕ
first_free_of a [] = a
first_free_of a (c ∷ cs) = if c.allocated then first_free_of (a + header_size + c.size) cs else a

-- First fit: the first free block with room for `size` bytes.
abbrev pub first_fit : (size a : ℕ) → List Cell → Option ℕ
first_fit size a [] = none
first_fit size a (c ∷ cs) =
    let rest = first_fit size (a + header_size + c.size) cs in
    if c.allocated then rest else if leb size c.size then some a else rest

-- The blocks from address `a` to the end of the heap are `cs`.
pub record At (h : Heap) (p a : ℕ) (cs : List Cell) : Type 0 where
  pub chain : Chain h.block p a cs
  pub extent : end_of a cs ≡ h.start + h.size
  pub small : h.start + h.size < 2 ^ 32

pub At-tail :
    {h : Heap} {p a : ℕ} {c : Cell} {cs : List Cell}
    → At h p a (c ∷ cs)
    → At h a (a + header_size + c.size) cs
At-tail w = record { chain = w.chain.1; extent = w.extent; small = w.small }

pub At-header :
    {h : Heap} {p a : ℕ} {c : Cell} {cs : List Cell} → At h p a (c ∷ cs) → h.block a ≡ header p c
At-header w = w.chain.0

-- A header inside the heap is valid, and the end of the heap is not.
pub is_valid-At : {h : Heap} {p a : ℕ} (cs : List Cell) → At h p a cs → is_valid h a ≡ is_cons cs
unfolding is_valid
is_valid-At {h} {a} [] w =
    let same : add32 h.start h.size ≡ a = omega (arith, w.extent, w.small) in
    rw (leb_of_le (add32 h.start h.size) a (omega (arith, same)))
is_valid-At {h} {p} {a} (c ∷ cs) w =
    let below : a < add32 h.start h.size =
      omega (arith, w.extent, w.small, le-end_of (a + header_size + c.size) cs) in
    rw (leb_of_lt (add32 h.start h.size) a below, At-header w)

pub next_address :
    {h : Heap} {p a : ℕ} (c : Cell) (cs : List Cell)
    → At h p a (c ∷ cs)
    → add32 (add32 a header_size) (h.block a).size ≡ a + header_size + c.size
next_address {h} {a} c cs w =
    rw (At-header w) (omega (arith, w.extent, w.small, le-end_of (a + header_size + c.size) cs))

pub get_next_block_lem :
    {h : Heap} {p a : ℕ} (c : Cell) (cs : List Cell)
    → At h p a (c ∷ cs)
    → get_next_block h a ≡ (a + header_size + c.size, is_cons cs)
unfolding get_next_block
get_next_block_lem {h} c cs w = rw (next_address c cs w, is_valid-At cs (At-tail w))

-- `get_next_free_block` finds the next free block, and says whether there is one.
pub get_next_free_block_lem :
    {h : Heap} {p a : ℕ} (k : ℕ) (c : Cell) (cs : List Cell)
    → At h p a (c ∷ cs)
    → length cs < k
    → get_next_free_block k h a ≡ done (first_free_of (a + header_size + c.size) cs, any_free cs)
unfolding get_next_free_block
get_next_free_block_lem zero c cs w fuel = absurd (omega arith)
get_next_free_block_lem (suc k) c [] w fuel = rw (get_next_block_lem c [] w)
get_next_free_block_lem {p} {a} (suc k) c (d ∷ cs) w fuel =
    let rest =
      get_next_free_block_lem {p = a} {a = a + header_size + c.size} k d cs (At-tail w)
        (omega arith) in
    ground (arith, get_next_block_lem c (d ∷ cs) w, At-header (At-tail w), rest)

-- What is left of the heap from its first free block on.
pub record FromFree (h : Heap) (size a : ℕ) (cs : List Cell) : Type 0 where
  pub before : ℕ
  pub head : Cell
  pub rest : List Cell
  pub at : At h before (first_free_of a cs) (head ∷ rest)
  pub free : head.allocated ≡ false
  pub shorter : length (head ∷ rest) ≤ length cs
  pub same : first_fit size a cs ≡ first_fit size (first_free_of a cs) (head ∷ rest)

pub from_free :
    (h : Heap) (size p a : ℕ) (cs : List Cell)
    → At h p a cs
    → any_free cs ≡ true
    → FromFree h size a cs
from_free h size p a [] w some_free = absurd (ground arith)
from_free h size p a (c ∷ cs) w some_free = elim (Bool-cases c.allocated) [
  | inr free ↦ record {
    before = p;
    head = c;
    rest = cs;
    at = simp free w;
    free = free;
    shorter = omega arith;
    same = simp free;
  }
  | inl taken ↦
      let onwards : any_free cs ≡ true = ground arith in
      let f = from_free h size a (a + header_size + c.size) cs (At-tail w) onwards in
      record {
        before = f.before;
        head = f.head;
        rest = f.rest;
        at = rw taken f.at;
        free = f.free;
        shorter = omega (arith, f.shorter);
        same = rw taken f.same;
      }
]

first_fit-none : (size a : ℕ) (cs : List Cell) → any_free cs ≡ false → first_fit size a cs ≡ none
first_fit-none size a [] h = refl
first_fit-none size a (c ∷ cs) h = ground (arith, first_fit-none size (a + header_size + c.size) cs)

-- The do-while loop of `heap_allocate` is first fit over the blocks from `a` on.
pub find_block_lem :
    (k : ℕ) (h : Heap) (size p a : ℕ) (c : Cell) (cs : List Cell)
    → At h p a (c ∷ cs)
    → length cs < k
    → find_block k h size a ≡ done (first_fit size a (c ∷ cs))
unfolding find_block
find_block_lem zero h size p a c cs w fuel = absurd (omega arith)
find_block_lem (suc k) h size p a c cs w fuel = elim (Bool-cases (any_free cs)) [
  | inl some_free ↦
      let f = from_free h size a (a + header_size + c.size) cs (At-tail w) some_free in
      let next =
        find_block_lem k h size f.before (first_free_of (a + header_size + c.size) cs) f.head f.rest
          f.at (omega (arith, f.shorter)) in
      ground
        (arith, get_next_free_block_lem (suc k) c cs w fuel, At-header w, some_free, f.same, next)
  | inr no_free ↦ ground (
    arith,
    get_next_free_block_lem (suc k) c cs w fuel,
    At-header w,
    first_fit-none size (a + header_size + c.size) cs no_free,
  )
]
