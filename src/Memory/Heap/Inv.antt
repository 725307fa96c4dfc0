-- ===== src/Memory/Heap/Inv.antt =====
-- The invariant of a heap with its own page directory, and the heap that `heap_create` leaves.
use tomat_os_old.Common.{
  ℕ, ◌+◌, ◌-◌, ◌^◌, ◌≤◌, ◌<◌, ◌≡◌, ◌⊎◌, refl, ◌∙◌, Bool, true, false, ◌&&◌, ◌||◌, some, List, [],
  ◌∷◌, ◌++◌, arith, All,
}
use tomat_os_old.Memory.Heap.{Block, Heap, header_size, page_size, heap_create}
use tomat_os_old.Memory.Heap.Chain.{Cell, cell, end_of, last_of, Chain, le-end_of, used_of}
use tomat_os_old.Memory.Heap.Walk.{At, any_free, first_free_of, first_fit}

-- No two free blocks are neighbours; `b` says whether the block before counts as allocated.
abbrev pub tidy : Bool → List Cell → Bool
tidy b [] = true
tidy b (c ∷ cs) = (b || c.allocated) && tidy c.allocated cs

abbrev pub last_allocated : Bool → List Cell → Bool
last_allocated b [] = b
last_allocated b (c ∷ cs) = last_allocated c.allocated cs

-- The heap `h` consists of the blocks `cs`.
pub record IsHeap (h : Heap) (cs : List Cell) : Type 0 where
  pub at : At h 0 h.start cs
  pub positive : 0 < h.start
  pub used : h.used_size ≡ used_of cs
  pub top : h.top_block ≡ last_of 0 h.start cs
  pub first : h.first_free ≡ first_free_of h.start cs
  pub free : any_free cs ≡ true
  pub neat : tidy true cs ≡ true

-- A new heap with a page directory, at an address with room for a page below 2^32, is one free block of one page less its header, mapped by one call.
pub heap_create-IsHeap :
    (h : Heap) (start : ℕ)
    → h.has_pd ≡ true
    → 0 < start
    → start + page_size < 2 ^ 32
    → IsHeap (heap_create h start) (cell false (page_size - header_size) ∷ [])
      × ((heap_create h start).mapped ≡ start ∷ h.mapped)
unfolding heap_create
heap_create-IsHeap h start pd pos small = (
  record {
    at = record { chain = (ground arith, tt); extent = omega arith; small = small };
    positive = pos;
    used = refl;
    top = refl;
    first = refl;
    free = refl;
    neat = refl;
  },
  ground arith,
)

pub tidy-append :
    (b : Bool) (xs ys : List Cell)
    → tidy b (xs ++ ys) ≡ (tidy b xs && tidy (last_allocated b xs) ys)
tidy-append b [] ys = refl
tidy-append b (x ∷ xs) ys = ground (arith, tidy-append x.allocated xs ys)

pub le-last_of : (p a : ℕ) (c : Cell) (cs : List Cell) → a ≤ last_of p a (c ∷ cs)
le-last_of p a c [] = omega arith
le-last_of p a c (d ∷ cs) = omega (arith, le-last_of a (a + header_size + c.size) d cs)

pub first_free_of-append :
    (a : ℕ) (xs ys : List Cell)
    → any_free xs ≡ true
    → (first_free_of a (xs ++ ys) ≡ first_free_of a xs) × (first_free_of a xs < end_of a xs)
first_free_of-append a [] ys h = ground arith
first_free_of-append a (x ∷ xs) ys h = ground (
  arith,
  first_free_of-append (a + header_size + x.size) xs ys,
  le-end_of (a + header_size + x.size) xs,
)

pub first_free_of-append_taken :
    (a : ℕ) (xs ys : List Cell)
    → any_free xs ≡ false
    → first_free_of a (xs ++ ys) ≡ first_free_of (end_of a xs) ys
first_free_of-append_taken a [] ys h = refl
first_free_of-append_taken a (x ∷ xs) ys h =
    ground (arith, first_free_of-append_taken (a + header_size + x.size) xs ys)

pub any_free-append : (xs ys : List Cell) → any_free (xs ++ ys) ≡ (any_free xs || any_free ys)
any_free-append [] ys = refl
any_free-append (x ∷ xs) ys = ground (arith, any_free-append xs ys)

-- A block that first fit passes over.
abbrev pub Unfit : ℕ → Cell → Type 0
Unfit size c = (c.allocated ≡ true) ⊎ (c.size < size)

pub first_fit-append :
    (size a : ℕ) (pre : List Cell) (c : Cell) (post : List Cell)
    → All (Unfit size) pre
    → c.allocated ≡ false
    → size ≤ c.size
    → first_fit size a (pre ++ c ∷ post) ≡ some (end_of a pre)
first_fit-append size a [] c post unfit free fits = ground arith
first_fit-append size a (x ∷ pre) c post unfit free fits =
    ground (
      arith,
      first_fit-append size (a + header_size + x.size) pre c post unfit.1 free fits,
      unfit.0,
    )

-- A chain depends on the memory below its end only.
pub Chain-below :
    (m m' : ℕ → Block) (p a : ℕ) (cs : List Cell)
    → ((x : ℕ) → x < end_of a cs → m' x ≡ m x)
    → Chain m p a cs
    → Chain m' p a cs
Chain-below m m' p a [] same h = tt
Chain-below m m' p a (c ∷ cs) same h = (
  same a (omega (arith, le-end_of (a + header_size + c.size) cs)) ∙ h.0,
  Chain-below m m' a (a + header_size + c.size) cs same h.1,
)
