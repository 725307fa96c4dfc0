-- ===== src/Memory/Heap/Free.antt =====
-- `heap_free` (heap.c, lines 292-315) on a well-formed heap: the block is free again, and merged with
-- free neighbours on both sides.
use tomat_os_old.Common.{
  ℕ, suc, ◌+◌, ◌^◌, ◌≤◌, ◌<◌, ◌≡◌, ◌⊎◌, inl, inr, refl, sym, ap, ◌∙◌, true, false, List, [], ◌∷◌,
  ◌++◌, ltb, if◌then◌else◌, arith, Bool-cases, done, ◌>>=◌, sub32, ==_of_ne, update_ne,
}
use mathlib.Core.Path.{subst}
use tomat_os_old.Memory.Heap.{
  Heap, header_size, store, get_block, merge_next, merge_empty_blocks, heap_free,
}
use tomat_os_old.Memory.Heap.Chain.{
  Cell, cell, header, end_of, last_of, Chain, le-end_of, end_of-append, last_of-append,
  Chain-append, Chain-front, Chain-back, Chain-update, used_of, used_of-append, used_of-le,
}
use tomat_os_old.Memory.Heap.Walk.{At, any_free, first_free_of, is_valid-At}
use tomat_os_old.Memory.Heap.Inv.{
  tidy, last_allocated, IsHeap, tidy-append, first_free_of-append, first_free_of-append_taken,
  any_free-append, Chain-below,
}
use tomat_os_old.Memory.Heap.Merge.{absorb, Merged, merge_next-Merged}

-- The blocks before the freed one, joined to those from it on.
abbrev pub glue : List Cell → List Cell → List Cell
glue [] rest = rest
glue (b ∷ []) rest = if b.allocated then b ∷ rest else absorb b rest
glue (b ∷ b' ∷ pre) rest = b ∷ glue (b' ∷ pre) rest

-- The blocks after `c` is freed between `pre` and `post`.
abbrev pub coalesce : List Cell → Cell → List Cell → List Cell
coalesce pre c post = glue pre (absorb (cell false c.size) post)

pub glue-append :
    (pre : List Cell) (b : Cell) (rest : List Cell)
    → glue (pre ++ b ∷ []) rest ≡ pre ++ (if b.allocated then b ∷ rest else absorb b rest)
glue-append [] b rest = refl
glue-append (x ∷ []) b rest = refl
glue-append (x ∷ y ∷ pre) b rest = ap (λ cs. x ∷ cs) (glue-append (y ∷ pre) b rest)

pub end_of-absorb :
    (a : ℕ) (c : Cell) (post : List Cell) → end_of a (absorb c post) ≡ end_of a (c ∷ post)
end_of-absorb a c [] = refl
end_of-absorb a c (d ∷ ds) = elim (Bool-cases d.allocated) [
  | inl taken ↦ rw taken
  | inr free ↦ rw free (ap (λ x. end_of x ds) (omega arith))
]

pub tidy-absorb :
    (c : Cell) (post : List Cell)
    → c.allocated ≡ false
    → tidy true post ≡ true
    → tidy true (absorb c post) ≡ true
tidy-absorb c [] free h = ground arith
tidy-absorb c (d ∷ ds) free h = ground arith

pub any_free-absorb :
    (c : Cell) (post : List Cell) → c.allocated ≡ false → any_free (absorb c post) ≡ true
any_free-absorb c [] free = ground arith
any_free-absorb c (d ∷ ds) free = ground arith

pub first_free_of-absorb :
    (a : ℕ) (c : Cell) (post : List Cell)
    → c.allocated ≡ false
    → first_free_of a (absorb c post) ≡ a
first_free_of-absorb a c [] free = ground arith
first_free_of-absorb a c (d ∷ ds) free = ground arith

le-first_free_of : (a : ℕ) (cs : List Cell) → a ≤ first_free_of a cs
le-first_free_of a [] = omega arith
le-first_free_of a (c ∷ cs) = ground (arith, le-first_free_of (a + header_size + c.size) cs)

pub snoc_cases :
    (xs : List Cell) → (xs ≡ []) ⊎ ((ys : List Cell) × (y : Cell) × (xs ≡ ys ++ y ∷ []))
snoc_cases [] = inl refl
snoc_cases (x ∷ xs) = elim (snoc_cases xs) [
  | inl e ↦ inr ([], x, ap (λ cs. x ∷ cs) e)
  | inr (ys, y, e) ↦ inr (x ∷ ys, y, ap (λ cs. x ∷ cs) e)
]

-- The last statement of `heap_free`.
abbrev pub lowered : Heap → ℕ → Heap
lowered g a = record g { first_free = if ltb a g.first_free then a else g.first_free }

-- A state `g` in which the blocks `new` stand where `old` stood in `h`, the first of them free.
pub record Replaced (h : Heap) (pre old new : List Cell) (g : Heap) : Type 0 where
  pub start : g.start ≡ h.start
  pub size : g.size ≡ h.size
  pub mapped : g.mapped ≡ h.mapped
  pub first : g.first_free ≡ h.first_free
  pub below : (x : ℕ) → x < end_of h.start pre → g.block x ≡ h.block x
  pub chain : Chain g.block (last_of 0 h.start pre) (end_of h.start pre) new
  pub extent : end_of (end_of h.start pre) new ≡ end_of (end_of h.start pre) old
  pub used : g.used_size + used_of old ≡ h.used_size + used_of new
  pub top : g.top_block ≡ last_of (last_of 0 h.start pre) (end_of h.start pre) new
  pub head_free : first_free_of (end_of h.start pre) new ≡ end_of h.start pre
  pub free : any_free new ≡ true
  pub neat : tidy (last_allocated true pre) new ≡ true

module _ {h : Heap} {pre old new : List Cell} {g : Heap} (v : IsHeap h (pre ++ old))
    (r : Replaced h pre old new g) where
  replaced_first : (lowered g (end_of h.start pre)).first_free ≡ first_free_of h.start (pre ++ new)
  replaced_first = elim (Bool-cases (any_free pre)) [
    | inl some_free ↦ ground (
      arith,
      r.first,
      v.first,
      some_free,
      first_free_of-append h.start pre old,
      first_free_of-append h.start pre new,
    )
    | inr none_free ↦ ground (
      arith,
      r.first,
      v.first,
      none_free,
      r.head_free,
      le-first_free_of (end_of h.start pre) old,
      first_free_of-append_taken h.start pre old,
      first_free_of-append_taken h.start pre new,
    )
  ]

  replaced_neat : tidy true (pre ++ new) ≡ true
  replaced_neat = ground (arith, v.neat, r.neat, tidy-append true pre old, tidy-append true pre new)

  replaced_used : g.used_size ≡ used_of (pre ++ new)
  replaced_used = omega (arith, v.used, r.used, used_of-append pre old, used_of-append pre new)

  replaced_Chain : Chain g.block 0 h.start (pre ++ new)
  replaced_Chain =
      Chain-append g.block 0 h.start pre new
        (Chain-below h.block g.block 0 h.start pre r.below
          (Chain-front h.block 0 h.start pre old v.at.chain))
        r.chain

  pub Replaced-IsHeap : IsHeap (lowered g (end_of h.start pre)) (pre ++ new)
  Replaced-IsHeap =
      let start = sym r.start in
      let at_start : IsHeap' g.start = subst IsHeap' start at_h in
      record {
        at = record {
          chain = at_start.0;
          extent = at_start.1;
          small = ground (arith, r.start, r.size, v.at.small);
        };
        positive = subst (λ s. 0 < s) start v.positive;
        used = replaced_used;
        top = at_start.2;
        first = at_start.3;
        free = ground (arith, any_free-append pre new, r.free);
        neat = replaced_neat;
      }
    where
      IsHeap' : ℕ → Type 0
      IsHeap' s =
          Chain g.block 0 s (pre ++ new)
          × (end_of s (pre ++ new) ≡ s + g.size)
          × (g.top_block ≡ last_of 0 s (pre ++ new))
          × ((lowered g (end_of h.start pre)).first_free ≡ first_free_of s (pre ++ new))

      at_h : IsHeap' h.start
      at_h = (
        replaced_Chain,
        ground (
          arith,
          r.extent,
          r.size,
          v.at.extent,
          end_of-append h.start pre new,
          end_of-append h.start pre old,
        ),
        r.top ∙ sym (last_of-append 0 h.start pre new),
        replaced_first,
      )

module _ {h : Heap} (pre : List Cell) (c : Cell) (post : List Cell) (v : IsHeap h (pre ++ c ∷ post))
    (taken : c.allocated ≡ true) where
  abbrev pub spot : ℕ
  spot = end_of h.start pre

  abbrev pub prior : ℕ
  prior = last_of 0 h.start pre

  abbrev pub freed : Heap
  freed = record (store h spot (record (h.block spot) { allocated = false })) {
    used_size = sub32 h.used_size (h.block spot).size;
  }

  here_Chain : Chain h.block prior spot (c ∷ post)
  here_Chain = Chain-back h.block 0 h.start pre (c ∷ post) v.at.chain

  here_extent : end_of spot (c ∷ post) ≡ h.start + h.size
  here_extent = sym (end_of-append h.start pre (c ∷ post)) ∙ v.at.extent

  here_At : At h prior spot (c ∷ post)
  here_At = record { chain = here_Chain; extent = here_extent; small = v.at.small }

  freed_At : At freed prior spot (cell false c.size ∷ post)
  freed_At = record {
    chain = (
      ground (arith, here_Chain.0),
      Chain-update h.block spot (spot + header_size + c.size) spot _ post (inl (omega arith))
          here_Chain.1,
    );
    extent = here_extent;
    small = v.at.small;
  }

  pub used_bound : used_of (pre ++ c ∷ post) < 2 ^ 32
  used_bound = omega (arith, used_of-le h.start (pre ++ c ∷ post), v.at.extent, v.at.small)

  pub freed_used : freed.used_size + c.size ≡ h.used_size
  freed_used =
      rw here_Chain.0 (ground (arith, v.used, used_bound, used_of-append pre (c ∷ post), taken))

  -- The first step of `merge_empty_blocks`.
  abbrev pub once : Heap
  once = merge_next freed spot

  pub once-Merged : Merged freed prior spot (cell false c.size) post once
  once-Merged =
      merge_next-Merged post freed_At refl
        (ground (arith, freed_used, v.used, used_of-append pre (c ∷ post), taken))
        (omega (arith, freed_used, v.used, used_bound))

  get_block_lem : get_block h (spot + header_size) ≡ (spot, true)
  unfolding get_block
  get_block_lem =
      let back : sub32 (spot + header_size) header_size ≡ spot =
        omega (arith, here_extent, v.at.small, le-end_of (spot + header_size + c.size) post) in
      rw (back, is_valid-At (c ∷ post) here_At)

  -- `heap_free` starts the merge at the freed block.
  pub heap_free_starts :
      (k : ℕ)
      → heap_free k h (spot + header_size)
        ≡ (merge_empty_blocks k freed spot >>= λ (merged, g). done (lowered g merged))
  unfolding heap_free
  heap_free_starts k = rw (==_of_ne (spot + header_size) 0 (omega arith), get_block_lem)

  pub once-Replaced :
      last_allocated true pre ≡ true
      → Replaced h pre (c ∷ post) (absorb (cell false c.size) post) once
  once-Replaced neat =
      let m = once-Merged in
      record {
        start = m.start;
        size = m.size;
        mapped = m.mapped;
        first = m.first;
        below = λ x lt. m.below x lt ∙ update_ne h.block spot x _ (omega arith);
        chain = m.chain;
        extent = end_of-absorb spot (cell false c.size) post;
        used = ground (arith, m.used, freed_used, taken);
        top = m.top (ground (arith, v.top, last_of-append 0 h.start pre (c ∷ post)));
        head_free = first_free_of-absorb spot (cell false c.size) post refl;
        free = any_free-absorb (cell false c.size) post refl;
        neat = rw neat (
            tidy-absorb (cell false c.size) post refl
              (ground (arith, v.neat, taken, tidy-append true pre (c ∷ post))));
      }

-- A free block whose predecessor is allocated, or absent, is where the merge ends.
pub merge_ends :
    (k : ℕ) (g : Heap) (a p : ℕ) {c : Cell}
    → (merge_next g a).block a ≡ header p c
    → (p ≡ 0) ⊎ (((merge_next g a).block p).allocated ≡ true)
    → merge_empty_blocks (suc k) g a ≡ done (a, merge_next g a)
unfolding merge_empty_blocks
merge_ends k g a p e stop = rw e (ground arith)

-- With a free predecessor it goes on there.
pub merge_goes_on :
    (k : ℕ) (g : Heap) (a p q : ℕ) (b : Cell) {c : Cell}
    → (merge_next g a).block a ≡ header p c
    → 0 < p
    → (merge_next g a).block p ≡ header q b
    → b.allocated ≡ false
    → merge_empty_blocks (suc k) g a ≡ merge_empty_blocks k (merge_next g a) p
unfolding merge_empty_blocks
merge_goes_on k g a p q b e pos at free = rw e (ground (arith, at, free))
