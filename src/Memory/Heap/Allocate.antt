-- ===== src/Memory/Heap/Allocate.antt =====
-- `heap_allocate` (heap.c, lines 211-290) on a well-formed heap: first fit, and the block split in two.
use tomat_os_old.Common.{
  ℕ, suc, ◌+◌, ◌<◌, ◌≡◌, inl, inr, sym, ap, ◌∙◌, true, false, Option, List, [], ◌∷◌, ◌++◌, ltb,
  ◌==◌, if◌then◌else◌, arith, Bool-cases, All, length, Run, done, add32, ltb_of_lt,
}
use mathlib.Core.Path.{subst}
use tomat_os_old.Memory.Heap.{
  Heap, header_size, find_block, split_block, take_block, place, heap_allocate,
}
use tomat_os_old.Memory.Heap.Chain.{
  Cell, cell, end_of, last_of, Chain, le-end_of, end_of-append, last_of-append, Chain-append,
  Chain-front, Chain-back, Chain-update, used_of, used_of-append, used_of-le,
}
use tomat_os_old.Memory.Heap.Walk.{
  At, any_free, first_free_of, first_fit, from_free, find_block_lem,
}
use tomat_os_old.Memory.Heap.Split.{
  new_at, left_of, new_at_lem, left_of_lem, linked, linked-Chain, linked_below, linked_fields,
  end_eq,
}
use tomat_os_old.Memory.Heap.Inv.{
  tidy, IsHeap, tidy-append, le-last_of, first_free_of-append, first_free_of-append_taken,
  any_free-append, Unfit, first_fit-append, Chain-below,
}

-- On a well-formed heap of fewer blocks than the fuel, the search from `first_free` finds what first fit over the whole heap finds.
pub find_block_first :
    {h : Heap} {cs : List Cell} (k size : ℕ)
    → IsHeap h cs
    → length cs < k
    → find_block k h size h.first_free ≡ done (first_fit size h.start cs)
find_block_first {h} {cs} k size v fuel =
    let f = from_free h size 0 h.start cs v.at v.free in
    ap (find_block k h size) v.first
    ∙ find_block_lem k h size f.before (first_free_of h.start cs) f.head f.rest f.at
        (omega (arith, f.shorter))
    ∙ ap {B = Run (Option ℕ)} done (sym f.same)

-- The block at hand, inside the heap.
pub At-middle :
    {h : Heap} (pre : List Cell) (c : Cell) (post : List Cell)
    → IsHeap h (pre ++ c ∷ post)
    → At h (last_of 0 h.start pre) (end_of h.start pre) (c ∷ post)
At-middle {h} pre c post v = record {
  chain = Chain-back h.block 0 h.start pre (c ∷ post) v.at.chain;
  extent = sym (end_of-append h.start pre (c ∷ post)) ∙ v.at.extent;
  small = v.at.small;
}

module _ {h : Heap} {p a : ℕ} {c : Cell} (post : List Cell) (w : At h p a (c ∷ post)) (size : ℕ)
    (fits : size + header_size < c.size) where
  abbrev split : Heap
  split = record (linked w size fits) {
    first_free =
        if (linked w size fits).first_free == a
        then new_at a size
        else (linked w size fits).first_free;
    top_block =
        if ltb (linked w size fits).top_block (new_at a size)
        then new_at a size
        else (linked w size fits).top_block;
  }

  split_block_lem : split_block h a size ≡ split
  unfolding split_block
  split_block_lem = rw (new_at_lem w size fits, left_of_lem w size fits)

  pub place_lem : (k : ℕ) → place k h a size ≡ done (add32 a header_size, take_block split a)
  unfolding place
  place_lem k =
      rw (left_of_lem w size fits, ltb_of_lt 0 (left_of c size) (omega arith), split_block_lem)

  split-Chain :
      Chain (take_block split a).block p a (cell true size ∷ cell false (left_of c size) ∷ post)
  unfolding take_block
  split-Chain =
      let chain = linked-Chain size fits post w in
      (
        ground (arith, chain.0),
        Chain-update _ a (a + header_size + size) a _ (cell false (left_of c size) ∷ post)
            (inl (omega arith)) chain.1,
      )

  split_below : (x : ℕ) → x < a → (take_block split a).block x ≡ h.block x
  unfolding take_block
  split_below x lt = ground (arith, linked_below size fits post w x lt)

  split_used : (take_block split a).used_size ≡ add32 (add32 h.used_size header_size) size
  unfolding take_block
  split_used =
      let chain = linked-Chain size fits post w in
      let fields = linked_fields size fits post w in ground (arith, chain.0, fields.2)

  split_top :
      h.top_block ≡ last_of p a (c ∷ post)
      → (take_block split a).top_block
        ≡ last_of p a (cell true size ∷ cell false (left_of c size) ∷ post)
  unfolding take_block
  split_top = top_of post w
    where
      top_of :
          (ds : List Cell) (u : At h p a (c ∷ ds))
          → h.top_block ≡ last_of p a (c ∷ ds)
          → (if ltb (linked w size fits).top_block (new_at a size)
              then new_at a size
              else (linked w size fits).top_block)
            ≡ last_of p a (cell true size ∷ cell false (left_of c size) ∷ ds)
      top_of [] u e = ground (arith, linked_fields size fits post w)
      top_of (d ∷ ds) u e =
          let same = end_eq a c size fits in
          let above = le-last_of a (a + header_size + c.size) d ds in
          rw same (ground (arith, linked_fields size fits post w, above))

-- The blocks after `size` bytes of the free block `c` are handed out.
abbrev pub after_split : List Cell → Cell → List Cell → ℕ → List Cell
after_split pre c post size = pre ++ cell true size ∷ cell false (left_of c size) ∷ post

module _ {h : Heap} (pre : List Cell) (c : Cell) (post : List Cell) (v : IsHeap h (pre ++ c ∷ post))
    (size : ℕ) (free : c.allocated ≡ false) (fits : size + header_size < c.size) where
  abbrev place_of : ℕ
  place_of = end_of h.start pre

  abbrev result : Heap
  result = take_block (split post (At-middle pre c post v) size fits) place_of

  result_extent : end_of h.start (after_split pre c post size) ≡ end_of h.start (pre ++ c ∷ post)
  result_extent =
      end_of-append h.start pre _
      ∙ ap (λ e. end_of e post) (end_eq place_of c size fits)
      ∙ sym (end_of-append h.start pre _)

  result_Chain : Chain result.block 0 h.start (after_split pre c post size)
  result_Chain =
      let w = At-middle pre c post v in
      Chain-append result.block 0 h.start pre _
        (Chain-below h.block result.block 0 h.start pre (split_below post w size fits)
          (Chain-front h.block 0 h.start pre _ v.at.chain))
        (split-Chain post w size fits)

  result_used : result.used_size ≡ used_of (after_split pre c post size)
  result_used =
      let w = At-middle pre c post v in
      let room = used_of-le h.start (after_split pre c post size) in
      let before = used_of-append pre (c ∷ post) in
      let after = used_of-append pre (cell true size ∷ cell false (left_of c size) ∷ post) in
      let now = split_used post w size fits in
      ground (arith, now, before, after, room, result_extent, v.used, v.at.extent, v.at.small, free)

  result_fields : (result.start ≡ h.start) × (result.size ≡ h.size)
  unfolding take_block
  result_fields = let f = linked_fields size fits post (At-middle pre c post v) in (f.1, f.0)

  result_top : result.top_block ≡ last_of 0 h.start (after_split pre c post size)
  result_top =
      split_top post (At-middle pre c post v) size fits
        (v.top ∙ last_of-append 0 h.start pre (c ∷ post))
      ∙ sym (last_of-append 0 h.start pre _)

  result_first : result.first_free ≡ first_free_of h.start (after_split pre c post size)
  unfolding take_block
  result_first =
      let f = linked_fields size fits post (At-middle pre c post v) in
      let parts = cell true size ∷ cell false (left_of c size) ∷ post in
      elim (Bool-cases (any_free pre)) [
        | inl some_free ↦ ground (
          arith,
          f.3,
          v.first,
          some_free,
          first_free_of-append h.start pre (c ∷ post),
          first_free_of-append h.start pre parts,
        )
        | inr none_free ↦ ground (
          arith,
          f.3,
          v.first,
          none_free,
          free,
          first_free_of-append_taken h.start pre (c ∷ post),
          first_free_of-append_taken h.start pre parts,
        )
      ]

  result_neat : tidy true (after_split pre c post size) ≡ true
  result_neat =
      let parts = cell true size ∷ cell false (left_of c size) ∷ post in
      ground (arith, v.neat, free, tidy-append true pre (c ∷ post), tidy-append true pre parts)

  result_free : any_free (after_split pre c post size) ≡ true
  result_free =
      let parts = cell true size ∷ cell false (left_of c size) ∷ post in
      ground (arith, any_free-append pre parts)

  result-IsHeap : IsHeap result (after_split pre c post size)
  result-IsHeap =
      let f = result_fields in
      let start = sym f.0 in
      record {
        at = record {
          chain =
              subst (λ s. Chain result.block 0 s (after_split pre c post size)) start result_Chain;
          extent =
              subst (λ s. end_of s (after_split pre c post size) ≡ s + result.size) start
                (ground (arith, f, result_extent, v.at.extent));
          small = ground (arith, f, v.at.small);
        };
        positive = subst (λ s. 0 < s) start v.positive;
        used = result_used;
        top =
            subst (λ s. result.top_block ≡ last_of 0 s (after_split pre c post size)) start
              result_top;
        first =
            subst (λ s. result.first_free ≡ first_free_of s (after_split pre c post size)) start
              result_first;
        free = result_free;
        neat = result_neat;
      }

-- On a well-formed heap let `c` be the first free block with `size` bytes, and let it hold more than one header besides.
-- Then `heap_allocate` returns the address of its payload, the block becomes an allocated one of
-- `size` bytes and a free one of the rest, all other blocks stay, and the heap is well formed. No
-- page is mapped. The fuel is enough when it exceeds the number of blocks.
pub heap_allocate-first_fit :
    {h : Heap} (k calls : ℕ) (pre : List Cell) (c : Cell) (post : List Cell) (size : ℕ)
    → IsHeap h (pre ++ c ∷ post)
    → All (Unfit size) pre
    → c.allocated ≡ false
    → 0 < size
    → size + header_size < c.size
    → length (pre ++ c ∷ post) < k
    → (h' : Heap) × (heap_allocate k (suc calls) h size
        ≡ done (end_of h.start pre + header_size, h'))
      × IsHeap h' (after_split pre c post size)
      × (h'.start ≡ h.start)
      × (h'.mapped ≡ h.mapped)
unfolding heap_allocate take_block
heap_allocate-first_fit {h} k calls pre c post size v unfit free pos fits fuel =
    let w = At-middle pre c post v in
    let found = find_block_first k size v fuel in
    let here = first_fit-append size h.start pre c post unfit free (omega arith) in
    let placed = place_lem post w size fits k in
    let ptr : add32 (end_of h.start pre) header_size ≡ end_of h.start pre + header_size =
      omega
        (arith, w.extent, w.small, le-end_of (end_of h.start pre + header_size + c.size) post) in
    let f = linked_fields size fits post w in
    (
      result pre c post v size free fits,
      ground (arith, found, here, placed, ptr),
      result-IsHeap pre c post v size free fits,
      f.1,
      f.5,
    )
