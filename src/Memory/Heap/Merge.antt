-- ===== src/Memory/Heap/Merge.antt =====
-- Merging a free block with a free successor (heap.c, lines 52-80): the headers afterwards.
use tomat_os_old.Common.{
  ℕ, ◌+◌, ◌^◌, ◌≤◌, ◌<◌, ◌≡◌, inl, inr, refl, sym, ap, ◌∙◌, false, List, [], ◌∷◌, ◌==◌,
  if◌then◌else◌, arith, add32, Bool-cases,
}
use mathlib.Core.Path.{subst}
use tomat_os_old.Memory.Heap.{Heap, header_size, store, relink, absorb_next, merge_next}
use tomat_os_old.Memory.Heap.Chain.{
  Cell, cell, header, last_of, Chain, le-end_of, Chain-update, used_of,
}
use tomat_os_old.Memory.Heap.Inv.{le-last_of}
use tomat_os_old.Memory.Heap.Walk.{At, At-tail, At-header, get_next_block_lem}

-- A block takes a free block behind it in, with its header.
abbrev pub absorb : Cell → List Cell → List Cell
absorb c [] = c ∷ []
absorb c (d ∷ ds) =
    if d.allocated then c ∷ d ∷ ds else cell c.allocated (c.size + (header_size + d.size)) ∷ ds

-- The write to the block behind the one that goes.
abbrev pub linked_to : Heap → (a r : ℕ) → Heap
linked_to h a r = store h r (record (h.block r) { before = a })

-- Any state whose headers at the two blocks are those of the chain.
absorb_Chain :
    (g : Heap) (p a : ℕ) (c d : Cell) (ds : List Cell)
    → add32 c.size (add32 header_size d.size) ≡ c.size + (header_size + d.size)
    → g.block a ≡ header p c
    → g.block (a + header_size + c.size) ≡ header a d
    → Chain g.block a (a + header_size + c.size + header_size + d.size) ds
    → Chain
        (absorb_next g a (a + header_size + c.size)).block
        p
        a
        (cell c.allocated (c.size + (header_size + d.size)) ∷ ds)
unfolding absorb_next
absorb_Chain g p a c d ds sum first second rest =
    let q = a + header_size + c.size in
    let r = q + header_size + d.size in
    let same : a + header_size + (c.size + (header_size + d.size)) ≡ r = omega arith in
    (
      ground (arith, sum, first, second),
      subst (λ x. Chain (absorb_next g a q).block a x ds) (sym same)
          (Chain-update _ a r q _ ds (inl (omega arith))
            (Chain-update _ a r a _ ds (inl (omega arith)) rest)),
    )

module _ {h : Heap} {p a : ℕ} {c d : Cell} where
  relink_nil : (w : At h p a (c ∷ d ∷ [])) → relink h a (a + header_size + c.size) ≡ h
  unfolding relink
  relink_nil w = rw (get_next_block_lem d [] (At-tail w))

  relink_cons :
      (e : Cell) (es : List Cell) (w : At h p a (c ∷ d ∷ e ∷ es))
      → relink h a (a + header_size + c.size)
        ≡ linked_to h a (a + header_size + c.size + header_size + d.size)
  unfolding relink
  relink_cons e es w = rw (get_next_block_lem d (e ∷ es) (At-tail w))

  sum_lem :
      (ds : List Cell) (w : At h p a (c ∷ d ∷ ds))
      → add32 c.size (add32 header_size d.size) ≡ c.size + (header_size + d.size)
  sum_lem ds w =
      omega
        (arith, w.extent, w.small, le-end_of (a + header_size + c.size + header_size + d.size) ds)

  merged_Chain :
      (ds : List Cell) (w : At h p a (c ∷ d ∷ ds))
      → Chain
          (absorb_next (relink h a (a + header_size + c.size)) a (a + header_size + c.size)).block
          p
          a
          (cell c.allocated (c.size + (header_size + d.size)) ∷ ds)
  merged_Chain [] w =
      absorb_Chain _ p a c d [] (sum_lem [] w) (rw (relink_nil w) w.chain.0)
        (rw (relink_nil w) w.chain.1.0) tt
  merged_Chain (e ∷ es) w =
      let r = a + header_size + c.size + header_size + d.size in
      absorb_Chain _ p a c d (e ∷ es) (sum_lem (e ∷ es) w)
        (rw (relink_cons e es w) (ground (arith, w.chain.0)))
        (rw (relink_cons e es w) (ground (arith, w.chain.1.0)))
        (subst (λ g. Chain (Heap.block g) a r (e ∷ es)) (sym (relink_cons e es w))
          (
            ground (arith, w.chain.1.1.0),
            Chain-update _ r (r + header_size + e.size) r _ es (inl (omega arith)) w.chain.1.1.1,
          ))

-- What `merge_next` leaves alone, and how it moves the counters.
pub record Merged (h : Heap) (p a : ℕ) (c : Cell) (post : List Cell) (g : Heap) : Type 0 where
  pub chain : Chain g.block p a (absorb c post)
  pub below : (x : ℕ) → x < a → g.block x ≡ h.block x
  pub start : g.start ≡ h.start
  pub size : g.size ≡ h.size
  pub first : g.first_free ≡ h.first_free
  pub mapped : g.mapped ≡ h.mapped
  pub used : g.used_size + used_of (c ∷ post) ≡ h.used_size + used_of (absorb c post)
  pub top : h.top_block ≡ last_of p a (c ∷ post) → g.top_block ≡ last_of p a (absorb c post)

-- Nothing happens at the end of the heap or before an allocated block.
merge_next_id :
    {h : Heap} {p a : ℕ} {c : Cell} (post : List Cell)
    → At h p a (c ∷ post)
    → absorb c post ≡ c ∷ post
    → merge_next h a ≡ h
    → Merged h p a c post (merge_next h a)
merge_next_id {h} {p} {a} {c} post w same id =
    subst (λ g. Merged h p a c post g) (sym id)
      (record {
        chain = subst (λ cs. Chain h.block p a cs) (sym same) w.chain;
        below = λ x lt. refl;
        start = refl;
        size = refl;
        first = refl;
        mapped = refl;
        used = ap (λ cs. h.used_size + used_of cs) (sym same);
        top = λ e. e ∙ ap (λ cs. last_of p a cs) (sym same);
      })

absorbed_top :
    (p a : ℕ) (c d : Cell) (ds : List Cell) (t : ℕ)
    → t ≡ last_of p a (c ∷ d ∷ ds)
    → (if a + header_size + c.size == t then a else t)
      ≡ last_of p a (cell c.allocated (c.size + (header_size + d.size)) ∷ ds)
absorbed_top p a c d [] t e = ground arith
absorbed_top p a c d (e ∷ es) t top =
    let r = a + header_size + c.size + header_size + d.size in
    let same : a + header_size + (c.size + (header_size + d.size)) ≡ r = omega arith in
    rw same (ground (arith, le-last_of (a + header_size + c.size) r e es))

module _ {h : Heap} {p a : ℕ} {c d : Cell} where
  merge_next_absorbs :
      (ds : List Cell) (w : At h p a (c ∷ d ∷ ds))
      → d.allocated ≡ false
      → merge_next h a
        ≡ absorb_next (relink h a (a + header_size + c.size)) a (a + header_size + c.size)
  unfolding merge_next
  merge_next_absorbs ds w free =
      ground (arith, get_next_block_lem c (d ∷ ds) w, At-header (At-tail w), free)

  relink_fields :
      (ds : List Cell) (w : At h p a (c ∷ d ∷ ds))
      → let g = relink h a (a + header_size + c.size) in
        (g.start ≡ h.start)
        × (g.size ≡ h.size)
        × (g.first_free ≡ h.first_free)
        × (g.mapped ≡ h.mapped)
        × (g.used_size ≡ h.used_size)
        × (g.top_block ≡ h.top_block)
  relink_fields [] w = rw (relink_nil w) (refl, refl, refl, refl, refl, refl)
  relink_fields (e ∷ es) w = rw (relink_cons e es w) (refl, refl, refl, refl, refl, refl)

  relink_below :
      (ds : List Cell) (w : At h p a (c ∷ d ∷ ds)) (x : ℕ)
      → x < a
      → (relink h a (a + header_size + c.size)).block x ≡ h.block x
  relink_below [] w x lt = rw (relink_nil w)
  relink_below (e ∷ es) w x lt = rw (relink_cons e es w) (ground arith)

  merge_next_absorbed :
      (ds : List Cell)
      → At h p a (c ∷ d ∷ ds)
      → c.allocated ≡ false
      → d.allocated ≡ false
      → used_of (c ∷ d ∷ ds) ≤ h.used_size
      → h.used_size < 2 ^ 32
      → Merged h p a c (d ∷ ds) (merge_next h a)
  unfolding absorb_next
  merge_next_absorbed ds w c_free d_free enough small =
      let q = a + header_size + c.size in
      let e = merge_next_absorbs ds w d_free in
      let f = relink_fields ds w in
      let one : absorb c (d ∷ ds) ≡ cell c.allocated (c.size + (header_size + d.size)) ∷ ds =
        ground (arith, d_free) in
      record {
        chain =
            subst (λ g. Chain (Heap.block g) p a (absorb c (d ∷ ds))) (sym e)
              (subst (λ cs. Chain (absorb_next (relink h a q) a q).block p a cs) (sym one)
                (merged_Chain ds w));
        below = λ x lt. rw e (ground (arith, relink_below ds w x lt));
        start = rw e f.0;
        size = rw e f.1;
        first = rw e f.2;
        mapped = rw e f.3;
        used = rw (e, one) (ground (arith, f.4, c_free, d_free));
        top = λ t. rw (e, one) (ground (arith, f.5, absorbed_top p a c d ds h.top_block t));
      }

-- `merge_next` merges with a free successor, and leaves an allocated one.
pub merge_next-Merged :
    {h : Heap} {p a : ℕ} {c : Cell} (post : List Cell)
    → At h p a (c ∷ post)
    → c.allocated ≡ false
    → used_of (c ∷ post) ≤ h.used_size
    → h.used_size < 2 ^ 32
    → Merged h p a c post (merge_next h a)
unfolding merge_next
merge_next-Merged {c} [] w free enough small =
    merge_next_id [] w refl (rw (get_next_block_lem c [] w))
merge_next-Merged {c} (d ∷ ds) w free enough small = elim (Bool-cases d.allocated) [
  | inl taken ↦
      merge_next_id (d ∷ ds) w (ground (arith, taken))
        (ground (arith, get_next_block_lem c (d ∷ ds) w, At-header (At-tail w), taken))
  | inr d_free ↦ merge_next_absorbed ds w free d_free enough small
]
