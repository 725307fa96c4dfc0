-- ===== src/Memory/Heap/Release.antt =====
-- `heap_free`: the two ways in which the merge can end, and the theorem over both.
use tomat_os_old.Common.{
  ℕ, suc, ◌+◌, ◌≤◌, ◌<◌, ◌≡◌, ◌⊎◌, inl, inr, refl, sym, ap, ◌∙◌, Bool, true, false, List, [], ◌∷◌,
  ◌++◌, if◌then◌else◌, arith, Bool-cases, Run, done, ◌>>=◌, update_ne,
}
use mathlib.Core.Path.{subst, subst₂}
use mathlib.Core.List.{append_assoc}
use tomat_os_old.Memory.Heap.{Block, Heap, header_size, merge_next, heap_free}
use tomat_os_old.Memory.Heap.Chain.{
  Cell, cell, header, end_of, last_of, Chain, le-end_of, end_of-append, last_of-append, Chain-back,
  used_of, used_of-append,
}
use tomat_os_old.Memory.Heap.Walk.{At}
use tomat_os_old.Memory.Heap.Inv.{last_allocated, IsHeap, tidy-append}
use tomat_os_old.Memory.Heap.Merge.{absorb, Merged, merge_next-Merged}
use tomat_os_old.Memory.Heap.Free.{
  coalesce, glue-append, end_of-absorb, tidy-absorb, any_free-absorb, first_free_of-absorb,
  snoc_cases, lowered, Replaced, Replaced-IsHeap, once, once-Merged, once-Replaced, freed,
  freed_used, used_bound, heap_free_starts, merge_ends, merge_goes_on,
}

absorb_taken : (c d : Cell) (ds : List Cell) → d.allocated ≡ true → absorb c (d ∷ ds) ≡ c ∷ d ∷ ds
absorb_taken c d ds e = ground arith

absorb_free :
    (c d : Cell) (ds : List Cell)
    → d.allocated ≡ false
    → absorb c (d ∷ ds) ≡ cell c.allocated (c.size + (header_size + d.size)) ∷ ds
absorb_free c d ds e = ground arith

absorb_head :
    (m : ℕ → Block) (p a : ℕ) (c : Cell) (post : List Cell)
    → Chain m p a (absorb c post)
    → (c' : Cell) × (m a ≡ header p c')
absorb_head m p a c [] h = (c, h.0)
absorb_head m p a c (d ∷ ds) h = elim (Bool-cases d.allocated) [
  | inl taken ↦ (c, (subst (λ cs. Chain m p a cs) (absorb_taken c d ds taken) h).0)
  | inr free ↦ (_, (subst (λ cs. Chain m p a cs) (absorb_free c d ds free) h).0)
]

last_allocated-snoc :
    (b : Bool) (xs : List Cell) (y : Cell) → last_allocated b (xs ++ y ∷ []) ≡ y.allocated
last_allocated-snoc b [] y = refl
last_allocated-snoc b (x ∷ xs) y = last_allocated-snoc x.allocated xs y

used_of-absorb :
    (c : Cell) (post : List Cell)
    → c.allocated ≡ false
    → used_of (absorb c post) ≤ used_of (c ∷ post)
used_of-absorb c [] free = omega arith
used_of-absorb c (d ∷ ds) free = ground arith

module _ (s : ℕ) (pre : List Cell) (b : Cell) where
  end_of-snoc : end_of s (pre ++ b ∷ []) ≡ end_of s pre + header_size + b.size
  end_of-snoc = end_of-append s pre (b ∷ [])

  last_of-snoc : last_of 0 s (pre ++ b ∷ []) ≡ end_of s pre
  last_of-snoc = last_of-append 0 s pre (b ∷ [])

-- The header of the last block before a point.
last_header :
    {h : Heap} (pre : List Cell) (b : Cell) (rest : List Cell)
    → IsHeap h (pre ++ b ∷ rest)
    → h.block (end_of h.start pre) ≡ header (last_of 0 h.start pre) b
last_header {h} pre b rest v =
    let back = Chain-back h.block 0 h.start pre (b ∷ rest) v.at.chain in back.0

-- At the start of the heap, or behind an allocated block, the merge stops.
stop_lem :
    {h : Heap} (pre old : List Cell) (g : Heap)
    → IsHeap h (pre ++ old)
    → last_allocated true pre ≡ true
    → ((x : ℕ) → x < end_of h.start pre → g.block x ≡ h.block x)
    → (last_of 0 h.start pre ≡ 0) ⊎ ((g.block (last_of 0 h.start pre)).allocated ≡ true)
stop_lem {h} pre old g v neat below = elim (snoc_cases pre) [
  | inl none_before ↦ inl (ap (λ xs. last_of 0 h.start xs) none_before)
  | inr (ys, b, e) ↦
      let v' : IsHeap h (ys ++ b ∷ old) =
        subst (λ xs. IsHeap h xs) (ap (λ xs. xs ++ old) e ∙ append_assoc ys (b ∷ []) old) v in
      let spot : last_of 0 h.start pre ≡ end_of h.start ys =
        ap (λ xs. last_of 0 h.start xs) e ∙ last_of-snoc h.start ys b in
      let ends : end_of h.start pre ≡ end_of h.start ys + header_size + b.size =
        ap (λ xs. end_of h.start xs) e ∙ end_of-snoc h.start ys b in
      let taken : b.allocated ≡ true =
        sym (last_allocated-snoc true ys b) ∙ ap (λ xs. last_allocated true xs) (sym e) ∙ neat in
      inr (
        ap (λ x. (g.block x).allocated) spot
        ∙ ap (λ m. m.allocated)
            (below (end_of h.start ys) (omega (arith, ends)) ∙ last_header ys b old v')
        ∙ taken)
]

-- What `heap_free` returns: a well-formed heap of the blocks `cs`, with the same pages.
abbrev pub FreedTo : Heap → List Cell → Run Heap → Type 0
FreedTo h cs r =
    (h' : Heap) × (r ≡ done h') × IsHeap h' cs × (h'.start ≡ h.start) × (h'.mapped ≡ h.mapped)

module _ {h : Heap} (pre : List Cell) (c : Cell) (post : List Cell) (v : IsHeap h (pre ++ c ∷ post))
    (taken : c.allocated ≡ true) where
  abbrev place : ℕ
  place = end_of h.start pre

  -- No free block stands before.
  free_plain :
      (k : ℕ)
      → last_allocated true pre ≡ true
      → FreedTo h
          (pre ++ absorb (cell false c.size) post)
          (heap_free (suc k) h (place + header_size))
  free_plain k neat =
      let r = once-Replaced pre c post v taken neat in
      let (c', head) =
        absorb_head _ (last_of 0 h.start pre) place (cell false c.size) post r.chain in
      let stop = stop_lem pre (c ∷ post) (once pre c post v taken) v neat r.below in
      let end = merge_ends k (freed pre c post v taken) place (last_of 0 h.start pre) head stop in
      (
        lowered (once pre c post v taken) place,
        heap_free_starts pre c post v taken (suc k)
            ∙ ap (λ m. m >>= λ (merged, g). done (lowered g merged)) end,
        Replaced-IsHeap v r,
        r.start,
        r.mapped,
      )

-- A free block stands before.
module _ {h : Heap} (pre : List Cell) (b c : Cell) (post : List Cell)
    (v : IsHeap h ((pre ++ b ∷ []) ++ c ∷ post)) (taken : c.allocated ≡ true)
    (free : b.allocated ≡ false) where
  abbrev spot_b : ℕ
  spot_b = end_of h.start pre

  abbrev f_cell : Cell
  f_cell = cell false c.size

  abbrev tail : List Cell
  tail = absorb f_cell post

  abbrev g1 : Heap
  g1 = once (pre ++ b ∷ []) c post v taken

  v' : IsHeap h (pre ++ b ∷ c ∷ post)
  v' = subst (λ xs. IsHeap h xs) (append_assoc pre (b ∷ []) (c ∷ post)) v

  m1 :
      Merged
        (freed (pre ++ b ∷ []) c post v taken)
        spot_b
        (spot_b + header_size + b.size)
        f_cell
        post
        g1
  m1 =
      subst₂ (λ p a. Merged (freed (pre ++ b ∷ []) c post v taken) p a f_cell post g1)
        (last_of-snoc h.start pre b) (end_of-snoc h.start pre b)
        (once-Merged (pre ++ b ∷ []) c post v taken)

  g1_below : (x : ℕ) → x < spot_b + header_size + b.size → g1.block x ≡ h.block x
  g1_below x lt =
      m1.below x lt
      ∙ update_ne h.block (end_of h.start (pre ++ b ∷ [])) x _
          (omega (arith, end_of-snoc h.start pre b))

  header_b : g1.block spot_b ≡ header (last_of 0 h.start pre) b
  header_b = g1_below spot_b (omega arith) ∙ last_header pre b (c ∷ post) v'

  b_At : At g1 (last_of 0 h.start pre) spot_b (b ∷ tail)
  b_At = record {
    chain = (header_b, m1.chain);
    extent =
        end_of-absorb (spot_b + header_size + b.size) f_cell post
        ∙ sym (end_of-append h.start pre (b ∷ c ∷ post))
        ∙ v'.at.extent
        ∙ (omega (arith, m1.start, m1.size));
    small = omega (arith, m1.start, m1.size, v.at.small);
  }

  g1_used : g1.used_size ≡ used_of pre + (header_size + used_of tail)
  g1_used = ground (
    arith,
    m1.used,
    freed_used (pre ++ b ∷ []) c post v taken,
    v'.used,
    taken,
    free,
    used_of-append pre (b ∷ c ∷ post),
  )

  g2_Merged : Merged g1 (last_of 0 h.start pre) spot_b b tail (merge_next g1 spot_b)
  g2_Merged = merge_next-Merged tail b_At free (ground (arith, g1_used, free)) (
      omega (
        arith,
        g1_used,
        used_of-absorb f_cell post refl,
        m1.used,
        freed_used (pre ++ b ∷ []) c post v taken,
        used_bound (pre ++ b ∷ []) c post v taken,
        v.used,
      ))

  abbrev g2 : Heap
  g2 = merge_next g1 spot_b

  neat_b : last_allocated true pre ≡ true
  neat_b = ground (arith, v'.neat, free, tidy-append true pre (b ∷ c ∷ post))

  g2-Replaced : Replaced h pre (b ∷ c ∷ post) (absorb b tail) g2
  g2-Replaced = record {
    start = g2_Merged.start ∙ m1.start;
    size = g2_Merged.size ∙ m1.size;
    mapped = g2_Merged.mapped ∙ m1.mapped;
    first = g2_Merged.first ∙ m1.first;
    below = λ x lt. g2_Merged.below x lt ∙ g1_below x (omega arith);
    chain = g2_Merged.chain;
    extent =
        end_of-absorb spot_b b tail ∙ end_of-absorb (spot_b + header_size + b.size) f_cell post;
    used =
        ground
          (arith, g2_Merged.used, m1.used, freed_used (pre ++ b ∷ []) c post v taken, taken, free);
    top = g2_Merged.top (m1.top (v'.top ∙ last_of-append 0 h.start pre (b ∷ c ∷ post)));
    head_free = first_free_of-absorb spot_b b tail free;
    free = any_free-absorb b tail free;
    neat = rw neat_b (
        tidy-absorb b tail free (
          tidy-absorb f_cell post refl
            (ground (arith, v'.neat, taken, tidy-append true pre (b ∷ c ∷ post)))));
  }

  free_merged :
      (k : ℕ)
      → FreedTo h
          (pre ++ absorb b tail)
          (heap_free (suc (suc k)) h (end_of h.start (pre ++ b ∷ []) + header_size))
  free_merged k =
      let start_freed = freed (pre ++ b ∷ []) c post v taken in
      let spot = end_of h.start (pre ++ b ∷ []) in
      let same_spot : spot ≡ spot_b + header_size + b.size = end_of-snoc h.start pre b in
      let (c', head) =
        absorb_head g1.block spot_b (spot_b + header_size + b.size) f_cell post m1.chain in
      let head_at : g1.block spot ≡ header spot_b c' = ap g1.block same_spot ∙ head in
      let (b', head_b) =
        absorb_head g2.block (last_of 0 h.start pre) spot_b b tail g2_Merged.chain in
      let onwards =
        merge_goes_on (suc k) start_freed spot spot_b (last_of 0 h.start pre) b head_at
          (omega (arith, le-end_of h.start pre, v.positive)) header_b free in
      let stop = stop_lem pre (b ∷ c ∷ post) g2 v' neat_b g2-Replaced.below in
      let end = merge_ends k g1 spot_b (last_of 0 h.start pre) head_b stop in
      (
        lowered g2 spot_b,
        heap_free_starts (pre ++ b ∷ []) c post v taken (suc (suc k))
            ∙ ap (λ m. m >>= λ (merged, g). done (lowered g merged)) (onwards ∙ end),
        Replaced-IsHeap v' g2-Replaced,
        g2-Replaced.start,
        g2-Replaced.mapped,
      )

glued_taken :
    (ys : List Cell) (b : Cell) (rest : List Cell)
    → b.allocated ≡ true
    → ys ++ (if b.allocated then b ∷ rest else absorb b rest) ≡ (ys ++ b ∷ []) ++ rest
glued_taken ys b rest e = ap (λ cs. ys ++ cs) (head_taken e) ∙ sym (append_assoc ys (b ∷ []) rest)
  where
    head_taken : b.allocated ≡ true → (if b.allocated then b ∷ rest else absorb b rest) ≡ b ∷ rest
    head_taken h = ground (arith, h)

glued_free :
    (ys : List Cell) (b : Cell) (rest : List Cell)
    → b.allocated ≡ false
    → ys ++ (if b.allocated then b ∷ rest else absorb b rest) ≡ ys ++ absorb b rest
glued_free ys b rest e = ap (λ cs. ys ++ cs) (head_free e)
  where
    head_free :
        b.allocated ≡ false → (if b.allocated then b ∷ rest else absorb b rest) ≡ absorb b rest
    head_free h = ground (arith, h)

-- On a well-formed heap `heap_free` of the payload address of an allocated block `c` makes it free and joins it with a free
-- block behind it and a free block before it; all other blocks stay, the heap is well formed again,
-- and no page is mapped. Two rounds of merging are enough.
pub heap_free-coalesce :
    {h : Heap} (k : ℕ) (pre : List Cell) (c : Cell) (post : List Cell)
    → IsHeap h (pre ++ c ∷ post)
    → c.allocated ≡ true
    → (h' : Heap) × (heap_free (suc (suc k)) h (end_of h.start pre + header_size) ≡ done h')
      × IsHeap h' (coalesce pre c post)
      × (h'.start ≡ h.start)
      × (h'.mapped ≡ h.mapped)
heap_free-coalesce {h} k pre c post v taken = elim (snoc_cases pre) [
  | inl e ↦
      subst
        (λ xs.
          FreedTo h (coalesce xs c post)
            (heap_free (suc (suc k)) h (end_of h.start xs + header_size)))
        (sym e)
        (free_plain [] c post (subst (λ xs. IsHeap h (xs ++ c ∷ post)) e v) taken (suc k) refl)
  | inr (ys, b, e) ↦
      let u : IsHeap h ((ys ++ b ∷ []) ++ c ∷ post) = subst (λ xs. IsHeap h (xs ++ c ∷ post)) e v in
      subst
        (λ xs.
          FreedTo h (coalesce xs c post)
            (heap_free (suc (suc k)) h (end_of h.start xs + header_size)))
        (sym e)
        (elim (Bool-cases b.allocated) [
          | inl b_taken ↦
              let same : coalesce (ys ++ b ∷ []) c post
                  ≡ (ys ++ b ∷ []) ++ absorb (cell false c.size) post =
                glue-append ys b _ ∙ glued_taken ys b _ b_taken in
              subst
                (λ cs.
                  FreedTo h cs
                    (heap_free (suc (suc k)) h (end_of h.start (ys ++ b ∷ []) + header_size)))
                (sym same)
                (free_plain (ys ++ b ∷ []) c post u taken (suc k)
                  (last_allocated-snoc true ys b ∙ b_taken))
          | inr b_free ↦
              let same : coalesce (ys ++ b ∷ []) c post
                  ≡ ys ++ absorb b (absorb (cell false c.size) post) =
                glue-append ys b _ ∙ glued_free ys b _ b_free in
              subst
                (λ cs.
                  FreedTo h cs
                    (heap_free (suc (suc k)) h (end_of h.start (ys ++ b ∷ []) + header_size)))
                (sym same) (free_merged ys b c post u taken b_free k)
        ])
]
