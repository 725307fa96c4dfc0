-- ===== src/Memory/Heap/Split.antt =====
-- Splitting a free block (heap.c, lines 230-271): the headers in memory afterwards.
use tomat_os_old.Common.{
  ℕ, ◌+◌, ◌-◌, ◌^◌, ◌<◌, ◌≡◌, inl, refl, sym, ap, Bool, false, List, [], ◌∷◌, arith, add32, sub32,
}
use mathlib.Core.Path.{subst}
use tomat_os_old.Memory.Heap.{
  Heap, header_size, store, is_valid, get_next_block, divide_block, link_next,
}
use tomat_os_old.Memory.Heap.Chain.{Cell, cell, header, Chain, le-end_of, Chain-update}
use tomat_os_old.Memory.Heap.Walk.{At, At-header, is_cons, is_valid-At}

get_next_block_of :
    (g : Heap) (x q n : ℕ) {v : Bool}
    → (g.block x).size ≡ n
    → add32 (add32 x header_size) n ≡ q
    → is_valid g q ≡ v
    → get_next_block g x ≡ (q, v)
unfolding get_next_block
get_next_block_of g x q n size next valid = rw (size, next, valid)

-- Where the new header goes, what it is left with, and where the next block begins.
abbrev pub new_at : ℕ → ℕ → ℕ
new_at a size = a + header_size + size

abbrev pub left_of : Cell → ℕ → ℕ
left_of c size = c.size - size - header_size

module _ {h : Heap} {p a : ℕ} {c : Cell} {post : List Cell} (w : At h p a (c ∷ post)) (size : ℕ)
    (fits : size + header_size < c.size) where
  in_range : a + header_size + c.size < 2 ^ 32
  in_range = omega (arith, w.extent, w.small, le-end_of (a + header_size + c.size) post)

  pub new_at_lem : add32 (add32 a header_size) size ≡ new_at a size
  new_at_lem = omega (arith, in_range)

  pub left_of_lem : sub32 (sub32 (h.block a).size size) header_size ≡ left_of c size
  left_of_lem = rw (At-header w) (omega (arith, in_range))

  abbrev pub divided : Heap
  divided = divide_block h a size (new_at a size) (left_of c size)

  divided_new : divided.block (new_at a size) ≡ header a (cell false (left_of c size))
  unfolding divide_block
  divided_new = ground arith

  divided_old : divided.block a ≡ header p (cell c.allocated size)
  unfolding divide_block
  divided_old = ground (arith, At-header w)

  divided_rest : Chain divided.block a (a + header_size + c.size) post
  unfolding divide_block
  divided_rest = Chain-update _ a (a + header_size + c.size) a _ post (inl (omega arith)) (
      Chain-update _ a (a + header_size + c.size) (new_at a size) _ post (inl (omega arith))
        w.chain.1)

  divided-At : At divided a (a + header_size + c.size) post
  unfolding divide_block
  divided-At = record { chain = divided_rest; extent = w.extent; small = w.small }

  divided_next : get_next_block divided (new_at a size) ≡ (a + header_size + c.size, is_cons post)
  divided_next =
      get_next_block_of divided (new_at a size) (a + header_size + c.size) (left_of c size)
        (ap (λ b. b.size) divided_new) (omega (arith, in_range)) (is_valid-At post divided-At)

  abbrev pub linked : Heap
  linked = link_next divided (new_at a size)

pub end_eq :
    (a : ℕ) (c : Cell) (size : ℕ)
    → size + header_size < c.size
    → new_at a size + header_size + left_of c size ≡ a + header_size + c.size
end_eq a c size fits = omega arith

-- The write to the block behind.
abbrev linked_to : Heap → (q new : ℕ) → Heap
linked_to g q new = store g q (record (g.block q) { before = new })

module _ {h : Heap} {p a : ℕ} {c : Cell} (size : ℕ) (fits : size + header_size < c.size) where
  linked_nil : (w : At h p a (c ∷ [])) → linked w size fits ≡ divided w size fits
  unfolding link_next
  linked_nil w = rw (divided_next w size fits)

  linked_cons :
      (d : Cell) (post : List Cell) (w : At h p a (c ∷ d ∷ post))
      → linked w size fits
        ≡ linked_to (divided w size fits) (a + header_size + c.size) (new_at a size)
  unfolding link_next
  linked_cons d post w = rw (divided_next w size fits)

  linked_to-Chain :
      (d : Cell) (post : List Cell) (w : At h p a (c ∷ d ∷ post))
      → Chain
          (linked_to (divided w size fits) (a + header_size + c.size) (new_at a size)).block
          (new_at a size)
          (a + header_size + c.size)
          (d ∷ post)
  linked_to-Chain d post w =
      let q = a + header_size + c.size in
      let rest = divided_rest w size fits in
      (
        ground (arith, rest.0),
        Chain-update _ q (q + header_size + d.size) q _ post (inl (omega arith)) rest.1,
      )

  -- The memory after the split holds the two parts of the block and the blocks behind them.
  pub linked-Chain :
      (post : List Cell) (w : At h p a (c ∷ post))
      → Chain
          (linked w size fits).block
          p
          a
          (cell c.allocated size ∷ cell false (left_of c size) ∷ post)
  linked-Chain [] w =
      subst
        (λ g. Chain (Heap.block g) p a (cell c.allocated size ∷ cell false (left_of c size) ∷ []))
        (sym (linked_nil w)) (divided_old w size fits, (divided_new w size fits, tt))
  linked-Chain (d ∷ post) w =
      subst
        (λ g.
          Chain (Heap.block g) p a (cell c.allocated size ∷ cell false (left_of c size) ∷ d ∷ post))
        (sym (linked_cons d post w))
        (
          ground (arith, divided_old w size fits),
          (
            ground (arith, divided_new w size fits),
            subst
                (λ x.
                  Chain
                    (linked_to (divided w size fits) (a + header_size + c.size)
                      (new_at a size)).block
                    (new_at a size) x (d ∷ post))
                (sym (end_eq a c size fits)) (linked_to-Chain d post w),
          ),
        )

  -- Nothing below the block is written.
  pub linked_below :
      (post : List Cell) (w : At h p a (c ∷ post)) (x : ℕ)
      → x < a
      → (linked w size fits).block x ≡ h.block x
  unfolding divide_block
  linked_below [] w x lt = rw (linked_nil w) (ground arith)
  linked_below (d ∷ post) w x lt = rw (linked_cons d post w) (ground arith)

  -- The rest of the state.
  pub linked_fields :
      (post : List Cell) (w : At h p a (c ∷ post))
      → ((linked w size fits).size ≡ h.size)
        × ((linked w size fits).start ≡ h.start)
        × ((linked w size fits).used_size ≡ add32 h.used_size header_size)
        × ((linked w size fits).first_free ≡ h.first_free)
        × ((linked w size fits).top_block ≡ h.top_block)
        × ((linked w size fits).mapped ≡ h.mapped)
  unfolding divide_block
  linked_fields [] w = rw (linked_nil w) (refl, refl, refl, refl, refl, refl)
  linked_fields (d ∷ post) w = rw (linked_cons d post w) (refl, refl, refl, refl, refl, refl)
