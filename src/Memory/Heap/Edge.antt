-- ===== src/Memory/Heap/Edge.antt =====
-- `heap_allocate` where a free block has no room for another header: heap.c, lines 228-262.
use tomat_os_old.Common.{
  ℕ, suc, ◌+◌, ◌<◌, ◌≡◌, inl, refl, true, false, List, [], ◌∷◌, ◌++◌, arith, All, length, panic,
  sub32,
}
use tomat_os_old.Memory.Heap.{Heap, header_size, place, heap_allocate}
use tomat_os_old.Memory.Heap.Chain.{Cell, end_of, le-end_of}
use tomat_os_old.Memory.Heap.Walk.{At-header, any_free, get_next_free_block_lem}
use tomat_os_old.Memory.Heap.Inv.{IsHeap, Unfit, first_fit-append, first_free_of-append_taken}
use tomat_os_old.Memory.Heap.Allocate.{find_block_first, At-middle}

any_free_of_taken : (pre : List Cell) → All (λ c. c.allocated ≡ true) pre → any_free pre ≡ false
any_free_of_taken [] h = refl
any_free_of_taken (x ∷ pre) h = ground (arith, h.0, any_free_of_taken pre h.1)

Unfit-taken :
    (size : ℕ) (pre : List Cell) → All (λ c. c.allocated ≡ true) pre → All (Unfit size) pre
Unfit-taken size [] h = tt
Unfit-taken size (x ∷ pre) h = (inl h.0, Unfit-taken size pre h.1)

-- On a well-formed heap, if the only free block holds exactly `size` bytes and one header, `heap_allocate` panics, though the
-- block is large enough.
pub heap_allocate-panic :
    {h : Heap} (k calls : ℕ) (pre : List Cell) (c : Cell) (post : List Cell) (size : ℕ)
    → IsHeap h (pre ++ c ∷ post)
    → All (λ b. b.allocated ≡ true) pre
    → c.allocated ≡ false
    → any_free post ≡ false
    → 0 < size
    → c.size ≡ size + header_size
    → length (pre ++ c ∷ post) < k
    → length post < k
    → heap_allocate k (suc calls) h size ≡ panic
unfolding heap_allocate place
heap_allocate-panic {h} k calls pre c post size v all_taken free only pos exact fuel fuel' =
    let w = At-middle pre c post v in
    let found = find_block_first k size v fuel in
    let here =
      first_fit-append size h.start pre c post (Unfit-taken size pre all_taken) free
        (omega arith) in
    let bound = le-end_of (end_of h.start pre + header_size + c.size) post in
    let left : sub32 (sub32 c.size size) header_size ≡ 0 =
      omega (arith, w.extent, w.small, bound) in
    let first : h.first_free ≡ end_of h.start pre = ground (
      arith,
      v.first,
      free,
      first_free_of-append_taken h.start pre (c ∷ post) (any_free_of_taken pre all_taken),
    ) in
    let next = get_next_free_block_lem k c post w fuel' in
    ground (arith, found, here, At-header w, left, first, next, only)
