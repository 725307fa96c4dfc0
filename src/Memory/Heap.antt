-- ===== src/Memory/Heap.antt =====
-- TomatKernel/core/memory/heap.h and heap.c: the block headers of a heap, and the functions that
-- walk, split, merge and grow it. Pointers and sizes are 32-bit words with wrap-around. Headers are
-- kept by address, payload bytes in a second map: the blocks of a well-formed heap do not overlap.
-- What a header that is written across another header leaves of it is not modelled.
pub mod Chain
pub mod Walk
pub mod Split
pub mod Inv
pub mod Allocate
pub mod Merge
pub mod Free
pub mod Release
pub mod RoundTrip
pub mod Edge
pub mod First
pub mod Syscalls
pub mod Registered
mod Tests
use tomat_os_old.Common.{
  ℕ, zero, suc, ◌+◌, ◌-◌, ◌*◌, ◌%◌, ◌^◌, Bool, true, false, not, ◌&&◌, Option, none, some, List, [],
  ◌∷◌, ltb, leb, ◌==◌, if◌then◌else◌, update, add32, sub32, Run, done, panic, fault, hang, ◌>>=◌,
}

abbrev pub heap_magic : ℕ
heap_magic = 0xFACC0FF

abbrev pub page_size : ℕ
page_size = 4096

-- sizeof(heap_block_t)
abbrev pub header_size : ℕ
header_size = 16

pub record Block : Type 0 where
  pub allocated : Bool
  pub before : ℕ
  pub size : ℕ
  pub magic : ℕ

-- `heap_context_t`; `has_pd` says whether `pd` is not null, `block` is the memory at each address
-- read as a header, `byte` the payload, and `mapped` the addresses given to `paging_map`, last first.
pub record Heap : Type 0 where
  pub has_pd : Bool
  pub size : ℕ
  pub used_size : ℕ
  pub top_block : ℕ
  pub start : ℕ
  pub first_free : ℕ
  pub block : ℕ → Block
  pub byte : ℕ → ℕ
  pub mapped : List ℕ

-- *p = b
abbrev pub store : Heap → ℕ → Block → Heap
store h p b = record h { block = update h.block p b }

-- Whether a header lies inside the heap and carries the magic number.
pub is_valid : Heap → ℕ → Bool
is_valid h p = if leb (add32 h.start h.size) p then false else (h.block p).magic == heap_magic

pub get_block : Heap → ℕ → ℕ × Bool
get_block h ptr = let header = sub32 ptr header_size in (header, is_valid h header)

pub get_next_block : Heap → ℕ → ℕ × Bool
get_next_block h from =
    let next = add32 (add32 from header_size) (h.block from).size in (next, is_valid h next)

-- do from = next; while (valid && from->allocated);
pub get_next_free_block : (fuel : ℕ) → Heap → ℕ → Run (ℕ × Bool)
get_next_free_block zero h from = hang
get_next_free_block (suc k) h from =
    let (next, valid) = get_next_block h from in
    let rest = get_next_free_block k h next in
    if valid && (h.block next).allocated then rest else done (next, valid)

-- The block behind `next`, if there is one, points back to `from`.
pub relink : Heap → (from next : ℕ) → Heap
relink h from next =
    let (n, valid) = get_next_block h next in
    if valid then store h n (record (h.block n) { before = from }) else h

-- `from` takes `next` and its header in, and the header is wiped.
pub absorb_next : Heap → (from next : ℕ) → Heap
absorb_next h from next =
    let grown = add32 (h.block from).size (add32 header_size (h.block next).size) in
    let h = store h from (record (h.block from) { size = grown }) in
    let h = store h next (record (h.block next) { size = 0; magic = 0 }) in
    record h {
      used_size = sub32 h.used_size header_size;
      top_block = if next == h.top_block then from else h.top_block;
    }

-- The first half of `merge_empty_blocks`: a free block takes a free successor in.
pub merge_next : Heap → ℕ → Heap
merge_next h from =
    let (next, valid) = get_next_block h from in
    if valid && not (h.block next).allocated then absorb_next (relink h from next) from next else h

-- The second half goes on with the block before, if that is free.
pub merge_empty_blocks : (fuel : ℕ) → Heap → ℕ → Run (ℕ × Heap)
merge_empty_blocks zero h from = hang
merge_empty_blocks (suc k) h from =
    let h = merge_next h from in
    let before = (h.block from).before in
    let rest = merge_empty_blocks k h before in
    if not (before == 0)
      && (((h.block before).magic == heap_magic) && not (h.block before).allocated)
    then rest
    else done (from, h)

-- for (; used_size + size >= context->size; ...) paging_map(pd, top); without a page directory, in the
-- kernel's heap, `paging_map` follows NULL.
pub expand_loop : (fuel : ℕ) → Heap → (size top : ℕ) → Run Heap
expand_loop zero h size top = hang
expand_loop (suc k) h size top =
    let top_header = h.block h.top_block in
    let grown =
      store h h.top_block (record top_header { size = add32 top_header.size page_size }) in
    let mapped : Heap = record grown { size = add32 h.size page_size; mapped = top ∷ h.mapped } in
    let rest = expand_loop k mapped size (add32 top page_size) in
    if leb h.size (add32 h.used_size size) then if h.has_pd then rest else fault else done h

pub expand : (fuel : ℕ) → Heap → ℕ → Run Heap
expand k h size =
    expand_loop k h size (add32 (add32 h.top_block header_size) (h.block h.top_block).size)

pub heap_create : Heap → ℕ → Heap
heap_create h start_address =
    let mapped = if h.has_pd then start_address ∷ h.mapped else h.mapped in
    let size = if h.has_pd then page_size - header_size else 1024 * 1024 * 45 - header_size in
    let first : Block = record { allocated = false; before = 0; size = size; magic = heap_magic } in
    record h {
      size = page_size;
      start = start_address;
      first_free = start_address;
      used_size = header_size;
      mapped = mapped;
      block = update h.block start_address first;
      top_block = start_address;
    }

-- The do-while loop of `heap_allocate`: the first block that is free and large enough.
pub find_block : (fuel : ℕ) → Heap → (size block : ℕ) → Run (Option ℕ)
find_block zero h size block = hang
find_block (suc k) h size block =
    let onwards = get_next_free_block (suc k) h block >>= λ (next, valid).
    (let rest = find_block k h size next in if valid then rest else done none) in
    if (h.block block).allocated
    then onwards
    else if leb size (h.block block).size
    then done (some block)
    else onwards

-- The new header behind the `size` bytes that `heap_allocate` hands out of `block`, and the new size.
pub divide_block : Heap → (block size new left : ℕ) → Heap
divide_block h block size new left =
    let fresh : Block = record {
      allocated = false;
      before = block;
      size = left;
      magic = heap_magic;
    } in
    let h = store h new fresh in
    let h = record h { used_size = add32 h.used_size header_size } in
    store h block (record (h.block block) { size = size })

-- The block behind the new one, if there is one, points back to it.
pub link_next : Heap → ℕ → Heap
link_next h new =
    let (next, next_valid) = get_next_block h new in
    if next_valid then store h next (record (h.block next) { before = new }) else h

pub split_block : Heap → (block size : ℕ) → Heap
split_block h block size =
    let new = add32 (add32 block header_size) size in
    let left = sub32 (sub32 (h.block block).size size) header_size in
    let h = link_next (divide_block h block size new left) new in
    record h {
      first_free = if h.first_free == block then new else h.first_free;
      top_block = if ltb h.top_block new then new else h.top_block;
    }

-- The last statements of `heap_allocate`: the block is now taken.
pub take_block : Heap → ℕ → Heap
take_block h block =
    let h = store h block (record (h.block block) { allocated = true }) in
    record h { used_size = add32 h.used_size (h.block block).size }

-- What `heap_allocate` does with the block that it has found.
pub place : (fuel : ℕ) → Heap → (block size : ℕ) → Run (ℕ × Heap)
place k h block size =
    let ptr = add32 block header_size in
    let left = sub32 (sub32 (h.block block).size size) header_size in
    let next_first : Run (ℕ × Heap) = get_next_free_block k h block >>= λ (next, valid).
    if valid then done (ptr, take_block (record h { first_free = next }) block) else panic in
    if ltb 0 left
    then done (ptr, take_block (split_block h block size) block)
    else if h.first_free == block
    then next_first
    else done (ptr, take_block h block)

-- `heap_allocate`: `calls` bounds how often it calls itself after an expansion.
pub heap_allocate : (fuel calls : ℕ) → Heap → ℕ → Run (ℕ × Heap)
heap_allocate k zero h size = hang
heap_allocate k (suc calls) h size =
    let again = expand k h size >>= λ h. heap_allocate k calls h size in
    let found = find_block k h size h.first_free >>= λ b. elim b [
      | some block ↦ place k h block size
      | none ↦ again
    ] in
    if size == 0 then done (0, h) else found

pub heap_free : (fuel : ℕ) → Heap → ℕ → Run Heap
heap_free k h ptr =
    let (block, valid) = get_block h ptr in
    let header = h.block block in
    let freed = record (store h block (record header { allocated = false })) {
      used_size = sub32 h.used_size header.size;
    } in
    if ptr == 0
    then done h
    else if not valid
    then done h
    else merge_empty_blocks k freed block >>= λ (merged, h).
        done (record h { first_free = if ltb merged h.first_free then merged else h.first_free })

-- memcpy over the payload bytes
pub copy_bytes : (n dest src : ℕ) → (ℕ → ℕ) → ℕ → ℕ
copy_bytes zero dest src m = m
copy_bytes (suc n) dest src m = copy_bytes n (add32 dest 1) (add32 src 1) (update m dest (m src))

pub heap_reallocate : (fuel calls : ℕ) → Heap → (ptr new_size : ℕ) → Run (ℕ × Heap)
heap_reallocate k calls h ptr new_size =
    let (block, valid) = get_block h ptr in
    let old_size = (h.block block).size in
    let copy_size = if ltb old_size new_size then old_size else new_size in
    if ptr == 0
    then heap_allocate k calls h new_size
    else if not valid
    then heap_allocate k calls h new_size
    else heap_allocate k calls h new_size >>= λ (new_ptr, h).
        heap_free k (record h { byte = copy_bytes copy_size new_ptr ptr h.byte }) ptr >>= λ h.
        done (new_ptr, h)
