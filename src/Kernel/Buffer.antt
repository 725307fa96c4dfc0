-- ===== src/Kernel/Buffer.antt =====
-- TomatKernel/core/sbuf.h and sbuf.c: growing arrays, and how they hold the lists of the model. What
-- klibc's malloc and realloc, that is, the kernel's heap, do with a request is a parameter, an `Answer`;
-- `fresh` is what new memory holds.
pub mod Lists
pub mod Growth
mod Tests
use tomat_os_old.Common.{
  ℕ, zero, suc, ◌+◌, ◌-◌, ◌*◌, ◌^◌, ◌≤◌, ◌<◌, ◌≡◌, refl, sym, ap, ◌∙◌, Bool, true, false, Option,
  none, some, List, [], ◌∷◌, length, get_elem?, leb, ltb, if◌then◌else◌, update, u32, add32, mul32,
  Run, done, panic, fault, ◌>>=◌, arith, Bool-cases, inl, inr,
}

-- `BufHdr` with its elements, and the number of bytes of its block.
pub record Buf {ℓ} (A : Type ℓ) : Type ℓ where
  pub len : ℕ
  pub cap : ℕ
  pub elements : ℕ → A
  pub bytes : ℕ

-- offsetof(BufHdr, buf)
abbrev buf_header : ℕ
buf_header = 8

abbrev pub maximum : ℕ → ℕ → ℕ
maximum a b = if leb b a then a else b

-- How the kernel's heap answers (`heap_allocate` and `heap_reallocate`, heap.c): it panics, or follows a
-- bad pointer, or gives a new block with the old contents, or, when it does not find the block of the
-- old pointer, as it is behind the first page of the kernel's heap, a new block with no old contents,
-- whose memory reads `len` where the header's `len` is.
pub data Answer : Type 0 where
  panics faults kept : Answer
  lost : (len : ℕ) → Answer

-- The capacity of `buf__grow`.
pub new_cap : (cap new_len : ℕ) → ℕ
new_cap cap new_len = maximum (mul32 2 cap) (maximum new_len 16)

module _ {ℓ} {A : Type ℓ} where
  pub buf_len : Option (Buf A) → ℕ
  buf_len none = 0
  buf_len (some b) = b.len

  pub buf_cap : Option (Buf A) → ℕ
  buf_cap none = 0
  buf_cap (some b) = b.cap

  -- The block of a null pointer's buffer is from `malloc`, and its `len` is set to 0.
  pub created_buf : (fresh : ℕ → A) (elem_size new_len : ℕ) → Buf A
  created_buf fresh elem_size new_len = record {
    len = 0;
    cap = new_cap 0 new_len;
    elements = fresh;
    bytes = add32 buf_header (mul32 (new_cap 0 new_len) elem_size);
  }

  -- A block from `realloc` with the old contents.
  pub moved_buf : (fresh : ℕ → A) (elem_size new_len : ℕ) → Buf A → Buf A
  moved_buf fresh elem_size new_len b = record b {
    cap = new_cap b.cap new_len;
    elements = λ i. if ltb i b.cap then b.elements i else fresh i;
    bytes = add32 buf_header (mul32 (new_cap b.cap new_len) elem_size);
  }

  pub buf__grow : Answer → (fresh : ℕ → A) (elem_size new_len : ℕ) → Option (Buf A) → Run (Buf A)
  unfolding created_buf moved_buf
  buf__grow panics fresh elem_size new_len b = panic
  buf__grow faults fresh elem_size new_len b = fault
  buf__grow kept fresh elem_size new_len none = done (created_buf fresh elem_size new_len)
  buf__grow kept fresh elem_size new_len (some b) = done (moved_buf fresh elem_size new_len b)
  buf__grow (lost len) fresh elem_size new_len none = done (created_buf fresh elem_size new_len)
  buf__grow (lost len) fresh elem_size new_len (some b) =
      done (record (moved_buf fresh elem_size new_len b) { len = len; elements = fresh })

  pub buf_fit : Answer → (fresh : ℕ → A) (elem_size n : ℕ) → Option (Buf A) → Run (Option (Buf A))
  buf_fit answer fresh elem_size n b =
      if leb n (buf_cap b)
      then done b
      else buf__grow answer fresh elem_size n b >>= (λ b. done (some b))

  -- (b)[buf__hdr(b)->len++] = x; outside of the block is a fault.
  pub append_element : (elem_size : ℕ) → A → Option (Buf A) → Run (Buf A)
  append_element elem_size x none = fault
  append_element elem_size x (some b) =
      if leb (buf_header + (b.len + 1) * elem_size) b.bytes
      then done (record b { elements = update b.elements b.len x; len = add32 b.len 1 })
      else fault

  pub buf_push : Answer → (fresh : ℕ → A) (elem_size : ℕ) → A → Option (Buf A) → Run (Buf A)
  buf_push answer fresh elem_size x b =
      buf_fit answer fresh elem_size (add32 1 (buf_len b)) b >>= append_element elem_size x

  -- The block goes back to the allocator, and the pointer becomes null.
  pub buf_free : Option (Buf A) → Option (Buf A)
  buf_free b = none

  pub buf_clear : Option (Buf A) → Option (Buf A)
  buf_clear none = none
  buf_clear (some b) = some (record b { len = 0 })
