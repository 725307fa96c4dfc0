-- ===== src/Kernel/Buffer/Growth.antt =====
-- The growing array implements the list.
use tomat_os_old.Common.{
  ℕ, ◌+◌, ◌*◌, ◌^◌, ◌≤◌, ◌<◌, ◌≡◌, refl, sym, ap, ◌∙◌, Option, none, some, List, [], length,
  get_elem?, leb, ltb, ◌==◌, if◌then◌else◌, update, add32, mul32, done, ◌>>=◌, arith, Bool-cases,
  inl, inr, ==→eq,
}
use mathlib.Core.Path.{subst}
use native.Mathlib.Nat.{mul-le-mul_left, mul-le-mul_right}
use tomat_os_old.Kernel
use tomat_os_old.Kernel.Buffer.{
  Buf, kept, created_buf, moved_buf, buf_header, new_cap, buf_len, buf_cap, buf__grow, buf_fit,
  append_element, buf_push,
}
use tomat_os_old.Kernel.Buffer.Lists.{length-buf_push, buf_push_last, buf_push_before}

-- The new block has room for its capacity.
grown_room :
    (cap new_len elem_size bound : ℕ)
    → new_cap cap new_len ≤ bound
    → buf_header + bound * elem_size < 2 ^ 32
    → buf_header + new_cap cap new_len * elem_size
      ≡ add32 buf_header (mul32 (new_cap cap new_len) elem_size)
grown_room cap new_len elem_size bound fits small =
    let le = mul-le-mul_right elem_size fits in omega (arith, le, small)

-- The capacity after growing for one more element.
grown_cap :
    (cap len : ℕ)
    → len ≤ cap
    → cap < len + 1
    → 2 * len + 16 < 2 ^ 32
    → (len < new_cap cap (len + 1)) × (new_cap cap (len + 1) ≤ 2 * len + 16)
unfolding new_cap
grown_cap cap len within full small = ground (arith, within, full, small)

module _ {ℓ} {A : Type ℓ} where
  -- A buffer that holds the elements of a list, in a block with room for its capacity.
  pub record Holds (elem_size : ℕ) (xs : List A) (b : Buf A) : Type ℓ where
    pub len_is : b.len ≡ length xs
    pub within : b.len ≤ b.cap
    pub room : buf_header + b.cap * elem_size ≤ b.bytes
    pub modest : b.cap ≤ 2 * b.len + 16
    pub elements_are : (i : ℕ) → i < b.len → get_elem? xs i ≡ some (b.elements i)

  -- A null pointer holds the empty list.
  abbrev pub HoldsIn : (elem_size : ℕ) → List A → Option (Buf A) → Type ℓ
  HoldsIn elem_size xs none = xs ≡ []
  HoldsIn elem_size xs (some b) = Holds elem_size xs b

  appended :
      (elem_size : ℕ) (x : A) (xs : List A) (b : Buf A)
      → Holds elem_size xs b
      → (i : ℕ) → i < b.len + 1
      → get_elem? (Kernel.buf_push xs x) i ≡ some (update b.elements b.len x i)
  appended elem_size x xs b h i lt = elim (Bool-cases (b.len == i)) [
    | inl last ↦
        let at_end : length xs ≡ i = sym h.len_is ∙ ==→eq b.len i last in
        subst (λ j. get_elem? (Kernel.buf_push xs x) j ≡ some (update b.elements b.len x i)) at_end
          (buf_push_last xs x ∙ ap some (rw last refl))
    | inr before ↦
        let inside : i < b.len = ground (arith, before, lt) in
        buf_push_before xs x i (omega (arith, inside, h.len_is))
        ∙ h.elements_are i inside
        ∙ ap some (rw before refl)
  ]

  -- With room for one more element, `append_element` puts it at the end.
  append-Holds :
      (elem_size : ℕ) (x : A) (xs : List A) (b : Buf A)
      → Holds elem_size xs b
      → b.len < b.cap
      → b.cap < 2 ^ 32
      → (b' : Buf A) × (append_element elem_size x (some b) ≡ done b')
        × Holds elem_size (Kernel.buf_push xs x) b'
  unfolding append_element
  append-Holds elem_size x xs b h free small =
      let next : b.len + 1 ≤ b.cap = omega (arith, free) in
      let fits : buf_header + (b.len + 1) * elem_size ≤ b.bytes =
        omega (arith, h.room, mul-le-mul_right elem_size next) in
      (
        record b { elements = update b.elements b.len x; len = add32 b.len 1 },
        ground (arith, fits),
        record {
          len_is = omega (arith, h.len_is, length-buf_push xs x, free, small);
          within = omega (arith, free, small);
          room = h.room;
          modest = omega (arith, h.modest, free, small);
          elements_are = λ i lt. appended elem_size x xs b h i (omega (arith, lt, free, small));
        },
      )

  inside_cap :
      (fresh : ℕ → A) (b : Buf A) (i : ℕ)
      → i < b.cap
      → b.elements i ≡ (if ltb i b.cap then b.elements i else fresh i)
  inside_cap fresh b i lt = ground (arith, lt)

  -- A buffer with room for one more element.
  record Fitted (elem_size : ℕ) (xs : List A) (b : Buf A) : Type ℓ where
    holds : Holds elem_size xs b
    free : b.len < b.cap
    small : b.cap < 2 ^ 32

  grown :
      (fresh : ℕ → A) (elem_size : ℕ) (xs : List A) (b : Buf A)
      → Holds elem_size xs b
      → b.cap < b.len + 1
      → 2 * length xs + 16 < 2 ^ 32
      → buf_header + (2 * length xs + 16) * elem_size < 2 ^ 32
      → Fitted elem_size xs (moved_buf fresh elem_size (b.len + 1) b)
  unfolding moved_buf
  grown fresh elem_size xs b h full small block =
      let (more, modest) = grown_cap b.cap b.len h.within full (omega (arith, h.len_is, small)) in
      let bound : new_cap b.cap (b.len + 1) ≤ 2 * length xs + 16 =
        omega (arith, h.len_is, modest) in
      record {
        holds = record {
          len_is = h.len_is;
          within = omega (arith, more);
          room =
              omega
                (arith, grown_room b.cap (b.len + 1) elem_size (2 * length xs + 16) bound block);
          modest = modest;
          elements_are = λ i lt.
              h.elements_are i lt ∙ ap some (inside_cap fresh b i (omega (arith, lt, h.within)));
        };
        free = more;
        small = omega (arith, bound, small);
      }

  created_buf-Fitted :
      (fresh : ℕ → A) (elem_size : ℕ)
      → buf_header + (2 * 0 + 16) * elem_size < 2 ^ 32
      → Fitted elem_size [] (created_buf fresh elem_size 1)
  unfolding created_buf
  created_buf-Fitted fresh elem_size block =
      let (more, modest) = grown_cap 0 0 (omega arith) (omega arith) (omega arith) in
      record {
        holds = record {
          len_is = refl;
          within = omega arith;
          room = omega (arith, grown_room 0 1 elem_size 16 modest block);
          modest = modest;
          elements_are = λ i lt. absurd (omega (arith, lt));
        };
        free = more;
        small = omega (arith, modest);
      }

  fit_steps :
      (fresh : ℕ → A) (elem_size : ℕ) (xs : List A) (b : Option (Buf A))
      → HoldsIn elem_size xs b
      → 2 * length xs + 16 < 2 ^ 32
      → buf_header + (2 * length xs + 16) * elem_size < 2 ^ 32
      → (b1 : Buf A) × (buf_fit kept fresh elem_size (add32 1 (buf_len b)) b ≡ done (some b1))
        × Fitted elem_size xs b1
  unfolding buf_fit buf_len buf_cap buf__grow
  fit_steps fresh elem_size xs none empty small block = (
    created_buf fresh elem_size 1,
    refl,
    subst (λ ys. Fitted elem_size ys (created_buf fresh elem_size 1)) (sym empty)
        (created_buf-Fitted fresh elem_size
          (subst (λ ys. buf_header + (2 * length ys + 16) * elem_size < 2 ^ 32) empty block)),
  )
  fit_steps fresh elem_size xs (some b) h small block =
      let next : add32 1 b.len ≡ b.len + 1 = omega (arith, h.len_is, small) in
      elim (Bool-cases (leb (b.len + 1) b.cap)) [
        | inl free ↦ (
          b,
          rw (next, free) refl,
          record {
            holds = h;
            free = ground (arith, free);
            small = omega (arith, h.modest, h.len_is, small);
          },
        )
        | inr full ↦ (
          moved_buf fresh elem_size (b.len + 1) b,
          rw (next, full) refl,
          grown fresh elem_size xs b h (ground (arith, full)) small block,
        )
      ]

  -- `buf_push` implements the list of the model, where the kernel's heap, if it is asked for a larger
  -- block, gives one that keeps the contents: on a null pointer, or a buffer that holds a list, it
  -- returns a buffer that holds the list with the new element at its end, in a block with room for its
  -- capacity, where the elements have a size and twice their number and 16 more fit into 32 bits.
  pub buf_push-Holds :
      (fresh : ℕ → A) (elem_size : ℕ) (x : A) (xs : List A) (b : Option (Buf A))
      → HoldsIn elem_size xs b
      → 0 < elem_size
      → buf_header + (2 * length xs + 16) * elem_size < 2 ^ 32
      → (b' : Buf A) × (buf_push kept fresh elem_size x b ≡ done b')
        × Holds elem_size (Kernel.buf_push xs x) b'
  unfolding buf_push
  buf_push-Holds fresh elem_size x xs b h some_size block =
      let some_bytes = mul-le-mul_left (2 * length xs + 16) some_size in
      let (b1, fitted, f) =
        fit_steps fresh elem_size xs b h (omega (arith, block, some_bytes)) block in
      let (b', run, holds) = append-Holds elem_size x xs b1 f.holds f.free f.small in
      (b', ap (λ r. r >>= append_element elem_size x) fitted ∙ run, holds)
