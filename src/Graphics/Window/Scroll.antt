-- ===== src/Graphics/Window/Scroll.antt =====
-- What `window_scroll` leaves in the buffer (window.c, lines 505-526).
use tomat_os_old.Common.{
  ℕ, zero, suc, ◌+◌, ◌-◌, ◌*◌, ◌≤◌, ◌≡◌, refl, ap, ◌∙◌, ltb, if◌then◌else◌, update, Run, done,
  ◌>>=◌, arith,
}
use native.Mathlib.Nat.{mul_comm, add-mul}
use tomat_os_old.Graphics.Window.{Cell, Window, for_from, put, peek, cell_of, scroll_lines}

abbrev pub with_buffer : Window → (ℕ → Cell) → Window
with_buffer v b = record v { screen_buffer = b }

-- The copying loop from place `i` on, `shift` cells further.
copies :
    (count i shift : ℕ) (v : Window)
    → i + count + shift ≤ v.size
    → (b : ℕ → Cell) × (for_from count i (λ i v. peek v (i + shift) >>= (λ cell. put i cell v)) v
        ≡ done (with_buffer v b))
      × ((j : ℕ)
          → b j ≡ (
              if ltb j i
              then v.screen_buffer j
              else if ltb j (i + count)
              then v.screen_buffer (j + shift)
              else v.screen_buffer j))
unfolding for_from put peek
copies zero i shift v room = (v.screen_buffer, refl, λ j. ground arith)
copies (suc n) i shift v room =
    let b1 = update v.screen_buffer i (v.screen_buffer (i + shift)) in
    let (b, run, is) = copies n (i + 1) shift (with_buffer v b1) (omega (arith, room)) in
    (b, ground (arith, room, run), λ j. ground (arith, is j))

-- The clearing loop from place `i` on.
pub clears :
    (count i : ℕ) (v : Window)
    → i + count ≤ v.size
    → (b : ℕ → Cell) × (for_from count i (λ i v. put i (cell_of v 0) v) v ≡ done (with_buffer v b))
      × ((j : ℕ)
          → b j ≡ (
              if ltb j i
              then v.screen_buffer j
              else if ltb j (i + count)
              then cell_of v 0
              else v.screen_buffer j))
unfolding for_from put
clears zero i v room = (v.screen_buffer, refl, λ j. ground arith)
clears (suc n) i v room =
    let b1 = update v.screen_buffer i (cell_of v 0) in
    let (b, run, is) = clears n (i + 1) (with_buffer v b1) (omega (arith, room)) in
    (b, ground (arith, room, run), λ j. ground (arith, is j))

after :
    {r s : Run Window} {v : Window} (f : Window → Run Window) → r ≡ done v → f v ≡ s → (r >>= f) ≡ s
after f first rest = ap (λ r. r >>= f) first ∙ rest

rows : (n w h size : ℕ) → n ≤ h → w * h ≤ size → (h - n) * w + n * w ≤ size
rows n w h size le room =
    let m = h - n in
    let whole : m + n ≡ h = omega (arith, le) in
    let both : (m + n) * w ≡ m * w + n * w = add-mul m n w in
    let swap : (m + n) * w ≡ w * h = ap (λ a. a * w) whole ∙ mul_comm h w in
    omega (arith, both, swap, room)

-- On a window whose buffer has `width * height` cells, the loops of `window_scroll` for `n` lines up to
-- its height end, and then: the first `n` lines are blank, in the window's colours; the lines behind them, up
-- to the last `n`, hold what stood `n` lines below; and the last `n` lines are what they were, unless
-- they are among the first `n`.
pub scroll_lines-lem :
    (n : ℕ) (v : Window)
    → n ≤ v.height
    → v.width * v.height ≤ v.size
    → (b : ℕ → Cell) × (scroll_lines n v ≡ done (with_buffer v b))
      × ((j : ℕ)
          → b j ≡ (
              if ltb j (n * v.width)
              then cell_of v 0
              else if ltb j ((v.height - n) * v.width)
              then v.screen_buffer (j + n * v.width)
              else v.screen_buffer j))
unfolding scroll_lines
scroll_lines-lem n v some_lines room =
    let split = rows n v.width v.height v.size some_lines room in
    let (b, run, is) = copies ((v.height - n) * v.width) 0 (n * v.width) v (omega (arith, split)) in
    let (b', run', is') = clears (n * v.width) 0 (with_buffer v b) (omega (arith, split)) in
    let clear : Window → Run Window =
      λ s. for_from (n * v.width) 0 (λ i s. put i (cell_of s 0) s) s in
    (b', after clear run run', λ j. ground (arith, is j, is' j))
