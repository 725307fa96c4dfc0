-- ===== src/Graphics/Window/Fits.antt =====
-- A window whose cursor stands on one of its cells, and what one character does to it (window.c,
-- lines 365-402).
use tomat_os_old.Common.{
  ℕ, ◌+◌, ◌-◌, ◌*◌, ◌^◌, ◌≤◌, ◌<◌, ◌≡◌, ◌≢◌, ◌⊎◌, inl, inr, refl, ap, ◌∙◌, Bool, true, false, leb,
  ◌==◌, if◌then◌else◌, update, u16, done, arith, Bool-cases,
}
use native.Mathlib.Nat.{add-mul, mul_comm}
use tomat_os_old.Graphics.Window.{Cell, Window, window_magic, put, cell_of, write_char, wrap_line}
use tomat_os_old.Graphics.Window.Scroll.{with_buffer}

pub cell_in : (x y w h size : ℕ) → x < w → y < h → w * h ≤ size → x + y * w < size
cell_in x y w h size column line room =
    let d = h - (y + 1) in
    let whole : y + 1 + d ≡ h = omega (arith, line) in
    let total : (y + 1 + d) * w ≡ w * h = ap (λ a. a * w) whole ∙ mul_comm h w in
    omega (arith, column, room, total, add-mul (y + 1) d w, add-mul y 1 w)

-- The native window has `columns` cells on each of `lines` lines.
module _ (columns lines : ℕ) where
  -- A window of that size without a parent, with a buffer of its size, and its cursor on a cell;
  -- the cursor may also stand at the beginning of the line behind the last one, when `over` is 1.
  pub record Fits (over : ℕ) (v : Window) : Type 0 where
    pub column : v.cursor_x < v.width
    pub line : v.cursor_y < v.height + over
    pub some_line : 0 < v.height
    pub wide : v.width < 2 ^ 16
    pub high : v.height < 2 ^ 16
    pub room : v.width * v.height ≤ v.size
    pub valid : v.magic ≡ window_magic
    pub top : v.parent ≡ 0
    pub wide_as : v.width ≡ columns
    pub high_as : v.height ≡ lines

  Fits-if :
      (b : Bool) (x y : Window)
      → (b ≡ true → Fits 1 x)
      → (b ≡ false → Fits 1 y)
      → Fits 1 (if b then x else y)
  Fits-if true x y f g = f refl
  Fits-if false x y f g = g refl

  -- A cursor that is at most one cell behind its line, wrapped.
  wrap_line-Fits :
      (v : Window)
      → ((v.cursor_x < v.width) × (v.cursor_y < v.height + 1))
        ⊎ ((v.cursor_x ≤ v.width) × (v.cursor_y < v.height))
      → 0 < v.width
      → 0 < v.height
      → v.width < 2 ^ 16
      → v.height < 2 ^ 16
      → v.width * v.height ≤ v.size
      → v.magic ≡ window_magic
      → v.parent ≡ 0
      → v.width ≡ columns
      → v.height ≡ lines
      → Fits 1 (wrap_line v)
  unfolding wrap_line
  wrap_line-Fits v place some_column some_line wide high room valid top wide_as high_as =
      Fits-if (leb v.width v.cursor_x) _ _
        (λ over. record {
          column = some_column;
          line = ground (arith, over, place, high);
          some_line = some_line;
          wide = wide;
          high = high;
          room = room;
          valid = valid;
          top = top;
          wide_as = wide_as;
          high_as = high_as;
        })
        (λ within. record {
          column = ground (arith, within);
          line = ground (arith, place);
          some_line = some_line;
          wide = wide;
          high = high;
          room = room;
          valid = valid;
          top = top;
          wide_as = wide_as;
          high_as = high_as;
        })

  -- One character that is no tab.
  pub write_char-Fits :
      (c : ℕ) (v : Window)
      → c ≢ 9
      → Fits 0 v
      → (v' : Window) × (write_char c v ≡ done v') × Fits 1 (wrap_line v')
  unfolding write_char put
  write_char-Fits c v no_tab f = elim (Bool-cases (c == 10)) [
    | inl newline ↦ (
      record v { cursor_y = u16 (v.cursor_y + 1); cursor_x = 0 },
      ground (arith, newline),
      wrap_line-Fits _ (inl (omega (arith, f.column), omega (arith, f.line, f.high)))
          (omega (arith, f.column)) f.some_line f.wide f.high f.room f.valid f.top f.wide_as
          f.high_as,
    )
    | inr char ↦
        let at = v.cursor_x + v.cursor_y * v.width in
        let inside =
          cell_in v.cursor_x v.cursor_y v.width v.height v.size f.column (omega (arith, f.line))
            f.room in
        (
          record v {
            cursor_x = u16 (v.cursor_x + 1);
            screen_buffer = update v.screen_buffer at (cell_of v c);
          },
          ground (arith, char, no_tab, inside),
          wrap_line-Fits _ (inr (omega (arith, f.column, f.wide), omega (arith, f.line)))
              (omega (arith, f.column)) f.some_line f.wide f.high f.room f.valid f.top f.wide_as
              f.high_as,
        )
  ]

  -- A tab at the beginning of a line, on a window that is wide enough.
  pub write_char-tab :
      (v : Window)
      → v.cursor_x ≡ 0
      → 2 ≤ columns
      → Fits 0 v
      → (v' : Window) × (write_char 9 v ≡ done v') × Fits 1 (wrap_line v')
  unfolding write_char put
  write_char-tab v home enough f =
      let at = v.cursor_x + v.cursor_y * v.width in
      let second_column : v.cursor_x + 1 < v.width = omega (arith, home, enough, f.wide_as) in
      let first =
        cell_in v.cursor_x v.cursor_y v.width v.height v.size f.column (omega (arith, f.line))
          f.room in
      let second =
        cell_in (v.cursor_x + 1) v.cursor_y v.width v.height v.size second_column
          (omega (arith, f.line)) f.room in
      let b = update v.screen_buffer at (cell_of v 32) in
      (
        record v {
          cursor_x = u16 (v.cursor_x + 2);
          screen_buffer = update b (1 + at) (cell_of v 32);
        },
        ground (arith, first, second),
        wrap_line-Fits _ (inr (omega (arith, second_column, f.wide), omega (arith, f.line)))
            (omega (arith, f.column)) f.some_line f.wide f.high f.room f.valid f.top f.wide_as
            f.high_as,
      )

  -- Scrolling by one line keeps everything but the buffer.
  pub scrolled-Fits : (v : Window) (b : ℕ → Cell) → Fits 0 v → Fits 0 (with_buffer v b)
  scrolled-Fits v b f = record {
    column = f.column;
    line = f.line;
    some_line = f.some_line;
    wide = f.wide;
    high = f.high;
    room = f.room;
    valid = f.valid;
    top = f.top;
    wide_as = f.wide_as;
    high_as = f.high_as;
  }
