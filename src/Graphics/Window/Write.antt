-- ===== src/Graphics/Window/Write.antt =====
-- What `window_scroll` leaves in a window (window.c, lines 505-526), and where `window_write` leaves the
-- cursor of the native window (lines 361-409).
use tomat_os_old.Common.{
  ℕ, ◌+◌, ◌-◌, ◌*◌, ◌^◌, ◌≤◌, ◌<◌, ◌≡◌, ◌≢◌, inl, inr, refl, ap, sym, ◌∙◌, true, false, List, [],
  ◌∷◌, ◌⊎◌, ltb, if◌then◌else◌, All, leb, update_self, u16, done, fault, arith, Bool-cases,
}
use mathlib.Core.Path.{subst}
use native.Mathlib.Nat.{add-mul, mul_comm}
use tomat_os_old.Graphics.Window.{
  Cell, Window, Desktop, is_window, set_window, put, cell_of, scroll_lines, window_redraw,
  redraw_visible, window_scroll, write_char, wrap_line, scroll_if_needed, write_text,
}
use tomat_os_old.Graphics.Window.Scroll.{with_buffer, scroll_lines-lem}
use tomat_os_old.Graphics.Window.Fits.{Fits, write_char-Fits, scrolled-Fits}

redraw_own : (w : ℕ) (d : Desktop) → d.native ≡ w → window_redraw w d ≡ done d
unfolding window_redraw
redraw_own w d native = ground (arith, native)

pub redraw_native : (w : ℕ) (d : Desktop) → d.native ≡ w → redraw_visible w d ≡ done d
unfolding redraw_visible
redraw_native w d native = elim (Bool-cases (d.window w).visible) [
  | inr hidden ↦ ground (arith, hidden)
  | inl shown ↦ ground (arith, shown, redraw_own w d native)
]

scroll_steps :
    (n w : ℕ) (d : Desktop) (b : ℕ → Cell)
    → is_window d w ≡ true
    → d.native ≡ w
    → scroll_lines n (d.window w) ≡ done (with_buffer (d.window w) b)
    → window_scroll w n d ≡ done (set_window w (with_buffer (d.window w) b) d)
unfolding window_scroll
scroll_steps n w d b valid native run =
    rw (window_scroll, valid, run)
      (redraw_native w (set_window w (with_buffer (d.window w) b) d) native)

redraw_hidden :
    (w : ℕ) (d : Desktop) (v : Window)
    → v.visible ≡ false
    → redraw_visible w (set_window w v d) ≡ done (set_window w v d)
unfolding redraw_visible
redraw_hidden w d v hidden =
    rw (redraw_visible, ap (λ u. u.visible) (update_self d.window w v) ∙ hidden) refl

redraw_none :
    (w : ℕ) (d : Desktop) (v : Window)
    → (d.native ≡ w) ⊎ (v.visible ≡ false)
    → redraw_visible w (set_window w v d) ≡ done (set_window w v d)
redraw_none w d v (inl native) = redraw_native w (set_window w v d) native
redraw_none w d v (inr hidden) = redraw_hidden w d v hidden

-- On a window that is the native one or not visible, and whose buffer has at least `width * height`
-- cells, `window_scroll` by `n` lines up to its height returns, changes nothing but this window's
-- buffer, and then: the first `n` lines are blank, in the window's colours; the lines behind them, up
-- to the last `n`, hold what stood `n` lines below; and the last `n` lines are what they were, unless
-- they are among the first `n`.
pub window_scroll_lem :
    (w n : ℕ) (d : Desktop)
    → is_window d w ≡ true
    → (d.native ≡ w) ⊎ ((d.window w).visible ≡ false)
    → n ≤ (d.window w).height
    → (d.window w).width * (d.window w).height ≤ (d.window w).size
    → (let v = d.window w in
        (b : ℕ → Cell) × (window_scroll w n d ≡ done (set_window w (with_buffer v b) d))
        × ((j : ℕ)
            → b j ≡ (
                if ltb j (n * v.width)
                then cell_of v 0
                else if ltb j ((v.height - n) * v.width)
                then v.screen_buffer (j + n * v.width)
                else v.screen_buffer j)))
unfolding window_scroll
window_scroll_lem w n d valid quiet some_lines room =
    let (b, run, is) = scroll_lines-lem n (d.window w) some_lines room in
    (b, rw (window_scroll, valid, run) (redraw_none w d (with_buffer (d.window w) b) quiet), is)

scroll_below :
    (w : ℕ) (d d' : Desktop)
    → leb (d.window w).height (d.window w).cursor_y ≡ true
    → (let v : Window = record (d.window w) {
      cursor_y = u16 ((d.window w).cursor_y + 2 ^ 16 - 1);
      cursor_x = 0;
    } in
        window_scroll w 1 (set_window w v d) ≡ done d')
    → scroll_if_needed w d ≡ done d'
unfolding scroll_if_needed
scroll_below w d d' below run = rw (scroll_if_needed, below) run

scroll_within :
    (w : ℕ) (d : Desktop)
    → leb (d.window w).height (d.window w).cursor_y ≡ false
    → scroll_if_needed w d ≡ done d
unfolding scroll_if_needed
scroll_within w d within = rw (scroll_if_needed, within) refl

pub text_steps :
    (c : ℕ) (text : List ℕ) (w : ℕ) (d d1 d2 : Desktop) (v : Window)
    → write_char c (d.window w) ≡ done v
    → scroll_if_needed w (set_window w (wrap_line v) d) ≡ done d1
    → write_text text w d1 ≡ done d2
    → write_text (c ∷ text) w d ≡ done d2
unfolding write_text
text_steps c text w d d1 d2 v wrote scrolled rest = rw (wrote, scrolled) rest

-- The native window has `columns` cells on each of `lines` lines.
module _ (columns lines : ℕ) where
  -- The native window, in the place where the kernel keeps it.
  pub record IsNative (over : ℕ) (w : ℕ) (d : Desktop) : Type 0 where
    pub native : d.native ≡ w
    pub low_end : d.kernel_start ≤ w
    pub high_end : w ≤ d.kernel_end + 52428800
    pub fits : Fits columns lines over (d.window w)

  pub IsNative-is_window : {over w : ℕ} {d : Desktop} → IsNative over w d → is_window d w ≡ true
  unfolding is_window
  IsNative-is_window n = ground (arith, n.low_end, n.high_end, n.fits.valid)

  pub set-IsNative :
      {over w : ℕ} {d : Desktop} (over' : ℕ) (v : Window)
      → IsNative over w d
      → Fits columns lines over' v
      → IsNative over' w (set_window w v d)
  set-IsNative {w = w} {d} over' v n f = record {
    native = n.native;
    low_end = n.low_end;
    high_end = n.high_end;
    fits = subst (Fits columns lines over') (sym (update_self d.window w v)) f;
  }

  -- Scrolling leaves the cursor in its column.
  scroll_column :
      (count w : ℕ) (d : Desktop)
      → count ≤ (d.window w).height
      → IsNative 0 w d
      → (d' : Desktop) × (window_scroll w count d ≡ done d')
        × IsNative 0 w d'
        × ((d'.window w).cursor_x ≡ (d.window w).cursor_x)
  scroll_column count w d some_lines n =
      let (b, run, is) = scroll_lines-lem count (d.window w) some_lines n.fits.room in
      let v = with_buffer (d.window w) b in
      let n' = set-IsNative 0 v n (scrolled-Fits columns lines (d.window w) b n.fits) in
      (
        set_window w v d,
        scroll_steps count w d b (IsNative-is_window n) n.native run,
        n',
        ap (λ u. u.cursor_x) (update_self d.window w v),
      )

  pub window_scroll-IsNative :
      (count w : ℕ) (d : Desktop)
      → count ≤ (d.window w).height
      → IsNative 0 w d
      → (d' : Desktop) × (window_scroll w count d ≡ done d') × IsNative 0 w d'
  window_scroll-IsNative count w d some_lines n =
      let (d', run, n', same) = scroll_column count w d some_lines n in (d', run, n')

  -- A cursor at the beginning of a line stays at the beginning of one.
  pub scroll_if_needed-IsNative :
      (w : ℕ) (d : Desktop)
      → IsNative 1 w d
      → (d' : Desktop) × (scroll_if_needed w d ≡ done d')
        × IsNative 0 w d'
        × ((d.window w).cursor_x ≡ 0 → (d'.window w).cursor_x ≡ 0)
  scroll_if_needed-IsNative w d n =
      elim (Bool-cases (leb (d.window w).height (d.window w).cursor_y)) [
        | inl below ↦
            let v : Window = record (d.window w) {
              cursor_y = u16 ((d.window w).cursor_y + 2 ^ 16 - 1);
              cursor_x = 0;
            } in
            let f : Fits columns lines 0 v = record {
              column = omega (arith, n.fits.column);
              line = ground (arith, below, n.fits.line, n.fits.high, n.fits.some_line);
              some_line = n.fits.some_line;
              wide = n.fits.wide;
              high = n.fits.high;
              room = n.fits.room;
              valid = n.fits.valid;
              top = n.fits.top;
              wide_as = n.fits.wide_as;
              high_as = n.fits.high_as;
            } in
            let (d', run, n', same) =
              scroll_column 1 w (set_window w v d)
                (subst (λ u. 1 ≤ u.height) (sym (update_self d.window w v)) n.fits.some_line)
                (set-IsNative 0 v n f) in
            (
              d',
              scroll_below w d d' below run,
              n',
              λ home. same ∙ ap (λ u. u.cursor_x) (update_self d.window w v),
            )
        | inr within ↦ (
          d,
          scroll_within w d within,
          record {
            native = n.native;
            low_end = n.low_end;
            high_end = n.high_end;
            fits = record {
              column = n.fits.column;
              line = ground (arith, within);
              some_line = n.fits.some_line;
              wide = n.fits.wide;
              high = n.fits.high;
              room = n.fits.room;
              valid = n.fits.valid;
              top = n.fits.top;
              wide_as = n.fits.wide_as;
              high_as = n.fits.high_as;
            };
          },
          λ home. home,
        )
      ]

  -- Writing a text without a tab to the native window, which has no parent and whose buffer has
  -- `width * height` cells and whose cursor stands on one of them, returns, with the cursor on a cell of the window again.
  pub write_text-IsNative :
      (text : List ℕ) (w : ℕ) (d : Desktop)
      → All (λ c. c ≢ 9) text
      → IsNative 0 w d
      → (d' : Desktop) × (write_text text w d ≡ done d') × IsNative 0 w d'
  unfolding write_text
  write_text-IsNative [] w d no_tab n = (d, refl, n)
  write_text-IsNative (c ∷ text) w d (no_tab, no_tabs) n =
      let (v, wrote, f) = write_char-Fits columns lines c (d.window w) no_tab n.fits in
      let (d1, scrolled, n1, home) =
        scroll_if_needed-IsNative w (set_window w (wrap_line v) d)
          (set-IsNative 1 (wrap_line v) n f) in
      let (d2, rest, n2) = write_text-IsNative text w d1 no_tabs n1 in
      (d2, text_steps c text w d d1 d2 v wrote scrolled rest, n2)

-- A tab written on the last cell of a window, whose buffer has `width * height` cells, puts its second
-- space behind the end of the buffer.
write_char-fault :
    (v : Window)
    → v.cursor_x + 1 ≡ v.width
    → v.cursor_y + 1 ≡ v.height
    → v.size ≡ v.width * v.height
    → write_char 9 v ≡ fault
unfolding write_char put
write_char-fault v last_column last_line exact =
    let whole : (v.cursor_y + 1) * v.width ≡ v.width * v.height =
      ap (λ a. a * v.width) last_line ∙ mul_comm v.height v.width in
    let split = add-mul v.cursor_y 1 v.width in
    let first : v.cursor_x + v.cursor_y * v.width < v.size =
      omega (arith, whole, split, last_column, exact) in
    let second : v.size ≤ 1 + (v.cursor_x + v.cursor_y * v.width) =
      omega (arith, whole, split, last_column, exact) in
    ground (arith, first, second)
