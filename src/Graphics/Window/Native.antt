-- ===== src/Graphics/Window/Native.antt =====
-- What the other operations of window.c do to the native window: clearing, placing the cursor, the
-- colours, and the whole of `window_write`.
use tomat_os_old.Common.{
  ℕ, suc, ◌+◌, ◌*◌, ◌≤◌, ◌<◌, ◌≡◌, ◌≢◌, ◌-◌, refl, ◌^◌, ◌%◌, sym, ap, ◌∙◌, List, All, done, arith,
  update_self, true, false,
}
use mathlib.Core.Path.{subst}
use native.Mathlib.Nat.{add-mul, mul_comm}
use tomat_os_old.Graphics.Window.{
  Window, Cell, Desktop, is_window, set_window, for_from, put, cell_of, window_clear,
  window_clear_line, window_set_cursor_pos, window_set_text_color, window_set_background_color,
  write_text, window_write, redraw_visible,
}
use tomat_os_old.Graphics.Window.Scroll.{with_buffer, clears}
use tomat_os_old.Graphics.Window.Fits.{Fits, scrolled-Fits}
use tomat_os_old.Graphics.Window.Write.{
  IsNative, IsNative-is_window, set-IsNative, redraw_native, write_text-IsNative,
}

clear_steps :
    (w : ℕ) (d : Desktop) (b : ℕ → Cell)
    → is_window d w ≡ true
    → d.native ≡ w
    → (let v = d.window w in
        for_from (v.width * v.height) 0 (λ i v. put i (cell_of v 0) v) v ≡ done (with_buffer v b))
    → window_clear w d ≡ done (set_window w (with_buffer (d.window w) b) d)
unfolding window_clear
clear_steps w d b valid native run =
    rw (window_clear, valid, run)
      (redraw_native w (set_window w (with_buffer (d.window w) b) d) native)

line_steps :
    (n w : ℕ) (d : Desktop) (b : ℕ → Cell)
    → is_window d w ≡ true
    → d.native ≡ w
    → (let v = d.window w in
        for_from v.width (n * v.width) (λ i v. put i (cell_of v 0) v) v ≡ done (with_buffer v b))
    → window_clear_line w n d ≡ done (set_window w (with_buffer (d.window w) b) d)
unfolding window_clear_line
line_steps n w d b valid native run =
    rw (window_clear_line, valid, run)
      (redraw_native w (set_window w (with_buffer (d.window w) b) d) native)

-- The cells of line `n` are cells of the window.
line_in : (n w h size : ℕ) → n < h → w * h ≤ size → n * w + w ≤ size
line_in n w h size within room =
    let d = h - (n + 1) in
    let whole : d + (n + 1) ≡ h = omega (arith, within) in
    let total : (d + (n + 1)) * w ≡ w * h = ap (λ a. a * w) whole ∙ mul_comm h w in
    omega (arith, total, room, add-mul d (n + 1) w, add-mul n 1 w)

text_color_steps :
    (w color : ℕ) (d : Desktop)
    → is_window d w ≡ true
    → window_set_text_color w color d ≡ set_window w (record (d.window w) { fg_col = color }) d
unfolding window_set_text_color
text_color_steps w color d valid = rw (window_set_text_color, valid) refl

background_steps :
    (w color : ℕ) (d : Desktop)
    → is_window d w ≡ true
    → window_set_background_color w color d
      ≡ set_window w (record (d.window w) { bg_col = color }) d
unfolding window_set_background_color
background_steps w color d valid = rw (window_set_background_color, valid) refl

abbrev at_place : Window → (x y : ℕ) → Window
at_place v x y = record v { cursor_x = x; cursor_y = y }

cursor_steps :
    (depth w x y : ℕ) (d : Desktop)
    → is_window d w ≡ true
    → (d.window w).parent ≡ 0
    → (let d' = set_window w (at_place (d.window w) x y) d in
        let native = d'.window d'.native in
        window_set_cursor_pos (suc depth) w x y d
        ≡ done (record d' {
          vga_cursor = (native.cursor_x + native.cursor_y * native.width) % 2 ^ 16;
        }))
unfolding window_set_cursor_pos
cursor_steps depth w x y d valid top = rw (window_set_cursor_pos, valid, top) refl

pub write_steps :
    (text : List ℕ) (depth w : ℕ) (d d1 d2 : Desktop)
    → is_window d w ≡ true
    → write_text text w d ≡ done d1
    → window_set_cursor_pos (suc depth) w (d1.window w).cursor_x (d1.window w).cursor_y d1 ≡ done d2
    → redraw_visible w d2 ≡ done d2
    → window_write (suc depth) w text d ≡ done d2
unfolding window_write
write_steps text depth w d d1 d2 valid wrote placed shown =
    rw (window_write, valid, wrote, placed) shown

pub window_write-invalid :
    (depth w : ℕ) (text : List ℕ) (d : Desktop)
    → is_window d w ≡ false
    → window_write depth w text d ≡ done d
unfolding window_write
window_write-invalid depth w text d invalid = ground (arith, invalid)

module _ (columns lines : ℕ) where
  pub window_clear-IsNative :
      (w : ℕ) (d : Desktop)
      → IsNative columns lines 0 w d
      → (d' : Desktop) × (window_clear w d ≡ done d') × IsNative columns lines 0 w d'
  window_clear-IsNative w d n =
      let v = d.window w in
      let (b, run, is) = clears (v.width * v.height) 0 v (omega (arith, n.fits.room)) in
      (
        set_window w (with_buffer v b) d,
        clear_steps w d b (IsNative-is_window columns lines n) n.native run,
        set-IsNative columns lines 0 (with_buffer v b) n (scrolled-Fits columns lines v b n.fits),
      )

  pub window_clear_line-IsNative :
      (count w : ℕ) (d : Desktop)
      → count < lines
      → IsNative columns lines 0 w d
      → (d' : Desktop) × (window_clear_line w count d ≡ done d') × IsNative columns lines 0 w d'
  window_clear_line-IsNative count w d within n =
      let v = d.window w in
      let inside =
        line_in count v.width v.height v.size (omega (arith, within, n.fits.high_as)) n.fits.room in
      let (b, run, is) = clears v.width (count * v.width) v inside in
      (
        set_window w (with_buffer v b) d,
        line_steps count w d b (IsNative-is_window columns lines n) n.native run,
        set-IsNative columns lines 0 (with_buffer v b) n (scrolled-Fits columns lines v b n.fits),
      )

  fields-Fits :
      (v v' : Window)
      → v'.cursor_x < columns
      → v'.cursor_y < lines
      → v'.width ≡ v.width
      → v'.height ≡ v.height
      → v'.size ≡ v.size
      → v'.magic ≡ v.magic
      → v'.parent ≡ v.parent
      → Fits columns lines 0 v
      → Fits columns lines 0 v'
  fields-Fits v v' column line width height size magic parent f = record {
    column = omega (arith, column, width, f.wide_as);
    line = omega (arith, line, height, f.high_as);
    some_line = omega (arith, height, f.some_line);
    wide = omega (arith, width, f.wide);
    high = omega (arith, height, f.high);
    room = rw (width, height, size) f.room;
    valid = magic ∙ f.valid;
    top = parent ∙ f.top;
    wide_as = width ∙ f.wide_as;
    high_as = height ∙ f.high_as;
  }

  pub window_set_text_color-IsNative :
      (w color : ℕ) (d : Desktop)
      → IsNative columns lines 0 w d
      → IsNative columns lines 0 w (window_set_text_color w color d)
  window_set_text_color-IsNative w color d n =
      subst (IsNative columns lines 0 w)
        (sym (text_color_steps w color d (IsNative-is_window columns lines n)))
        (set-IsNative columns lines 0 (record (d.window w) { fg_col = color }) n
          (fields-Fits (d.window w) (record (d.window w) { fg_col = color })
            (omega (arith, n.fits.column, n.fits.wide_as))
            (omega (arith, n.fits.line, n.fits.high_as)) refl refl refl refl refl n.fits))

  pub window_set_background_color-IsNative :
      (w color : ℕ) (d : Desktop)
      → IsNative columns lines 0 w d
      → IsNative columns lines 0 w (window_set_background_color w color d)
  window_set_background_color-IsNative w color d n =
      subst (IsNative columns lines 0 w)
        (sym (background_steps w color d (IsNative-is_window columns lines n)))
        (set-IsNative columns lines 0 (record (d.window w) { bg_col = color }) n
          (fields-Fits (d.window w) (record (d.window w) { bg_col = color })
            (omega (arith, n.fits.column, n.fits.wide_as))
            (omega (arith, n.fits.line, n.fits.high_as)) refl refl refl refl refl n.fits))

  -- The cursor goes to the column that is asked for.
  pub set_cursor_pos_column :
      (depth w x y : ℕ) (d : Desktop)
      → x < columns
      → y < lines
      → IsNative columns lines 0 w d
      → (d' : Desktop) × (window_set_cursor_pos (suc depth) w x y d ≡ done d')
        × IsNative columns lines 0 w d'
        × ((d'.window w).cursor_x ≡ x)
  set_cursor_pos_column depth w x y d column line n =
      let v = at_place (d.window w) x y in
      let f : Fits columns lines 0 v =
        fields-Fits (d.window w) v column line refl refl refl refl refl n.fits in
      let n' = set-IsNative columns lines 0 v n f in
      let run = cursor_steps depth w x y d (IsNative-is_window columns lines n) n.fits.top in
      (
        _,
        run,
        record { native = n'.native; low_end = n'.low_end; high_end = n'.high_end; fits = n'.fits },
        ap (λ u. u.cursor_x) (update_self d.window w v),
      )

  pub window_set_cursor_pos-IsNative :
      (depth w x y : ℕ) (d : Desktop)
      → x < columns
      → y < lines
      → IsNative columns lines 0 w d
      → (d' : Desktop) × (window_set_cursor_pos (suc depth) w x y d ≡ done d')
        × IsNative columns lines 0 w d'
  window_set_cursor_pos-IsNative depth w x y d column line n =
      let (d', run, n', at) = set_cursor_pos_column depth w x y d column line n in (d', run, n')

  pub window_write-IsNative :
      (text : List ℕ) (depth w : ℕ) (d : Desktop)
      → All (λ c. c ≢ 9) text
      → IsNative columns lines 0 w d
      → (d' : Desktop) × (window_write (suc depth) w text d ≡ done d')
        × IsNative columns lines 0 w d'
  window_write-IsNative text depth w d no_tab n =
      let (d1, wrote, n1) = write_text-IsNative columns lines text w d no_tab n in
      let f = n1.fits in
      let (d2, placed, n2) =
        window_set_cursor_pos-IsNative depth w (d1.window w).cursor_x (d1.window w).cursor_y d1
          (omega (arith, f.column, f.wide_as)) (omega (arith, f.line, f.high_as)) n1 in
      let shown = redraw_native w d2 n2.native in
      (
        d2,
        write_steps text depth w d d1 d2 (IsNative-is_window columns lines n) wrote placed shown,
        n2,
      )
