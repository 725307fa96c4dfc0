-- ===== src/Graphics/Terminal/Ready.antt =====
-- The terminal on the native window: after `term_init`, sequences of the functions of term.c.
use tomat_os_old.Common.{
  ℕ, suc, ◌+◌, ◌≤◌, ◌<◌, ◌≡◌, ◌≢◌, refl, sym, List, [], ◌∷◌, All, Run, done, ◌>>=◌, if◌then◌else◌,
  Bool-cases, inl, inr, arith, update_self,
}
use mathlib.Core.Path.{subst}
use tomat_os_old.Graphics.Window.{is_window, Cell, Desktop}
use tomat_os_old.Graphics.Window.Fits.{Fits}
use tomat_os_old.Graphics.Window.Write.{IsNative, window_scroll-IsNative}
use tomat_os_old.Graphics.Window.Native.{
  window_clear-IsNative, window_clear_line-IsNative, window_set_text_color-IsNative,
  window_set_background_color-IsNative, window_set_cursor_pos-IsNative, window_write-IsNative,
  window_write-invalid,
}
use tomat_os_old.Graphics.Terminal.{
  Terminal, native_term_width, native_term_height, with_desktop, term_init, term_write, term_clear,
  term_set_text_color, term_set_background_color, term_set_cursor_pos, term_scroll, term_clear_line,
  term_redirect, native_window,
}

-- The functions of term.c that draw, with their arguments.
pub data Operation : Type 0 where
  write : List ℕ → Operation
  clear : Operation
  set_text_color set_background_color : (color : ℕ) → Operation
  set_cursor_pos : (x y : ℕ) → Operation
  scroll clear_line : (n : ℕ) → Operation

-- `depth` bounds the chain of parents.
perform : (depth : ℕ) → Operation → Terminal → Run Terminal
perform depth (write text) s = term_write depth text s
perform depth clear s = term_clear s
perform depth (set_text_color color) s = done (term_set_text_color color s)
perform depth (set_background_color color) s = done (term_set_background_color color s)
perform depth (set_cursor_pos x y) s = term_set_cursor_pos depth x y s
perform depth (scroll n) s = term_scroll n s
perform depth (clear_line n) s = term_clear_line n s

pub perform_all : (depth : ℕ) → List Operation → Terminal → Run Terminal
perform_all depth [] s = done s
perform_all depth (o ∷ os) s = perform depth o s >>= perform_all depth os

-- Arguments that stay on the screen: no tab in a text, a place on the screen, no more lines than the
-- screen has.
abbrev pub IsOnScreen : Operation → Type 0
IsOnScreen (write text) = All (λ c. c ≢ 9) text
IsOnScreen clear = Unit
IsOnScreen (set_text_color color) = Unit
IsOnScreen (set_background_color color) = Unit
IsOnScreen (set_cursor_pos x y) = (x < native_term_width) × (y < native_term_height)
IsOnScreen (scroll n) = n ≤ native_term_height
IsOnScreen (clear_line n) = n < native_term_height

-- The terminal writes to the native window, whose cursor is on the screen.
unfoldable pub IsReady : Terminal → Type 0
IsReady s = IsNative native_term_width native_term_height 0 s.current s.desktop

with-IsReady :
    {r : Run Desktop} (s : Terminal)
    → (d' : Desktop) × (r ≡ done d') × IsNative native_term_width native_term_height 0 s.current d'
    → (s' : Terminal) × (with_desktop s r ≡ done s') × IsReady s'
unfolding IsReady
with-IsReady s (d', run, n) = (record s { desktop = d' }, rw run refl, n)

perform-IsReady :
    (depth : ℕ) (o : Operation) (s : Terminal)
    → IsOnScreen o
    → IsReady s
    → (s' : Terminal) × (perform (suc depth) o s ≡ done s') × IsReady s'
unfolding perform IsReady term_write term_clear term_set_text_color term_set_background_color
    term_set_cursor_pos term_scroll term_clear_line
perform-IsReady depth (write text) s ok n =
    with-IsReady s (window_write-IsNative 80 25 text depth s.current s.desktop ok n)
perform-IsReady depth clear s ok n =
    with-IsReady s (window_clear-IsNative 80 25 s.current s.desktop n)
perform-IsReady depth (set_text_color color) s ok n =
    (_, refl, window_set_text_color-IsNative 80 25 s.current color s.desktop n)
perform-IsReady depth (set_background_color color) s ok n =
    (_, refl, window_set_background_color-IsNative 80 25 s.current color s.desktop n)
perform-IsReady depth (set_cursor_pos x y) s (column, line) n =
    with-IsReady s
      (window_set_cursor_pos-IsNative 80 25 depth s.current x y s.desktop column line n)
perform-IsReady depth (scroll n) s ok ready = with-IsReady s (
    window_scroll-IsNative 80 25 n s.current s.desktop (omega (arith, ok, ready.fits.high_as))
      ready)
perform-IsReady depth (clear_line n) s ok ready =
    with-IsReady s (window_clear_line-IsNative 80 25 n s.current s.desktop ok ready)

all_steps :
    (depth : ℕ) (o : Operation) (os : List Operation) (s s1 s2 : Terminal)
    → perform depth o s ≡ done s1
    → perform_all depth os s1 ≡ done s2
    → perform_all depth (o ∷ os) s ≡ done s2
unfolding perform_all
all_steps depth o os s s1 s2 first rest = rw first rest

-- `term_init`, with video memory for the screen, leaves the terminal ready if the kernel's symbols
-- hold the address of the native window.
pub term_init-IsReady :
    (cells : ℕ → Cell) (room : ℕ) (s : Terminal)
    → 2000 ≤ room
    → s.desktop.kernel_start ≤ s.desktop.native
    → s.desktop.native ≤ s.desktop.kernel_end + 52428800
    → IsReady (term_init cells room s)
unfolding IsReady term_init native_window
term_init-IsReady cells room s enough low_end high_end = record {
  native = refl;
  low_end = low_end;
  high_end = high_end;
  fits =
      subst (Fits native_term_width native_term_height 0)
        (sym (update_self s.desktop.window s.desktop.native (native_window cells room)))
        (record {
          column = omega arith;
          line = omega arith;
          some_line = omega arith;
          wide = omega arith;
          high = omega arith;
          room = enough;
          valid = refl;
          top = refl;
          wide_as = refl;
          high_as = refl;
        });
}

perform_all-IsReady :
    (depth : ℕ) (os : List Operation) (s : Terminal)
    → All IsOnScreen os
    → IsReady s
    → (s' : Terminal) × (perform_all (suc depth) os s ≡ done s') × IsReady s'
unfolding perform_all
perform_all-IsReady depth [] s ok ready = (s, refl, ready)
perform_all-IsReady depth (o ∷ os) s (ok, oks) ready =
    let (s1, first, ready1) = perform-IsReady depth o s ok ready in
    let (s2, rest, ready2) = perform_all-IsReady depth os s1 oks ready1 in
    (s2, all_steps (suc depth) o os s s1 s2 first rest, ready2)

-- After `term_init`, with video memory for 2000 cells and the native window where IS_WINDOW
-- looks for windows, every sequence of the drawing functions of the terminal whose arguments stay on the screen
-- (no tab in a text, cursor positions on the screen, at most 25 lines to scroll, a line of the screen
-- to clear) returns, and the terminal still writes to the native window, with the cursor on the screen.
pub init-perform_all :
    (depth : ℕ) (os : List Operation) (cells : ℕ → Cell) (room : ℕ) (s : Terminal)
    → 2000 ≤ room
    → s.desktop.kernel_start ≤ s.desktop.native
    → s.desktop.native ≤ s.desktop.kernel_end + 52428800
    → All IsOnScreen os
    → (s' : Terminal) × (perform_all (suc depth) os (term_init cells room s) ≡ done s') × IsReady s'
init-perform_all depth os cells room s enough low_end high_end ok =
    perform_all-IsReady depth os (term_init cells room s) ok
      (term_init-IsReady cells room s enough low_end high_end)

-- `term_redirect` never makes the terminal write to another window: with a valid window its argument is
-- ignored, and what is written goes where it went before; with anything else what is written is lost.
pub term_write-term_redirect :
    (depth window : ℕ) (text : List ℕ) (s : Terminal)
    → (let s' = (term_redirect window s).1 in
        term_write depth text s'
        ≡ (if is_window s.desktop window then term_write depth text s else done s'))
unfolding term_redirect term_write
term_write-term_redirect depth window text s = elim (Bool-cases (is_window s.desktop window)) [
  | inl valid ↦ ground (arith, valid)
  | inr invalid ↦ ground (arith, invalid, window_write-invalid depth window text s.desktop invalid)
]
