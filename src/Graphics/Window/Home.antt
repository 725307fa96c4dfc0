-- ===== src/Graphics/Window/Home.antt =====
-- Texts with tabs on the native window: a tab at the beginning of a line stays on the screen.
use tomat_os_old.Common.{
  ℕ, suc, ◌≤◌, ◌<◌, ◌≡◌, refl, ap, ◌∙◌, sym, inl, inr, Bool, true, ◌&&◌, ◌==◌, if◌then◌else◌, List,
  [], ◌∷◌, Run, done, panic, fault, hang, arith, Bool-cases, update_self, ==→eq,
}
use tomat_os_old.Graphics.Window.{
  Window, Desktop, set_window, write_char, wrap_line, write_text, window_write,
}
use tomat_os_old.Graphics.Window.Fits.{Fits, write_char-Fits, write_char-tab}
use tomat_os_old.Graphics.Window.Write.{
  IsNative, IsNative-is_window, set-IsNative, scroll_if_needed-IsNative, text_steps, redraw_native,
}
use tomat_os_old.Graphics.Window.Native.{set_cursor_pos_column, write_steps}

-- Whether each tab of a text stands at the beginning of a line, if the text itself stands there when
-- `home` holds.
unfoldable pub tame : (home : Bool) → List ℕ → Bool
tame home [] = true
tame home (c ∷ text) = let rest = tame (c == 10) text in if c == 9 then home && rest else rest

-- Whether the text ends at the beginning of a line.
unfoldable pub ends_home : (home : Bool) → List ℕ → Bool
ends_home home [] = home
ends_home home (c ∷ text) = ends_home (c == 10) text

newline_home :
    (v : Window)
    → 0 < v.width
    → (v' : Window) × (write_char 10 v ≡ done v') × ((wrap_line v').cursor_x ≡ 0)
unfolding write_char wrap_line
newline_home v some_column = (_, refl, ground (arith, some_column))

result : Window → Run Window → Window
result v (done v') = v'
result v panic = v
result v fault = v
result v hang = v

newline_ends :
    (c : ℕ) (v v' : Window)
    → 0 < v.width
    → write_char c v ≡ done v'
    → (c == 10) ≡ true
    → (wrap_line v').cursor_x ≡ 0
unfolding result
newline_ends c v v' some_column run newline =
    let (v'', run'', home) = newline_home v some_column in
    let same : v'' ≡ v' =
      ap (result v) (sym run'' ∙ ap (λ c. write_char c v) (sym (==→eq c 10 newline)) ∙ run) in
    ap (λ u. (wrap_line u).cursor_x) (sym same) ∙ home

split_tame :
    (c : ℕ) (home : Bool) (text : List ℕ)
    → tame home (c ∷ text) ≡ true
    → (tame home (c ∷ []) ≡ true) × (tame (c == 10) text ≡ true)
unfolding tame
split_tame c home text is_tame = (ground (arith, is_tame), ground (arith, is_tame))

module _ (columns lines : ℕ) where
  char-Fits :
      (c : ℕ) (home : Bool) (v : Window)
      → 2 ≤ columns
      → tame home (c ∷ []) ≡ true
      → (home ≡ true → v.cursor_x ≡ 0)
      → Fits columns lines 0 v
      → (v' : Window) × (write_char c v ≡ done v')
        × Fits columns lines 1 (wrap_line v')
        × ((c == 10) ≡ true → (wrap_line v').cursor_x ≡ 0)
  unfolding tame write_char wrap_line
  char-Fits c home v enough is_tame at_home f = elim (Bool-cases (c == 9)) [
    | inl tab ↦
        let (v', run, f') =
          write_char-tab columns lines v (at_home (ground (arith, tab, is_tame))) enough f in
        (
          v',
          ap (λ c. write_char c v) (==→eq c 9 tab) ∙ run,
          f',
          λ newline. ground (arith, tab, newline),
        )
    | inr other ↦
        let (v', run, f') = write_char-Fits columns lines c v (ground (arith, other)) f in
        (v', run, f', newline_ends c v v' (omega (arith, f.column)) run)
  ]

  -- A text whose tabs all stand at the beginning of a line is written on the native window, with the
  -- cursor on a cell again, at the beginning of a line if the text ends there.
  pub write_text-tame :
      (text : List ℕ) (home : Bool) (w : ℕ) (d : Desktop)
      → 2 ≤ columns
      → tame home text ≡ true
      → (home ≡ true → (d.window w).cursor_x ≡ 0)
      → IsNative columns lines 0 w d
      → (d' : Desktop) × (write_text text w d ≡ done d')
        × IsNative columns lines 0 w d'
        × (ends_home home text ≡ true → (d'.window w).cursor_x ≡ 0)
  unfolding write_text tame ends_home
  write_text-tame [] home w d enough is_tame at_home n = (d, refl, n, at_home)
  write_text-tame (c ∷ text) home w d enough is_tame at_home n =
      let (first, others) = split_tame c home text is_tame in
      let (v, wrote, f, newline) = char-Fits c home (d.window w) enough first at_home n.fits in
      let (d1, scrolled, n1, stays) =
        scroll_if_needed-IsNative columns lines w (set_window w (wrap_line v) d)
          (set-IsNative columns lines 1 (wrap_line v) n f) in
      let (d2, rest, n2, ends) =
        write_text-tame text (c == 10) w d1 enough others
          (λ e. stays (ap (λ u. u.cursor_x) (update_self d.window w (wrap_line v)) ∙ newline e))
          n1 in
      (d2, text_steps c text w d d1 d2 v wrote scrolled rest, n2, ends)

  pub window_write-tame :
      (text : List ℕ) (home : Bool) (depth w : ℕ) (d : Desktop)
      → 2 ≤ columns
      → tame home text ≡ true
      → (home ≡ true → (d.window w).cursor_x ≡ 0)
      → IsNative columns lines 0 w d
      → (d' : Desktop) × (window_write (suc depth) w text d ≡ done d')
        × IsNative columns lines 0 w d'
        × (ends_home home text ≡ true → (d'.window w).cursor_x ≡ 0)
  window_write-tame text home depth w d enough is_tame at_home n =
      let (d1, wrote, n1, ends) = write_text-tame text home w d enough is_tame at_home n in
      let f = n1.fits in
      let (d2, placed, n2, at) =
        set_cursor_pos_column columns lines depth w (d1.window w).cursor_x (d1.window w).cursor_y d1
          (omega (arith, f.column, f.wide_as)) (omega (arith, f.line, f.high_as)) n1 in
      let shown = redraw_native w d2 n2.native in
      (
        d2,
        write_steps text depth w d d1 d2 (IsNative-is_window columns lines n) wrote placed shown,
        n2,
        λ e. at ∙ ends e,
      )
