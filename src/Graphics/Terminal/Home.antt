-- ===== src/Graphics/Terminal/Home.antt =====
-- Sequences of operations on a ready terminal that write tabs at the beginning of a line.
use tomat_os_old.Common.{
  ℕ, suc, ◌≡◌, refl, ap, ◌∙◌, Bool, true, false, List, Run, done, ◌>>=◌, arith,
}
use tomat_os_old.Graphics.Window.Home.{tame, ends_home, window_write-tame}
use tomat_os_old.Graphics.Window.Native.{
  window_clear-IsNative, window_set_text_color-IsNative, window_set_background_color-IsNative,
  set_cursor_pos_column,
}
use tomat_os_old.Graphics.Terminal.{
  Terminal, with_desktop, term_write, term_clear, term_set_text_color, term_set_background_color,
  term_set_cursor_pos,
}
use tomat_os_old.Graphics.Terminal.Ready.{IsReady}

-- If `home` holds, the cursor stands at the beginning of a line.
pub AtHome : Bool → Terminal → Type 0
AtHome home s = home ≡ true → (s.desktop.window s.current).cursor_x ≡ 0

-- On a ready terminal the operation returns, and leaves a ready one; `home` and `after` say whether the
-- cursor stands at the beginning of a line before and behind it.
pub Keeps : (home after : Bool) → (Terminal → Run Terminal) → Type 0
Keeps home after f =
    (s : Terminal)
    → IsReady s
    → AtHome home s
    → (s' : Terminal) × (f s ≡ done s') × IsReady s' × AtHome after s'

nowhere : (s : Terminal) → AtHome false s
unfolding AtHome
nowhere s e = ground (arith, e)

pub Keeps-runs :
    (f : Terminal → Run Terminal) (after : Bool)
    → Keeps false after f
    → (s : Terminal) → IsReady s
    → (s' : Terminal) × (f s ≡ done s') × IsReady s'
unfolding Keeps
Keeps-runs f after k s ready =
    let (s', run, ready', at) = k s ready (nowhere s) in (s', run, ready')

pub Keeps-bind :
    (home middle after : Bool) (f g : Terminal → Run Terminal)
    → Keeps home middle f
    → Keeps middle after g
    → Keeps home after (λ s. f s >>= g)
unfolding Keeps
Keeps-bind home middle after f g k l s ready at =
    let (s1, run1, ready1, at1) = k s ready at in
    let (s2, run2, ready2, at2) = l s1 ready1 at1 in
    (s2, ap (λ r. r >>= g) run1 ∙ run2, ready2, at2)

-- Nothing is known of the column behind an operation, or needed of the one before it.
pub forget :
    (home after : Bool) (f : Terminal → Run Terminal) → Keeps home after f → Keeps home false f
unfolding Keeps
forget home after f k s ready at =
    let (s', run, ready', at') = k s ready at in (s', run, ready', nowhere s')

pub anywhere :
    (home after : Bool) (f : Terminal → Run Terminal) → Keeps false after f → Keeps home after f
unfolding Keeps
anywhere home after f k s ready at = k s ready (nowhere s)

pub Keeps-same :
    (home after : Bool) (f g : Terminal → Run Terminal)
    → ((s : Terminal) → f s ≡ g s)
    → Keeps home after g
    → Keeps home after f
unfolding Keeps
Keeps-same home after f g same k s ready at =
    let (s', run, ready', at') = k s ready at in (s', same s ∙ run, ready', at')

pub stays : Keeps false false (λ s. done s)
unfolding Keeps
stays s ready at = (s, refl, ready, at)

pub term_write-Keeps :
    (text : List ℕ) (home : Bool) (depth : ℕ)
    → tame home text ≡ true
    → Keeps home (ends_home home text) (term_write (suc depth) text)
unfolding Keeps AtHome IsReady term_write
term_write-Keeps text home depth is_tame s ready at =
    let (d', run, n, ends) =
      window_write-tame 80 25 text home depth s.current s.desktop (omega arith) is_tame at ready in
    (record s { desktop = d' }, ap (with_desktop s) run, n, ends)

pub term_clear-Keeps : Keeps false false term_clear
unfolding Keeps IsReady term_clear
term_clear-Keeps s ready at =
    let (d', run, n) = window_clear-IsNative 80 25 s.current s.desktop ready in
    (record s { desktop = d' }, ap (with_desktop s) run, n, nowhere (record s { desktop = d' }))

pub term_set_cursor_pos-Keeps : (depth : ℕ) → Keeps false true (term_set_cursor_pos (suc depth) 0 0)
unfolding Keeps AtHome IsReady term_set_cursor_pos
term_set_cursor_pos-Keeps depth s ready at =
    let (d', run, n, column) =
      set_cursor_pos_column 80 25 depth s.current 0 0 s.desktop (omega arith) (omega arith) ready in
    (record s { desktop = d' }, ap (with_desktop s) run, n, λ e. column)

pub term_set_text_color-Keeps :
    (color : ℕ) → Keeps false false (λ s. done (term_set_text_color color s))
unfolding Keeps IsReady term_set_text_color
term_set_text_color-Keeps color s ready at = (
  term_set_text_color color s,
  refl,
  window_set_text_color-IsNative 80 25 s.current color s.desktop ready,
  nowhere (term_set_text_color color s),
)

pub term_set_background_color-Keeps :
    (color : ℕ) → Keeps false false (λ s. done (term_set_background_color color s))
unfolding Keeps IsReady term_set_background_color
term_set_background_color-Keeps color s ready at = (
  term_set_background_color color s,
  refl,
  window_set_background_color-IsNative 80 25 s.current color s.desktop ready,
  nowhere (term_set_background_color color s),
)
