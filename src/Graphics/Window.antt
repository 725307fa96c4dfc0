-- ===== src/Graphics/Window.antt =====
-- TomatKernel/core/graphics/window.h and window.c, lines 304-654: the windows. A `window_t*` is an
-- address; text is a list of bytes.
pub mod Syscalls
pub mod Scroll
pub mod Fits
pub mod Write
pub mod Native
pub mod Home
pub mod Create
pub mod Registered
mod Tests
use tomat_os_old.Common.{
  ℕ, zero, suc, ◌+◌, ◌-◌, ◌*◌, ◌/◌, ◌^◌, ◌%◌, Bool, true, false, not, ◌&&◌, ◌||◌, List, [], ◌∷◌,
  ltb, leb, ◌==◌, if◌then◌else◌, update, u16, Run, done, fault, hang, ◌>>=◌,
}

-- `cell_t`; the colours are fields of 4 bits.
pub record Cell : Type 0 where
  pub chr : ℕ
  pub fg : ℕ
  pub bg : ℕ

-- `window_t`. The buffer's cells are part of the record, with their number `size`; an access outside
-- of them is `fault`.
pub record Window : Type 0 where
  pub magic : ℕ
  pub parent : ℕ
  pub uid : ℕ
  pub x : ℕ
  pub y : ℕ
  pub width : ℕ
  pub height : ℕ
  pub cursor_x : ℕ
  pub cursor_y : ℕ
  pub bg_col : ℕ
  pub fg_col : ℕ
  pub visible : Bool
  pub screen_buffer : ℕ → Cell
  pub size : ℕ

-- The memory read as windows, the address of the native window, the linker's symbols, and the
-- position that the VGA cursor registers hold.
pub record Desktop : Type 0 where
  pub window : ℕ → Window
  pub native : ℕ
  pub kernel_start : ℕ
  pub kernel_end : ℕ
  pub vga_cursor : ℕ

abbrev pub window_magic : ℕ
window_magic = 0xDEADBEEF

-- IS_WINDOW, with IS_KERNEL_POINTER of kernel.h.
pub is_window : Desktop → ℕ → Bool
is_window d w =
    leb w (d.kernel_end + 52428800) && leb d.kernel_start w && ((d.window w).magic == window_magic)

abbrev pub set_window : ℕ → Window → Desktop → Desktop
set_window w v d = record d { window = update d.window w v }

-- for (i = from; i < from + count; i++) body
unfoldable pub for_from {ℓ} : {S : Type ℓ} → (count i : ℕ) → (ℕ → S → Run S) → S → Run S
for_from zero i body s = done s
for_from (suc n) i body s = body i s >>= for_from n (i + 1) body

-- screen_buffer[i] = cell
pub put : ℕ → Cell → Window → Run Window
put i cell v =
    if ltb i v.size
    then done (record v { screen_buffer = update v.screen_buffer i cell })
    else fault

pub peek : Window → ℕ → Run Cell
peek v i = if ltb i v.size then done (v.screen_buffer i) else fault

-- A character in the window's colours.
abbrev pub cell_of : Window → ℕ → Cell
cell_of v c = record { chr = c; fg = v.fg_col % 16; bg = v.bg_col % 16 }

abbrev pub minimum : ℕ → ℕ → ℕ
minimum a b = if ltb a b then a else b

-- MIN(own, parent - own + at) on `int`, stored as a uint16_t.
pub clip : (own parent at : ℕ) → ℕ
clip own parent at =
    if ltb (parent + at) own
    then u16 (parent + at + 2 ^ 16 - own)
    else minimum own (parent + at - own)

-- The loops of `window_redraw`.
pub draw : (width height : ℕ) → Window → Window → Run Window
draw width height v = for_from height 0 (λ y. for_from width 0 (λ x p.
    peek v (x + y * v.width) >>= (λ cell. put (u16 (v.x + x) + u16 (v.y + y) * p.width) cell p)))

pub window_redraw : ℕ → Desktop → Run Desktop
window_redraw w d =
    let v = d.window w in
    let p = d.window v.parent in
    if not (is_window d w) || w == d.native || not v.visible
    then done d
    else draw (clip v.width p.width v.x) (clip v.height p.height v.y) v p
      >>= (λ p. done (set_window v.parent p d))

-- if (window->visible) window_redraw(window);
pub redraw_visible : ℕ → Desktop → Run Desktop
redraw_visible w d = if (d.window w).visible then window_redraw w d else done d

-- Runs `change` on a valid window and draws it.
abbrev on_window : ℕ → (Window → Run Window) → Desktop → Run Desktop
on_window w change d =
    if is_window d w
    then change (d.window w) >>= (λ v. redraw_visible w (set_window w v d))
    else done d

-- The loops of `window_scroll`; with more lines than the window has nothing is copied.
pub scroll_lines : ℕ → Window → Run Window
scroll_lines n v =
    for_from ((v.height - n) * v.width) 0
      (λ i s. peek s (i + n * v.width) >>= (λ cell. put i cell s)) v
    >>= (λ s. for_from (n * v.width) 0 (λ i s. put i (cell_of s 0) s) s)

pub window_scroll : ℕ → (n : ℕ) → Desktop → Run Desktop
window_scroll w n d = on_window w (scroll_lines n) d

pub window_clear : ℕ → Desktop → Run Desktop
window_clear w d =
    on_window w (λ v. for_from (v.width * v.height) 0 (λ i v. put i (cell_of v 0) v) v) d

pub window_clear_line : ℕ → (n : ℕ) → Desktop → Run Desktop
window_clear_line w n d =
    on_window w (λ v. for_from v.width (n * v.width) (λ i v. put i (cell_of v 0) v) v) d

-- `window_set_cursor_pos`, with `update_native_cursor` at the end of the chain of parents; `depth`
-- bounds the chain.
pub window_set_cursor_pos : (depth : ℕ) → ℕ → (x y : ℕ) → Desktop → Run Desktop
window_set_cursor_pos zero w x y d = hang
window_set_cursor_pos (suc depth) w x y d =
    let v = record (d.window w) { cursor_x = x; cursor_y = y } in
    let d' = set_window w v d in
    let native = d'.window d'.native in
    let up = window_set_cursor_pos depth v.parent (u16 (x + v.x)) (u16 (y + v.y)) d' in
    if not (is_window d w)
    then done d
    else if v.parent == 0
    then done
        (record d' { vga_cursor = (native.cursor_x + native.cursor_y * native.width) % 2 ^ 16 })
    else up

-- The `switch` in the loop of `window_write`: 10 is '\n' and 9 is '\t'.
pub write_char : ℕ → Window → Run Window
write_char c v =
    let at = v.cursor_x + v.cursor_y * v.width in
    if c == 10
    then done (record v { cursor_y = u16 (v.cursor_y + 1); cursor_x = 0 })
    else if c == 9
    then put at (cell_of v 32) v
      >>= (λ v. put (1 + at) (cell_of v 32) v)
      >>= (λ v. done (record v { cursor_x = u16 (v.cursor_x + 2) }))
    else put at (cell_of v c) v >>= (λ v. done (record v { cursor_x = u16 (v.cursor_x + 1) }))

-- go to next line if needed
pub wrap_line : Window → Window
wrap_line v =
    if leb v.width v.cursor_x then record v { cursor_y = u16 (v.cursor_y + 1); cursor_x = 0 } else v

-- scroll if needed
pub scroll_if_needed : ℕ → Desktop → Run Desktop
scroll_if_needed w d =
    let v = d.window w in
    if leb v.height v.cursor_y
    then window_scroll w 1
        (set_window w (record v { cursor_y = u16 (v.cursor_y + 2 ^ 16 - 1); cursor_x = 0 }) d)
    else done d

-- while (*text != 0)
pub write_text : List ℕ → ℕ → Desktop → Run Desktop
write_text [] w d = done d
write_text (c ∷ text) w d =
    write_char c (d.window w)
    >>= (λ v. scroll_if_needed w (set_window w (wrap_line v) d))
    >>= write_text text w

pub window_write : (depth : ℕ) → ℕ → List ℕ → Desktop → Run Desktop
window_write depth w text d =
    if not (is_window d w)
    then done d
    else write_text text w d
      >>= (λ d. window_set_cursor_pos depth w (d.window w).cursor_x (d.window w).cursor_y d)
      >>= redraw_visible w

-- `at` is the block that the first `malloc` returns, with the contents `old`; the second one's
-- cells are those of `old`.
pub window_create :
    (at : ℕ) (old : Window) (parent x y width height : ℕ) (visible : Bool) → Desktop → Desktop
window_create at old parent x y width height visible d =
    let parent = if parent == 0 || not (is_window d parent) then d.native else parent in
    let v : Window = record old {
      magic = window_magic;
      parent = parent;
      x = x;
      y = y;
      width = width;
      height = height;
      fg_col = 0;
      bg_col = 0xF;
      visible = visible;
      size = width * height;
    } in
    set_window at v d

-- The whole window is cleared, the pointer to its buffer too, before the two calls of `free`.
pub window_delete : ℕ → Desktop → Desktop
window_delete w d =
    let v = record (d.window w) {
      magic = 0;
      parent = 0;
      uid = 0;
      x = 0;
      y = 0;
      width = 0;
      height = 0;
      cursor_x = 0;
      cursor_y = 0;
      bg_col = 0;
      fg_col = 0;
      visible = false;
      size = 0;
    } in
    if not (is_window d w) || w == d.native then d else set_window w v d

pub window_set_text_color : ℕ → (color : ℕ) → Desktop → Desktop
window_set_text_color w color d =
    if is_window d w then set_window w (record (d.window w) { fg_col = color }) d else d

pub window_set_background_color : ℕ → (color : ℕ) → Desktop → Desktop
window_set_background_color w color d =
    if is_window d w then set_window w (record (d.window w) { bg_col = color }) d else d

-- The getters answer 0 for what is no window.
pub window_get_text_color : Desktop → ℕ → ℕ
window_get_text_color d w = if is_window d w then (d.window w).fg_col else 0

pub window_get_background_color : Desktop → ℕ → ℕ
window_get_background_color d w = if is_window d w then (d.window w).bg_col else 0

pub window_get_cursor_x : Desktop → ℕ → ℕ
window_get_cursor_x d w = if is_window d w then (d.window w).cursor_x else 0

pub window_get_cursor_y : Desktop → ℕ → ℕ
window_get_cursor_y d w = if is_window d w then (d.window w).cursor_y else 0

pub window_get_width : Desktop → ℕ → ℕ
window_get_width d w = if is_window d w then (d.window w).width else 0

pub window_get_height : Desktop → ℕ → ℕ
window_get_height d w = if is_window d w then (d.window w).height else 0

pub window_get_x : Desktop → ℕ → ℕ
window_get_x d w =
    if not (is_window d w) then 0 else if w == d.native then 0 else (d.window w).cursor_x

pub window_get_y : Desktop → ℕ → ℕ
window_get_y d w =
    if not (is_window d w) then 0 else if w == d.native then 0 else (d.window w).cursor_y

pub window_set_visible : ℕ → Bool → Desktop → Run Desktop
window_set_visible w vis d =
    let d' = set_window w (record (d.window w) { visible = vis }) d in
    if not (is_window d w) || w == d.native
    then done d
    else if vis
    then window_redraw w d'
    else done d'

-- MIN(a, b - 1) on `int`, stored as a uint16_t.
abbrev pub below_edge : ℕ → ℕ → ℕ
below_edge a b = if b == 0 then u16 (2 ^ 16 - 1) else u16 (minimum a (b - 1))

pub window_restore_cursor : ℕ → Desktop → Desktop
window_restore_cursor w d =
    let v = d.window w in
    let p = d.window v.parent in
    let p' = record p {
      cursor_x = below_edge (v.x + v.cursor_x) p.width;
      cursor_y = below_edge (v.y + v.cursor_y) p.height;
    } in
    if not (is_window d w) || w == d.native then d else set_window v.parent p' d

-- The new buffer of `window_reposition`; `fresh` is what `malloc` returns.
pub resize : (fresh : ℕ → Cell) (width height : ℕ) → Window → Run Window
resize fresh width height v =
    let new : Window = record v {
      screen_buffer = fresh;
      size = width * height;
      width = width;
      height = height;
    } in
    if v.width == width && v.height == height
    then done v
    else for_from (minimum height v.height) 0
        (λ cy.
          for_from (minimum width v.width) 0
            (λ cx new. peek v (cx + cy * v.width) >>= (λ cell. put (cx + cy * width) cell new)))
        new

pub window_reposition : (fresh : ℕ → Cell) → ℕ → (x y width height : ℕ) → Desktop → Run Desktop
window_reposition fresh w x y width height d =
    if not (is_window d w) || w == d.native
    then done d
    else resize fresh width height (d.window w)
      >>= (λ v. redraw_visible w (set_window w (record v { x = x; y = y }) d))
