-- ===== src/Graphics/Window/Create.antt =====
-- A new window, and what is asked of an address below the kernel (window.c, lines 317-350 and 579-588).
use tomat_os_old.Common.{ℕ, ◌<◌, ◌≡◌, refl, Bool, true, false, done, arith}
use tomat_os_old.Graphics.Window.{
  Window, Desktop, is_window, set_window, window_create, window_set_visible,
}

-- What `syscall_create` leaves of the windows for a process in the foreground.
abbrev pub created : (at uid : ℕ) → Window → (parent x y width height : ℕ) → Desktop → Desktop
created at uid old parent x y width height d =
    let d' = window_create at old parent x y width height true d in
    set_window at (record (d'.window at) { uid = uid }) d'

pub created_visible :
    (at uid : ℕ) (old : Window) (parent x y width height : ℕ) (d : Desktop)
    → ((created at uid old parent x y width height d).window at).visible ≡ true
unfolding window_create
created_visible at uid old parent x y width height d = ground arith

pub created_start :
    (at uid : ℕ) (old : Window) (parent x y width height : ℕ) (d : Desktop)
    → (created at uid old parent x y width height d).kernel_start ≡ d.kernel_start
unfolding window_create
created_start at uid old parent x y width height d = refl

below_kernel : (w : ℕ) (d : Desktop) → w < d.kernel_start → is_window d w ≡ false
unfolding is_window
below_kernel w d low = ground (arith, low)

-- An address below the kernel is no window, and stays as it is.
pub window_set_visible_low :
    (w : ℕ) (vis : Bool) (d : Desktop) → w < d.kernel_start → window_set_visible w vis d ≡ done d
unfolding window_set_visible
window_set_visible_low w vis d low = rw (window_set_visible, below_kernel w d low) refl
