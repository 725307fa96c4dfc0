-- ===== src/Graphics.antt =====
-- TomatKernel/core/graphics: the windows.
pub mod Window
pub mod Machine
pub mod Terminal
