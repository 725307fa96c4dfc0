-- ===== src/Memory.antt =====
-- TomatKernel/core/memory: the physical page bitmap, the page directories and the heap.
pub mod Bitmap
pub mod Heap
pub mod Directory
