-- ===== src/User.antt =====
-- TomatLib/tomato: the library of the programs.
pub mod Kinds
pub mod Trap
pub mod Kernel
pub mod Term
pub mod Windows
pub mod Os
pub mod Heap
mod Tests
