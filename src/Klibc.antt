-- ===== src/Klibc.antt =====
-- TomatKernel/klibc: the kernel's C library; libc/string.c is the same code for processes.
pub mod Strings
pub mod Stdlib
