-- ===== src/Boot.antt =====
-- TomatKernel/boot: the tables of the processor and the dispatch of interrupts.
pub mod Gdt
pub mod Idt
pub mod Isr
pub mod Multiboot
