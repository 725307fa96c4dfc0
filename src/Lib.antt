-- ===== src/Lib.antt =====
-- A model of the kernel of TomatOS, and what holds of it.
--
-- The parts, with their files under TomatKernel/, and the modules that model them:
--   * Memory.Bitmap: the bitmap of physical pages (core/memory/paging.c: paging_allocate_new_page,
--     paging_allocate_page, paging_free_page). The state is the record Bitmap, the two static
--     variables; Bitmap.Inv has the invariant.
--   * Memory.Directory: page directories and page tables (the rest of core/memory/paging.c). The
--     state is Memory: the bitmap, and the entries of the page at each physical address.
--   * Memory.Heap: the heap of a process (core/memory/heap.c). The state is Heap, the
--     heap_context_t with the memory read as block headers. Heap.Chain has the abstract view, the
--     list of the blocks in address order, Heap.Inv the invariant IsHeap that relates the two.
--   * Kernel: the process table (core/process/process.h and process.c), with Kernel.Scheduler
--     (scheduler_update, process_switch), Kernel.Timers (core/timer.c) and Kernel.Processes (system
--     calls, process_start, process_kill, and the timer interrupt). The state is the record Kernel,
--     the static variables of process.c and timer.c. A process_t* is an index into the table.
--     Kernel.Processes.Reach has the interrupts as steps and the states they reach.
--     Kernel.Processes.Countdown has the timer from timer_start to its end, interrupt by interrupt.
--     Kernel.Buffer has the growing arrays (core/sbuf.h, core/sbuf.c), which are lists elsewhere, over
--     what the kernel's heap answers.
--   * Graphics.Window: the windows (core/graphics/window.c) and their system calls.
--   * Graphics.Terminal: the terminal (core/graphics/term.c) on the current window.
--   * Drivers: the PS/2 controller (core/drivers/ps2.c) over port instructions that are a parameter,
--     and the keyboard (core/drivers/ps2_keyboard.c), whose state is the key states and the Kernel.
--     Drivers.Vbe is the graphics adapter (core/drivers/video/vbe.c), over port instructions and writes to
--     the video memory that are parameters.
--   * Klibc: the string functions (klibc/string.c), on the memory as a function from addresses, and
--     klibc/stdlib.c, on the kernel's heap.
--   * Boot.Gdt and Boot.Idt: the descriptor tables (boot/gdt/gdt.c, boot/interrupts/idt.c) as packed
--     words, and the messages to the interrupt controllers (boot/interrupts/pic.c).
--   * Boot.Multiboot: what the boot loader leaves (boot/multiboot.c), and the checks of boot/kernel_boot.c.
--   * Boot.Isr: the tables of handlers and the dispatch of interrupts and system calls
--     (boot/interrupts/isr.c, core/process/syscall.c), for handlers on any state, and the
--     screen that an exception shows before the processor halts.
--   * User: the library of the programs (TomatLib/tomato/term.h, windows.h, heap.h, os.h, and OS.hpp),
--     over what the interrupt 0x80 does, which is Boot.Isr's dispatch with the tables of Graphics.Terminal.Registered, Graphics.Window.Registered and Memory.Heap.Registered. The
--     state is Graphics.Machine.Machine, or HeapMachine: what the calls change, and the devices.
--   * Common: Boolean tests, lists, words and bits, and how a call ends (done, panic, fault, hang).
--
-- An interrupt runs with interrupts off, so one handler is one step. The timer interrupt counts
-- the timers down, pushes their events to the processes and calls the scheduler; pull_event and
-- process_kill call the scheduler too. Each function of the model has the name of its C function,
-- those of paging.c without the prefix paging_.
--
-- Numbers are unsigned words; what wraps in C is reduced modulo 2^32, 2^16 or 2^8 in the model.
-- Fuel: skip_full has 2^16 rounds, after which a uint16_t index has taken every value, and
-- allocate_new_page two calls, since the second finds a free bit at once. The walks over a heap
-- take any fuel above the number of blocks, and merging two rounds. window_set_cursor_pos takes a
-- bound on the chain of parents; on the native window one call is enough. uitoa takes 34 rounds, for
-- at most 32 digits, and a walk over a string more than its length. The loops that poll the PS/2
-- controller take any fuel above the number of reads until it reports, and those of OS.hpp any above
-- the number of events that are delivered in vain.
--
-- Not modelled: assembly, what is commented out in boot/kernel_boot.c, the output of a panic,
-- klibc/math.c, which rounds a double, and of TomatLib the classes in C++ that pass their calls on,
-- and the run-time support for C++.
-- The linker's symbols, malloc's results for windows, how the kernel's heap answers a growing array,
-- the port instructions and what a register points at are parameters. A heap's headers are kept by
-- address, so what a header that is written across another one leaves of it is not modelled.
pub mod Common
pub mod Memory
pub mod Kernel
pub mod Graphics
pub mod Drivers
pub mod Klibc
pub mod Boot
pub mod User
