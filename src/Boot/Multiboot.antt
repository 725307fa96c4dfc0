-- ===== src/Boot/Multiboot.antt =====
-- TomatKernel/boot/multiboot.h and multiboot.c: the parts of the information that the boot loader
-- leaves, and the checks of boot/kernel_boot.c, lines 26-48.
mod Tests
use tomat_os_old.Common.{
  ℕ, ◌<◌, ◌≡◌, refl, arith, ◌/◌, ◌%◌, ◌^◌, Bool, not, ◌==◌, if◌then◌else◌, add32,
}

-- (flags & (1 << bit)) != 0
pub has_flag : (flags bit : ℕ) → Bool
has_flag flags bit = flags / 2 ^ bit % 2 == 1

-- `flags` is the first field of the structure at `multiboot`, a byte; 0 is the null pointer.
pub multiboot_get_mem : (flags multiboot : ℕ) → ℕ
unfolding has_flag
multiboot_get_mem flags multiboot = if has_flag flags 0 then add32 multiboot 4 else 0

pub multiboot_get_framebuffer : (flags multiboot : ℕ) → ℕ
unfolding has_flag
multiboot_get_framebuffer flags multiboot = if has_flag flags 12 then add32 multiboot 88 else 0

-- The loop around `hlt` in which `kernel_boot` ends: one behind each check, and one behind all.
pub data Halt : Type 0 where
  no_boot_loader no_memory no_framebuffer checked : Halt

pub kernel_boot : (flags multiboot_structure multiboot_magic : ℕ) → Halt
unfolding multiboot_get_mem multiboot_get_framebuffer
kernel_boot flags multiboot_structure multiboot_magic =
    if not (multiboot_magic == 0x2BADB002)
    then no_boot_loader
    else if multiboot_get_mem flags multiboot_structure == 0
    then no_memory
    else if multiboot_get_framebuffer flags multiboot_structure == 0
    then no_framebuffer
    else checked

no_framebuffer_flag :
    (flags multiboot : ℕ) → flags < 2 ^ 8 → multiboot_get_framebuffer flags multiboot ≡ 0
unfolding multiboot_get_framebuffer has_flag
no_framebuffer_flag flags multiboot byte = ground (arith, byte)

-- Since the flags are read as a byte, no bit of it says that there is a framebuffer: whatever the boot loader
-- leaves, `kernel_boot` halts behind one of its checks, behind the last one at the latest.
pub kernel_boot-halts :
    (flags multiboot_structure multiboot_magic : ℕ)
    → flags < 2 ^ 8
    → kernel_boot flags multiboot_structure multiboot_magic ≡ (
        if not (multiboot_magic == 0x2BADB002)
        then no_boot_loader
        else if multiboot_get_mem flags multiboot_structure == 0
        then no_memory
        else no_framebuffer)
unfolding kernel_boot
kernel_boot-halts flags multiboot_structure multiboot_magic byte =
    rw (no_framebuffer_flag flags multiboot_structure byte) refl
