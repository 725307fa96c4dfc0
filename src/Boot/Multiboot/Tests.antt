-- ===== src/Boot/Multiboot/Tests.antt =====
-- A boot loader that sets every flag.
use tomat_os_old.Common.{◌≡◌, not, ◌==◌, if◌then◌else◌, arith}
use tomat_os_old.Boot.Multiboot.{
  no_boot_loader, no_memory, no_framebuffer, multiboot_get_mem, kernel_boot, kernel_boot-halts,
}

halt_example : kernel_boot 0xFF 0x10000 0x2BADB002 ≡ (
    if not (0x2BADB002 == 0x2BADB002)
    then no_boot_loader
    else if multiboot_get_mem 0xFF 0x10000 == 0
    then no_memory
    else no_framebuffer)
halt_example = kernel_boot-halts 0xFF 0x10000 0x2BADB002 (omega arith)
