-- ===== src/Boot/Gdt/Tests.antt =====
-- The descriptor tables of a kernel that ends at 3 MB.
use tomat_os_old.Boot.Gdt.{Gdt, no_gdt_entry}

abbrev before : Gdt
before = record { size = 0; entries = λ i. no_gdt_entry }
