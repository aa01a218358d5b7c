-- ===== src/Lib.antt =====
-- A model of the kernel of Horizon64, with the theorems that make its components correct.
--
-- Numbers are the native ℕ; a C integer of w bits keeps its wrap-around written out (`u64`, `sub64`
-- and the others of Common). Memory is a function from addresses to bytes; structures of the C code
-- that live in memory are read and written there, and globals of one component are a record.
--
-- The parts and their files, with the code that they model (paths from kernel/):
-- - Pmm: src/sys/mmu.c, the physical memory manager (`pm_*`, `bitmap_*`), a bitmap of free pages.
--   The children of Pmm hold its laws; Pmm/Init is `pm_init` over the bootloader's memory map, with
--   what it leaves alone in Pmm/Init/Behind and Layout, and the bitmap's place in Pmm/Init/Place.
-- - Memory: src/common/memory.c; Memory/Words are the 32- and 64-bit words in the bytes.
-- - CString: src/common/string.c.
-- - Kmalloc: src/common/kmalloc.c on Pmm and Memory. A machine is the state of Pmm with the bytes;
--   Kmalloc/Field are the offsets of KMEM_METADATA, Kmalloc/Header what a block's metadata say.
-- - Vector: include/common/vector.h on the kernel heap; Vector/Laws says which sequence a vector
--   is, Vector/Append is about `vector_append`. Kmalloc/Frame and Kmalloc/Grow are the heap's side.
-- - Vmm: src/sys/mmu.c, the page tables (`map_page_entry`, `vm_get_phys_addr`); Vmm/Unmap is
--   `unmap_page_entry`, Vmm/Spaces `vm_map`, `vm_unmap`, `vm_init` and `create_address_space`.
--   Vmm/Laws has the processor's walk, Vmm/Lookup the walk by levels, Vmm/Space the invariant of an
--   address space. A step down the tables is in Vmm/Tabled, Table, Fresh, Listed and NextTable; the
--   mapping of a page in Vmm/Entered, Remapped and Map, of a range in Vmm/MapPages; a new address
--   space in Vmm/Empty, Share, Create and Created; unmapping in Vmm/Cut, Forget, Unmapped, UnmapEntry,
--   UnmapPages and UnmapReturns.
-- - Kprint: the number and format printers of src/common/kprint.c.
-- - Framebuffer: src/graphics/framebuffer.c; Terminal: src/dev/terminal.c on it, with Terminal/Print
--   for `terminal_printf`.
-- - Descriptors: src/sys/gdt/gdt.c and src/sys/interrupts/idt.c.
-- - Interrupts: src/sys/interrupts/isr.c and irq.c, and src/sys/tick/clkhandler.c; the generated
--   isrs_gen.c in Interrupts/Entries, the sleep in Interrupts/Sleep.
-- - Cmos: src/sys/cmos.c, with the macros of include/sys/cmos.h as they expand. Timer: src/sys/tick/pic.c and pit.c.
-- - Acpi: src/sys/acpi/acpi.c and rsdp.c; Acpi/Madt: src/sys/acpi/madt.c;
--   Acpi/Init: acpi_init.
-- - Keyboard: src/dev/keyboard/keyboard.c and scancodes.c, with keyboard_init in Keyboard/Init.
-- - Pci: src/sys/pci.c and the macros of include/sys/pci_io.h; Pci/Table is the table of devices,
--   Pci/Bar the base address registers, Pci/Bridges the recursion behind bridges, Pci/Found and
--   Pci/Complete what a scan lists.
-- - Lock: src/common/lock.c, as steps of processors that share the lock.
-- - Apic: src/sys/acpi/apic.c, with apic_init in Apic/Init. Hpet: src/sys/acpi/hpet.c.
-- - Serial: src/dev/serial.c. Cpu: src/sys/cpu.c with include/sys/cpu.h and cpu_features.h.
-- - IsoFile: src/init/iso_file.c. Psf: src/init/psf.c.
-- Each part has a module Tests with runs at concrete values. Common holds what they share.
--
-- Loops are structural recursion on the rounds left. Where C bounds a loop by its data, the
-- recursion is on fuel: `pm_get` has one round more than the pages below the limit, the scan of
-- the MADT one more than its bytes, the scan behind PCI bridges the depth of its calls, `strlen`
-- and the reading of the clock take the fuel as an argument. A run that outruns its fuel, a read
-- past the end of a format, and `halt()` are results of their own.
--
-- What the hardware gives (the ports of the interrupt controllers, the readings of the clock, the
-- configuration space, the registers of the local APIC) is a parameter. Left out are log
-- messages, instructions in assembly, the translation cache of the processor, and what only
-- prints. Pointer arithmetic is on numbers that do not run past the address space.
pub mod Common
pub mod Memory
pub mod CString
pub mod Pmm
pub mod Kmalloc
pub mod Vector
pub mod Vmm
pub mod Kprint
pub mod Framebuffer
pub mod Terminal
pub mod Descriptors
pub mod Cmos
pub mod Timer
pub mod Acpi
pub mod Keyboard
pub mod Interrupts
pub mod Pci
pub mod Apic
pub mod Hpet
pub mod Lock
pub mod Serial
pub mod Cpu
pub mod IsoFile
pub mod Psf
