-- ===== src/Vmm/Tests.antt =====
-- Page tables at the physical pages 1 to 4, whose entries the processor has marked as accessed.
use horizon.Common.{ℕ, refl, some, ◌+◌, ◌≡◌}
use horizon.Vmm.{vm_get_phys_addr, AddrSpace}
use horizon.Memory.Words.{byte_of, store64, load_bytes, load64}
use horizon.Memory.{Mem}
use horizon.Vmm.Laws.{walk}

abbrev top : ℕ
top = 0xffff_8000_0000_1000

abbrev pdpt_table : ℕ
pdpt_table = 0xffff_8000_0000_2000

abbrev pd_table : ℕ
pd_table = 0xffff_8000_0000_3000

abbrev pt_table : ℕ
pt_table = 0xffff_8000_0000_4000

abbrev space : AddrSpace
space = record { pml4 = top; memory_list = record { length = 0; capacity = 0; elements = 0 } }

-- Entry 3 of the page table that entry 2 of the page directory names.
abbrev virt : ℕ
virt = 0x40_3000

abbrev tables : Mem
tables = store64 (store64 (store64 (λ q. 0) top 0x2027) pdpt_table 0x3027) (pd_table + 16) 0x4027

abbrev with_page : Mem
with_page = store64 tables (pt_table + 24) 0x9003

-- The page is mapped, yet the code does not find it: entry 3 of the page directory is empty.
vm_get_phys_addr_misses :
    (walk with_page top virt ≡ some 0x9000) × (vm_get_phys_addr with_page space virt ≡ 0)
unfolding walk vm_get_phys_addr load64 load_bytes store64 byte_of
vm_get_phys_addr_misses = (refl, refl)
