-- ===== src/Kmalloc/Field.antt =====
-- KMEM_METADATA of kernel/include/structs/kmalloc_str.h: where the fields stand.
use horizon.Common.{ℕ}

abbrev pub magic : ℕ
magic = 0

abbrev pub checkno : ℕ
checkno = 8

abbrev pub num_pages : ℕ
num_pages = 16

abbrev pub size : ℕ
size = 24

-- 512 characters.
abbrev pub file_name : ℕ
file_name = 32

abbrev pub lineno : ℕ
lineno = 544
