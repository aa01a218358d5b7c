-- ===== src/CString/Tests.antt =====
-- The string `hi` at address 16.
use horizon.Common.{◌≡◌, refl, ◌==◌, if◌then◌else◌}
use horizon.CString.{strncpy_copy, strncpy_pad, strncpy}
use horizon.Memory.{Mem}

abbrev text : Mem
text q = if q == 16 then b'h' else if q == 17 then b'i' else if q == 40 then 7 else 0

strncpy_runs : (strncpy text 38 16 4 38 ≡ b'h') × (strncpy text 38 16 4 40 ≡ 0)
unfolding strncpy strncpy_copy strncpy_pad
strncpy_runs = (refl, refl)
