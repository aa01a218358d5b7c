-- ===== src/IsoFile/Tests.antt =====
-- A path "/ab" and a name "xb": the first byte of the name does not matter.
use horizon.Common.{[], ◌∷◌, some, arith, refl, ◌≡◌, ◌==◌, if◌then◌else◌}
use horizon.Memory.{Mem}
use horizon.IsoFile.{looked, LimineFile, get_iso_file}
use horizon.IsoFile.Laws.{get_iso_file-first, ends_with, first}

abbrev memory : Mem
memory a =
    if a == 10
    then 47
    else if a == 11
    then 97
    else if a == 12
    then 98
    else if a == 20
    then 120
    else if a == 21
    then 98
    else 0

abbrev font : LimineFile
font = record { address = 4096; path = 10 }

get_iso_file-first_example :
    get_iso_file 8 memory 20 (some (font ∷ []))
    ≡ looked (first (λ f. ends_with memory f.path 3 20 2) (font ∷ []))
get_iso_file-first_example =
    get_iso_file-first 8 memory 20 2 (λ f. 3) (font ∷ []) (refl, λ j lt. ground arith) (omega arith)
      (omega arith) (omega arith)
      (((refl, λ j lt. ground arith), omega arith, omega arith, omega arith), tt)
