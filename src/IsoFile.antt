-- ===== src/IsoFile.antt =====
-- kernel/src/init/iso_file.c: the search for a file that the boot loader has put in memory. Strings
-- are NUL-terminated in the byte memory, and pointers wrap. The two endless loops take fuel.
pub mod Laws
pub mod Tests
use horizon.Common.{
  ◌>>=◌, ℕ, zero, suc, [], ◌∷◌, none, some, true, false, Bool, Option, List, not, ◌&&◌, ◌||◌, ◌==◌,
  if◌then◌else◌, sub64,
}
use horizon.Memory.{Mem}
use horizon.CString.{strlen_loop}

-- The last loop, from the last characters on; 1 and 0 are true and false. No result: the fuel is
-- out.
unfoldable pub ending_loop : ℕ → Mem → ℕ → ℕ → ℕ → ℕ → Option Bool
ending_loop zero m str0 end0 str end = none
ending_loop (suc fuel) m str0 end0 str end =
    let str1 = sub64 str 1 in
    let end1 = sub64 end 1 in
    let rest = ending_loop fuel m str0 end0 str1 end1 in
    if not (m str == m end)
    then some false
    else if (end1 == end0) || (str1 == str0 && end1 == end0)
    then some true
    else if str1 == str0
    then some false
    else rest

-- The two pointers go to the NULs and one back.
unfoldable pub check_string_ending : ℕ → Mem → ℕ → ℕ → Option Bool
check_string_ending fuel m str end = do
  str_nul ← strlen_loop fuel m str
  end_nul ← strlen_loop fuel m end
  ending_loop fuel m str end (sub64 str_nul 1) (sub64 end_nul 1)

-- LIMINE_FILE, as far as it is used.
pub record LimineFile : Type 0 where
  pub address : ℕ
  pub path : ℕ

-- `halt()`, out of fuel, or the file, none for NULL.
pub data Lookup : Type 0 where
  no_response no_fuel : Lookup
  looked : Option LimineFile → Lookup

unfoldable pub module_answer : LimineFile → Lookup → Option Bool → Lookup
module_answer f rest none = no_fuel
module_answer f rest (some ends) = if ends then looked (some f) else rest

unfoldable pub module_loop : ℕ → Mem → ℕ → List LimineFile → Lookup
module_loop fuel m name [] = looked none
module_loop fuel m name (f ∷ modules) =
    module_answer f (module_loop fuel m name modules) (check_string_ending fuel m f.path name)

-- The response is none for NULL.
unfoldable pub get_iso_file : ℕ → Mem → ℕ → Option (List LimineFile) → Lookup
get_iso_file fuel m name none = no_response
get_iso_file fuel m name (some modules) = module_loop fuel m name modules
