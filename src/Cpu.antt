-- ===== src/Cpu.antt =====
-- kernel/src/sys/cpu.c: what is asked of the processor, and what `cpu_init` sets. `get_cpuid` is the
-- compiler's `__get_cpuid`, none when it returns 0, and `raw` its `__cpuid`. Buffers are addresses in
-- the byte memory, and masks of whole fields are written as `/` and `%`.
pub mod Laws
pub mod Strings
pub mod Tests
use horizon.Common.{
  ℕ, [], ◌∷◌, none, some, Option, List, ◌+◌, ◌*◌, ◌/◌, ◌%◌, ◌^◌, ◌||◌, ◌==◌, if◌then◌else◌, bit_and,
  bit_or, ◌++◌,
}
use horizon.Pmm.{Status, sys_ok, sys_err}
use horizon.Memory.{Mem, store8, memcpy}
use horizon.Memory.Words.{store32}
use horizon.Apic.{set_bit}

-- `registers[4]` by name, and its indices.
pub record Registers : Type 0 where
  pub eax : ℕ
  pub ebx : ℕ
  pub ecx : ℕ
  pub edx : ℕ

pub data Register : Type 0 where
  cpuid_eax cpuid_ebx cpuid_ecx cpuid_edx : Register

unfoldable pub select : Registers → Register → ℕ
select r cpuid_eax = r.eax
select r cpuid_ebx = r.ebx
select r cpuid_ecx = r.ecx
select r cpuid_edx = r.edx

pub record CpuidFeature : Type 0 where
  pub feature : ℕ
  pub registers : Register
  pub mask : ℕ

abbrev pub cpuid_feature_apic : CpuidFeature
cpuid_feature_apic = record { feature = 1; registers = cpuid_edx; mask = 2 ^ 9 }

abbrev pub cpuid_feature_2xapic : CpuidFeature
cpuid_feature_2xapic = record { feature = 1; registers = cpuid_ecx; mask = 2 ^ 21 }

abbrev pub cpuid_feature_pat : CpuidFeature
cpuid_feature_pat = record { feature = 1; registers = cpuid_edx; mask = 2 ^ 16 }

abbrev pub cpuid_feature_mtrr : CpuidFeature
cpuid_feature_mtrr = record { feature = 1; registers = cpuid_edx; mask = 2 ^ 12 }

unfoldable pub registers_or : Registers → Option Registers → Registers
registers_or stale none = stale
registers_or stale (some r) = r

-- `stale` is what the array holds before: the result of `cpuid` is not looked at.
unfoldable pub check_cpu_support : (ℕ → Option Registers) → Registers → CpuidFeature → Status
check_cpu_support get_cpuid stale f =
    let r = registers_or stale (get_cpuid f.feature) in
    if bit_and (select r f.registers) f.mask == 0 then sys_err else sys_ok

-- `memcpy` from a literal.
unfoldable pub store_bytes : Mem → ℕ → List ℕ → Mem
store_bytes m p [] = m
store_bytes m p (b ∷ bytes) = store_bytes (store8 m p b) (p + 1) bytes

pub record Vendor : Type 0 where
  pub ebx : ℕ
  pub vendor_name : List ℕ

-- "GenuineIntel" and "AuthenticAMD"; the values of EBX are the compiler's.
unfoldable pub vendor_intel : ℕ → Vendor
vendor_intel signature_intel_ebx = record {
  ebx = signature_intel_ebx;
  vendor_name = 71 ∷ 101 ∷ 110 ∷ 117 ∷ 105 ∷ 110 ∷ 101 ∷ 73 ∷ 110 ∷ 116 ∷ 101 ∷ 108 ∷ [];
}

unfoldable pub vendor_amd : ℕ → Vendor
vendor_amd signature_amd_ebx = record {
  ebx = signature_amd_ebx;
  vendor_name = 65 ∷ 117 ∷ 116 ∷ 104 ∷ 101 ∷ 110 ∷ 116 ∷ 105 ∷ 99 ∷ 65 ∷ 77 ∷ 68 ∷ [];
}

-- "Unknown" with its two NULs.
abbrev unknown : List ℕ
unknown = 85 ∷ 110 ∷ 107 ∷ 110 ∷ 111 ∷ 119 ∷ 110 ∷ 0 ∷ 0 ∷ []

-- `beyond` are the four bytes that stand after the literal, which `memcpy` of 13 bytes reads too.
unfoldable pub vendor_string : Vendor → Vendor → List ℕ → Mem → ℕ → Option Registers → Mem
vendor_string intel amd beyond m copy_to none = store_bytes m copy_to (unknown ++ beyond)
vendor_string intel amd beyond m copy_to (some r) =
    let words =
      store32 (store32 (store32 m copy_to r.ebx) (copy_to + 8) r.ecx) (copy_to + 4) r.edx in
    let named =
      if r.ebx == intel.ebx
      then store_bytes m copy_to intel.vendor_name
      else if r.ebx == amd.ebx
      then store_bytes m copy_to amd.vendor_name
      else words in
    store8 named (copy_to + 12) 0

-- `cpu_manufacturer` is the address of the array of that name.
unfoldable pub get_cpu_vendor :
    (ℕ → Option Registers) → Vendor → Vendor → List ℕ → ℕ → Mem → ℕ → Mem
get_cpu_vendor get_cpuid intel amd beyond cpu_manufacturer m copy_to =
    let m1 = if m cpu_manufacturer == 0 then m else memcpy m copy_to cpu_manufacturer 13 in
    vendor_string intel amd beyond m1 copy_to (get_cpuid 0)

-- The four words of a leaf.
unfoldable pub store_leaf : Mem → ℕ → Registers → Mem
store_leaf m p r =
    store32 (store32 (store32 (store32 m p r.eax) (p + 4) r.ebx) (p + 8) r.ecx) (p + 12) r.edx

unfoldable pub get_cpu_model_name : (ℕ → Registers) → Mem → ℕ → Mem
get_cpu_model_name raw m copy_to =
    let m1 = store_leaf m copy_to (raw 0x8000_0002) in
    let m2 = store_leaf m1 (copy_to + 16) (raw 0x8000_0004) in
    let m3 = store_leaf m2 (copy_to + 32) (raw 0x8000_0004) in store8 m3 (copy_to + 48) 0

-- `*f`, `*stepping` and `*mn`.
pub record CpuFamily : Type 0 where
  pub f : ℕ
  pub stepping : ℕ
  pub mn : ℕ

unfoldable pub get_cpu_family : (ℕ → Registers) → CpuFamily → CpuFamily
get_cpu_family raw out =
    let eax = (raw 1).eax in
    let family = eax / 2 ^ 8 % 16 in
    let model_num = eax / 2 ^ 4 % 16 in
    let ext_model = eax / 2 ^ 16 % 16 in
    let ext_family = eax / 2 ^ 20 % 256 in
    record {
      stepping = eax % 16;
      f = if family == 0xf then out.f + ext_family else out.f;
      mn = if family == 0x6 || family == 0xf then model_num + ext_model * 2 ^ 4 else out.mn;
    }

-- The line size, the L2 and the L3 size.
unfoldable pub get_cpu_cache_info : (ℕ → Registers) → ℕ × ℕ × ℕ
get_cpu_cache_info raw =
    let r = raw 0x8000_0006 in (r.ecx % 2 ^ 8, r.ecx / 2 ^ 16 % 2 ^ 16, r.edx / 2 ^ 18 % 2 ^ 14)

-- What `cpu_init` writes: the model specific registers and CR4.
pub record Cpu : Type 0 where
  pub msr : ℕ → ℕ
  pub cr4 : ℕ

abbrev pub msr_pat : ℕ
msr_pat = 0x277

unfoldable pub write_msr : Cpu → ℕ → ℕ → Cpu
write_msr c msr val = record c { msr = λ n. if n == msr then val else c.msr n }

unfoldable pub write_to_cr4_bit : Cpu → ℕ → Cpu
write_to_cr4_bit c n = record c { cr4 = set_bit n c.cr4 }

unfoldable pub set_pat : Status → Cpu → Cpu
set_pat sys_err c = c
set_pat sys_ok c = write_msr c msr_pat (bit_or (c.msr msr_pat % 2 ^ 32) (1 * 2 ^ 32))

-- The printing is left out.
unfoldable pub cpu_init : (ℕ → Option Registers) → Registers → Cpu → Cpu
cpu_init get_cpuid stale c =
    let c1 = set_pat (check_cpu_support get_cpuid stale cpuid_feature_pat) c in
    write_to_cr4_bit (write_to_cr4_bit c1 9) 10
