-- ===== src/Cpu/Tests.antt =====
-- A processor that answers every leaf with the words of "GenuineIntel".
use horizon.Common.{[], some, arith, refl, ◌≡◌}
use horizon.Memory.{Mem}
use horizon.Cpu.Strings.{
  get_cpu_vendor-VendorAt, get_cpu_model_name-LeafAt, LeafAt, intel, amd, VendorAt,
}
use horizon.Cpu.{Cpu, get_cpu_vendor, get_cpu_model_name, Registers}

abbrev answer : Registers
answer = record { eax = 0x306a9; ebx = 0x756e_6547; ecx = 0x6c65_746e; edx = 0x4965_6e69 }

abbrev memory : Mem
memory a = a

abbrev before : Cpu
before = record { msr = λ n. 0x0007_0406_0007_0406; cr4 = 0x620 }

get_cpu_vendor-VendorAt_example :
    VendorAt (get_cpu_vendor (λ leaf. some answer) intel amd [] 0 memory 100) 100 answer
get_cpu_vendor-VendorAt_example =
    get_cpu_vendor-VendorAt (λ leaf. some answer) [] 0 memory 100 answer refl
      (omega arith, omega arith, omega arith, omega arith)
      (λ is. (refl, refl), λ is. absurd (omega (arith, is)))

get_cpu_model_name-LeafAt_example :
    LeafAt (get_cpu_model_name (λ leaf. answer) memory 100) 100 answer
    × LeafAt (get_cpu_model_name (λ leaf. answer) memory 100) 116 answer
    × LeafAt (get_cpu_model_name (λ leaf. answer) memory 100) 132 answer
    × (get_cpu_model_name (λ leaf. answer) memory 100 148 ≡ 0)
get_cpu_model_name-LeafAt_example =
    get_cpu_model_name-LeafAt (λ leaf. answer) memory 100
      (λ leaf. (omega arith, omega arith, omega arith, omega arith))
