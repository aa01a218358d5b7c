-- ===== src/Apic/Init.antt =====
-- `apic_init` of kernel/src/sys/acpi/apic.c, and `clkhandler_two` of kernel/src/sys/tick/clkhandler.c,
-- which signals the end of the interrupt to the APIC.
use horizon.Common.{
  ℕ, ◌/◌, ◌%◌, ◌^◌, ◌||◌, Bool, true, false, ◌==◌, if◌then◌else◌, u32, Option, not, ◌&&◌,
}
use horizon.Kmalloc.{ok, Machine, Run, halted}
use horizon.Pmm.{Status, sys_ok, sys_err}
use horizon.Apic.{
  Apic, apic_send_end_of_interrupt, apic_reset_error_reg, apic_check_error_reg, apic_enable,
  goes_on,
}
use horizon.Cpu.{Registers, cpuid_feature_apic, cpuid_feature_2xapic, check_cpu_support}
use horizon.Vector.{bind_run}
use horizon.Interrupts.{Kernel, clkhandler}
use horizon.Pmm.Init.{phys_to_virt, virt_to_phys}
use horizon.Vmm.Spaces.{vm_map_global, Globals}

-- VM_DEFAULT | VM_CACHE_DISABLE | VM_WRITE_THROUGH.
abbrev pub vm_mmio : ℕ
vm_mmio = 0x1b

abbrev is_ok : Status → Bool
is_ok sys_ok = true
is_ok sys_err = false

-- IA32_APIC_BASE_MSR_ENABLE and IA32_APIC_BASE_MSR_X2APIC, by their bits.
abbrev pub x2apic_enabled : ℕ → Bool
x2apic_enabled msr = (msr / 2 ^ 11 % 2 == 1) && (msr / 2 ^ 10 % 2 == 1)

-- `check_apic_exists` and `check_2xapic_exists`.
unfoldable pub check_apic_exists : (ℕ → Option Registers) → Registers → Status
check_apic_exists get_cpuid stale = check_cpu_support get_cpuid stale cpuid_feature_apic

unfoldable pub check_2xapic_exists : (ℕ → Option Registers) → Registers → Status
check_2xapic_exists get_cpuid stale = check_cpu_support get_cpuid stale cpuid_feature_2xapic

module _ {D : Type 0} (load : D → ℕ → ℕ) (store : D → ℕ → ℕ → D) where
  -- `msr` is what IA32_APIC_BASE_MSR holds, `lapic_address` that of the MADT. The page of the registers
  -- is mapped after the first of them was written.
  unfoldable pub apic_init :
      (ℕ → Option Registers)
      → Registers
      → ℕ
      → ℕ
      → Machine
      → Globals
      → Apic D
      → ℕ
      → Run (Globals × Apic D)
  unfolding bind_run
  apic_init get_cpuid stale msr lapic_address m g a func =
      let exists =
        is_ok (check_2xapic_exists get_cpuid stale) || is_ok (check_apic_exists get_cpuid stale) in
      let a1 = record a { base = phys_to_virt lapic_address } in
      let a2 = (apic_reset_error_reg load store a1).0 in
      let rest =
        bind_run (vm_map_global m g a2.base (virt_to_phys a2.base) 1 vm_mmio func) (λ g' m'.
          let a3 = apic_enable load store a2 in
          if goes_on (apic_check_error_reg load store a3) then ok (g', a3) m' else halted) in
      if not exists then halted else if x2apic_enabled (u32 msr) then halted else rest

  unfoldable pub clkhandler_two : Kernel → Apic D → Kernel × Apic D
  clkhandler_two k a = (clkhandler k, apic_send_end_of_interrupt load store a)
