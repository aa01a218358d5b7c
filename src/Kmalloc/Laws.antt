-- ===== src/Kmalloc/Laws.antt =====
-- What `kmalloc` hands out, and what `kfree` does with it.
use horizon.Common.{ap, ℕ, ◌+◌, ◌-◌, ◌^◌, ◌<◌, ◌≡◌, true, false, arith, u64, refl, subst}
use horizon.Kmalloc.{write_metadata, kmalloc_impl, Machine, Run, fill_block, ok, halted, no_fuel}
use horizon.Pmm.{out_of_fuel, out_of_memory, got, num_pages, pm_get, Got}
use horizon.Memory.{memset, Mem}
use horizon.Kmalloc.Header.{write_metadata_other, write_metadata-Describes, Describes}
use horizon.Memory.Laws.{memset_lem, within}
use horizon.Pmm.Init.{phys_to_virt}

-- A fresh block: described by its metadata, zero in the caller's bytes, and nothing else written.
pub record IsBlock (before after : Mem) (p size : ℕ) : Type 0 where
  pub described : Describes after (p - 4096) size
  pub zero_bytes : (q : ℕ) → within p size q ≡ true → after q ≡ 0
  pub rest_kept : (q : ℕ) → within (p - 4096) (size + 4096) q ≡ false → after q ≡ before q

fill_block-IsBlock :
    (m : Mem) (mem size func line : ℕ)
    → size + 4096 < 2 ^ 64
    → IsBlock m (fill_block m mem size func line) (mem + 4096) size
unfolding fill_block
fill_block-IsBlock m mem size func line small =
    let e : mem ≡ mem + 4096 - 4096 = omega arith in
    let cleared = memset m mem 0 (u64 (size + 4096)) in
    record {
      described =
          subst (λ a. Describes (write_metadata cleared mem size func line) a size) e
            (write_metadata-Describes cleared mem size func line (omega arith));
      zero_bytes = λ q inside. ground (
        arith,
        write_metadata_other cleared mem size func line q,
        memset_lem m mem 0 (u64 (size + 4096)) q,
      );
      rest_kept = λ q out. ground (
        arith,
        write_metadata_other cleared mem size func line q,
        memset_lem m mem 0 (u64 (size + 4096)) q,
      );
    }

-- How a successful `kmalloc` came about.
pub record Allocation (m : Machine) (size p : ℕ) (m' : Machine) : Type 0 where
  pub at : ℕ
  pub found : pm_get m.kmem (num_pages size + 1) 0 ≡ got at m'.kmem
  pub place : p ≡ phys_to_virt at + 4096
  pub block : IsBlock m.byte m'.byte p size

-- What is claimed of each outcome of `kmalloc`.
abbrev pub Kmalloced : Machine → ℕ → Run ℕ → Type 0
Kmalloced m size (ok p m') = Allocation m size p m'
Kmalloced m size halted = pm_get m.kmem (num_pages size + 1) 0 ≡ out_of_memory
Kmalloced m size no_fuel = pm_get m.kmem (num_pages size + 1) 0 ≡ out_of_fuel

-- What `kmalloc` makes of the answer of the physical memory manager.
kmalloc_answer :
    (m : Machine) (size func line : ℕ) (g : Got)
    → size + 4096 < 2 ^ 64
    → pm_get m.kmem (num_pages size + 1) 0 ≡ g
    → Kmalloced m size (elim g [
      | got a k ↦
          ok
            (phys_to_virt a + 4096)
            (record { kmem = k; byte = fill_block m.byte (phys_to_virt a) size func line })
      | out_of_memory ↦ halted
      | out_of_fuel ↦ no_fuel
    ])
kmalloc_answer m size func line (got a k) small e = record {
  at = a;
  found = e;
  place = refl;
  block = fill_block-IsBlock m.byte (phys_to_virt a) size func line small;
}
kmalloc_answer m size func line out_of_memory small e = e
kmalloc_answer m size func line out_of_fuel small e = e

-- For a size below 2^64 - 4096, `kmalloc` asks the physical memory manager for the pages of the size
-- and one more. It halts when that does; otherwise it returns the address one page into the range
-- that it got, where a zeroed block of the size stands whose metadata holds the magic number, the
-- pages and the size; every byte outside the block and its metadata page is as before.
pub kmalloc_impl-Kmalloced :
    (m : Machine) (size func line : ℕ)
    → size + 4096 < 2 ^ 64
    → Kmalloced m size (kmalloc_impl m size func line)
unfolding kmalloc_impl
kmalloc_impl-Kmalloced m size func line small =
    let e : num_pages size + 1 ≡ u64 (num_pages size + 1) = omega arith in
    let asked : ℕ → Got = λ n. pm_get m.kmem n 0 in
    kmalloc_answer m size func line (asked (u64 (num_pages size + 1))) small (ap asked e)
