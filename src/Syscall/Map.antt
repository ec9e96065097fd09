-- ===== src/Syscall/Map.antt =====
-- `sys_mmap` with a length that rounding wraps.
use dev_os.Prelude.{ℕ, ◌-◌, ◌^◌, ◌<◌, ◌≡◌, ◌≢◌, refl, arith, ==-ne_of}
use dev_os.Prelude.Int.{pos}
use dev_os.Word.{page_size, align_up, align_up-page, align_down}
use dev_os.Mm.Machine.{Machine}
use dev_os.Mm.Vmm.Ext.{vmm_alloc_range, alloc_pages}
use dev_os.Syscall.{Kernel, sys_mmap}

-- The rounding of the last page of lengths gives 0.
wraps : (length : ℕ) → 2 ^ 64 - 4096 < length → length < 2 ^ 64 → align_up length page_size ≡ 0
wraps length lo hi = omega (arith, align_up-page length)

nothing : (pml4 va flags : ℕ) (m : Machine) → vmm_alloc_range pml4 va 0 flags m ≡ (pos 0, m)
unfolding vmm_alloc_range alloc_pages align_up
nothing pml4 va flags m = refl

module _ {S : Type 0} where
  -- For a length in the last page of the 64-bit numbers, `sys_mmap` with an address answers that
  -- address rounded down to a page, as if the range were mapped, and maps nothing: the kernel's
  -- state is as before.
  pub sys_mmap-wraps :
      (addr length : ℕ) (k : Kernel S)
      → addr ≢ 0
      → 2 ^ 64 - 4096 < length
      → length < 2 ^ 64
      → k.sched.current_task ≢ 0
      → sys_mmap addr length k ≡ (align_down addr page_size, k)
  unfolding sys_mmap align_down vmm_alloc_range alloc_pages align_up
  sys_mmap-wraps addr length k given lo hi task =
      let a = ==-ne_of addr 0 given in
      let t = ==-ne_of k.sched.current_task 0 task in
      let l = ==-ne_of length 0 (omega arith) in simp (wraps length lo hi) (simp (nothing, l, t, a))
