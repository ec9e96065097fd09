-- ===== src/Mm/Tests.antt =====
-- kernel/mm on small inputs: runs, and each theorem at an input that meets its hypotheses.
use dev_os.Prelude.{
  none, ℕ, ◌*◌, ◌<◌, ◌≡◌, refl, arith, true, false, not, ◌==◌, if◌then◌else◌, some, List, [], ◌∷◌,
  bit_and, bit_or, ◌&&◌, subst, sym, ap, Option,
}
use dev_os.Bits.{set_bit, clear_bit, has_bit, ctz}
use dev_os.Word.{align_up, align_down, page_size}
use dev_os.Mm.Pmm.{
  Pmm, Memory, max_frames, frame_set, frame_clear, frame_used, find_free, zero_page, pmm_alloc,
  pmm_free_page,
}
use dev_os.Mm.Pmm.Count.{count_free_pos}
use dev_os.Mm.Pmm.Alloc.{IsValid, Allocated, pmm_alloc_succeeds}
use dev_os.Mm.Pmm.Free.{Freed, pmm_free_page-Freed}
use dev_os.Mm.Pmm.Init.{
  Entry, free_region, free_entry, free_entries, reserve_frame, reserve_region, pmm_init,
}
use dev_os.Mm.Pmm.Boot.{
  usable, NoOverlap, InRange, of_kernel, at_boot, pmm_init-used, pmm_init-IsValid,
}
use dev_os.Mm.Machine.{Machine}
use dev_os.Mm.Vmm.{vmm_map, vmm_unmap, vmm_translate, vmm_phys_mask}
use dev_os.Mm.Vmm.Tables.{HasTables}
use dev_os.Mm.Vmm.Map.{vmm_translate-vmm_map}
use dev_os.Mm.Vmm.Unmap.{vmm_translate-vmm_unmap}
use dev_os.Mm.Vmm.Ext.{vmm_create_address_space}
use dev_os.Mm.Vmm.Space.{NewSpace, vmm_create_address_space_lem}

-- Sixteen frames of RAM from 4 MB on, and a region that is not RAM.
abbrev ram : List Entry
ram =
    record { base = 0x400000; length = 0x10000; type = 1 }
    ∷ record { base = 0xF0000; length = 0x10000; type = 2 }
    ∷ []

ram_apart : NoOverlap ram
unfolding usable
ram_apart = (λ g h. refl, (λ g h. refl, tt))

ram_fits : InRange ram
ram_fits = (omega arith, (omega arith, tt))

-- The state after a call that ran to its end.
abbrev after_run : Option Pmm → Pmm
after_run none = at_boot
after_run (some p) = p

booted : Pmm
booted = after_run (pmm_init at_boot ram 0x200000)

alloc_run : (pmm_alloc booted (λ w. 7)).0 ≡ some 0x400000
unfolding booted pmm_alloc pmm_init free_entries free_entry free_region reserve_frame reserve_region
    find_free frame_set frame_clear frame_used set_bit clear_bit has_bit ctz align_up align_down
    zero_page
alloc_run = refl

booted-IsValid : IsValid booted
unfolding booted
booted-IsValid =
    let b = pmm_init-IsValid ram 0x200000 ram_fits ram_apart (omega arith) in
    subst IsValid (sym (ap after_run b.1)) b.2

booted-used :
    (g : ℕ)
    → g < max_frames
    → frame_used booted.bitmap g
      ≡ not (usable ram g && (not (g == 0) && not (of_kernel 0x200000 g)))
unfolding booted
booted-used g h =
    let b = pmm_init-used ram 0x200000 ram_fits (omega arith) in
    subst
      (λ (p : Pmm).
        frame_used p.bitmap g ≡ not (usable ram g && (not (g == 0) && not (of_kernel 0x200000 g))))
      (sym (ap after_run b.1)) (b.2 g h)

has_room : 0 < booted.free_frames
has_room = omega (
  arith,
  booted-IsValid.counted,
  count_free_pos booted.bitmap 1024 max_frames (omega arith) free_frame,
)
  where
    free_frame : frame_used booted.bitmap 1024 ≡ false
    free_frame = unfold usable align_up align_down in booted-used 1024 (omega arith)

pmm_alloc_succeeds_example :
    (frame : ℕ) × (p' : Pmm) × (m' : Memory) × (pmm_alloc booted (λ w. 7)
      ≡ (some (frame * page_size), p', m'))
    × Allocated booted (λ w. 7) frame p' m'
pmm_alloc_succeeds_example = pmm_alloc_succeeds booted (λ w. 7) booted-IsValid has_room

-- Frame 1 is in use, though nobody allocated it.
pmm_free_page-Freed_example : Freed booted 0x1000 (pmm_free_page booted 0x1000)
pmm_free_page-Freed_example = pmm_free_page-Freed booted 0x1000 booted-IsValid

pmm_init-used_example :
    (p : Pmm) × (pmm_init at_boot ram 0x200000 ≡ some p)
    × ((g : ℕ)
        → g < max_frames
        → frame_used p.bitmap g
          ≡ not (usable ram g && (not (g == 0) && not (of_kernel 0x200000 g))))
pmm_init-used_example = pmm_init-used ram 0x200000 ram_fits (omega arith)

-- A machine whose root table, in frame 1, is empty.
machine : Machine
machine = record { pmm = booted; mem = λ w. 0 }

abbrev root_only : ℕ → ℕ
root_only f = if f == 1 then 4 else 0

machine-HasTables : HasTables root_only machine
unfolding machine
machine-HasTables = record {
  valid = booted-IsValid;
  not_null = refl;
  owned = λ f h. owned_root f (ground arith);
  linked = λ f i h lt e. cc;
}
  where
    owned_root : (f : ℕ) → f ≡ 1 → (f < max_frames) × (frame_used machine.pmm.bitmap f ≡ true)
    owned_root f e = (
      omega arith,
      subst (λ (g : ℕ). frame_used booted.bitmap g ≡ true) (sym e)
          (unfold usable align_up align_down in booted-used 1 (omega arith)),
    )

three_free : 2 < machine.pmm.free_frames
unfolding machine booted pmm_init free_entries free_entry free_region reserve_frame reserve_region
    frame_set frame_clear frame_used set_bit clear_bit has_bit align_up align_down
three_free = let e : booted.free_frames ≡ 16 = refl in omega (arith, e)

vmm_translate-vmm_map_example :
    (s' : Machine) × (level' : ℕ → ℕ) × (vmm_map (1 * 4096) 0x400123 0x9000 3 machine
      ≡ (some tt, s'))
    × HasTables level' s'
    × (level' 1 ≡ 4)
    × (vmm_translate (1 * 4096) 0x400123 s'
        ≡ bit_or (bit_and 0x9000 vmm_phys_mask) (bit_and 0x400123 0xFFF))
vmm_translate-vmm_map_example =
    vmm_translate-vmm_map root_only machine 1 0x400123 0x9000 3 machine-HasTables refl three_free
      refl refl

-- Page 5 of the machine is mapped through the tables in frames 1, 2, 3 and 4.
abbrev mapped : Machine
mapped = (vmm_map (1 * 4096) 0x5123 0x9000 3 machine).1

vmm_translate-vmm_unmap_example :
    vmm_translate (1 * 4096) 0x5123 (vmm_unmap (1 * 4096) 0x5123 mapped) ≡ 0
vmm_translate-vmm_unmap_example =
    let m =
      vmm_translate-vmm_map root_only machine 1 0x5123 0x9000 3 machine-HasTables refl three_free
        refl refl in
    let same : m.0 ≡ mapped = sym (ap (λ (r : Option (Unit {0}) × Machine). r.1) m.2) in
    subst (λ (s : Machine). vmm_translate (1 * 4096) 0x5123 (vmm_unmap (1 * 4096) 0x5123 s) ≡ 0)
      same (vmm_translate-vmm_unmap m.1 m.0 1 0x5123 m.3 m.4)

root_used : frame_used machine.pmm.bitmap 1 ≡ true
unfolding machine usable
root_used = unfold align_up align_down in booted-used 1 (omega arith)

vmm_create_address_space_lem_example :
    (root : ℕ) × (s' : Machine) × (vmm_create_address_space (1 * 4096) machine
      ≡ (some (root * 4096), s'))
    × NewSpace machine 1 root s'
unfolding machine
vmm_create_address_space_lem_example =
    vmm_create_address_space_lem machine 1 booted-IsValid has_room root_used
