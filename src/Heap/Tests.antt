-- ===== src/Heap/Tests.antt =====
-- kernel/mm/heap.c on a heap with one slab page of 16-byte objects and two free blocks.
use dev_os.Prelude.{ℕ, ◌+◌, ◌≡◌, ◌≢◌, refl, arith, true, ◌==◌, if◌then◌else◌, some, [], ◌∷◌}
use dev_os.Word.{align_up}
use dev_os.Bits.{has_bit}
use dev_os.Mm.Pmm.{frame_used}
use dev_os.Mm.Pmm.Count.{count_free}
use dev_os.Heap.State.{Heap, SlabPage, slab_page_magic, heap_virt_base}
use dev_os.Heap.Slab.{take_object, slab_object, slab_free, data_offset}
use dev_os.Heap.Large.{best_from, split_block}
use dev_os.Heap.Objects.{IsPage}
use dev_os.Heap.Take.{Taken, IsLayout, take_object-Taken, slab_free-take_object}
use dev_os.Heap.Fit.{Chain, IsBest, Split, best_from-IsBest, split_block-Split}

abbrev sixteens : SlabPage
sixteens = record {
  order = 4;
  obj_size = 16;
  capacity = 252;
  free_count = 252;
  first_free = 0;
  bitmap = λ w. 0;
}

abbrev page : ℕ
page = heap_virt_base

abbrev heap : Heap
heap = record {
  machine = record {
    pmm = record { bitmap = λ i. 0; total_frames = 0; free_frames = 0; search_hint = 0 };
    mem = λ w. 0;
  };
  kernel_pml4 = 0x1000;
  magic = λ a. if a == page then slab_page_magic else 0;
  slabs = λ a. sixteens;
  larges = λ a.
      if a == 0x10000
      then record { size = 0x8000; next = 0x30000; prev = 0 }
      else record { size = 0x4000; next = 0; prev = 0x10000 };
  slab_classes = λ c. page ∷ [];
  large_free_list = 0x10000;
  heap_cursor = page + 4096;
  heap_limit = page + 4096;
}

sixteens-IsPage : IsPage sixteens
unfolding count_free frame_used has_bit
sixteens-IsPage = record {
  words = λ i. omega arith;
  counted = refl;
  hint = omega arith;
  small = omega arith;
}

sixteens-IsLayout : IsLayout sixteens
unfolding data_offset align_up
sixteens-IsLayout = record { size = omega arith; inside = omega arith }

take_object-Taken_example :
    (idx : ℕ) × (h' : Heap) × (take_object page heap ≡ (some (slab_object page sixteens idx), h'))
    × Taken sixteens idx (h'.slabs page)
    × ((q : ℕ) → q ≢ page → h'.slabs q ≡ sixteens)
take_object-Taken_example = take_object-Taken page heap sixteens-IsPage (omega arith)

slab_free-take_object_example :
    (ptr : ℕ) × (h1 : Heap) × (h' : Heap) × (take_object page heap ≡ (some ptr, h1))
    × (slab_free ptr h1 ≡ (true, h'))
    × ((g : ℕ) → frame_used (h'.slabs page).bitmap g ≡ frame_used sixteens.bitmap g)
    × ((h'.slabs page).free_count ≡ sixteens.free_count)
    × IsPage (h'.slabs page)
slab_free-take_object_example =
    slab_free-take_object page heap refl (omega arith) refl sixteens-IsPage sixteens-IsLayout
      (omega arith)

blocks : Chain heap.larges 0x10000 (0x10000 ∷ 0x30000 ∷ [])
blocks = (refl, omega arith, (refl, omega arith, refl))

best_from-IsBest_example :
    IsBest heap.larges 0x3000 0 (0x10000 ∷ 0x30000 ∷ []) (best_from 3 0x3000 0x10000 0 heap.larges)
best_from-IsBest_example =
    best_from-IsBest heap 0x3000 3 (0x10000 ∷ 0x30000 ∷ []) blocks (omega arith)

split_block-Split_example :
    (h' : Heap) × (split_block 0x3000 0x10000 heap ≡ (some (0x10000 + 32), h'))
    × Split 0x3000 0x10000 heap h'
split_block-Split_example = split_block-Split 0x3000 0x10000 heap (omega arith) (omega arith)
