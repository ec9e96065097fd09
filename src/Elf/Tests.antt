-- ===== src/Elf/Tests.antt =====
-- kernel/elf/elf.c on a segment that starts in the middle of a page.
use dev_os.Prelude.{arith, ◌%◌, ◌≡◌, refl, some}
use dev_os.Str.Memory.{Bytes}
use dev_os.Mm.Machine.{Machine}
use dev_os.Elf.{Phdr, copy_window, fill_page}
use dev_os.Elf.Page.{IsLoaded, fill_page-IsLoaded}

abbrev text_segment : Phdr
text_segment = record {
  p_type = 1;
  p_flags = 5;
  p_offset = 0x1000;
  p_vaddr = 0x400800;
  p_filesz = 0x1200;
  p_memsz = 0x1400;
}

-- A file whose byte `o` is `o` modulo 256.
abbrev file : Bytes
file o = o % 256

abbrev machine : Machine
machine = record {
  pmm = record { bitmap = λ i. 0; total_frames = 8; free_frames = 8; search_hint = 0 };
  mem = λ a. 0;
}

fill_page-IsLoaded_example :
    IsLoaded file text_segment 0x401000 0x5000 machine.mem
      (fill_page file text_segment 0x401000 0x5000 machine).mem
fill_page-IsLoaded_example =
    fill_page-IsLoaded file text_segment 0x401000 0x5000 machine (λ o. omega arith) (omega arith)
      (omega arith)

-- The last page gets the rest.
copy_window_run : copy_window text_segment 0x401000 ≡ some (0, 0x800, 0xA00)
unfolding copy_window
copy_window_run = refl
