-- ===== src/Syscall/Tests.antt =====
-- kernel/syscall/syscall.c on a task with one open file.
use dev_os.Prelude.{
  ltb, ℕ, ◌+◌, ◌≡◌, ◌↔◌, ◌≤◌, ◌<◌, refl, arith, true, if◌then◌else◌, some, [], ◌∷◌,
}
use dev_os.Prelude.Int.{pos}
use dev_os.Word.{align_up}
use dev_os.Sched.{Sched, TaskState}
use dev_os.Fs.State.{Allocator, Fs, ramfs_file_ops}
use dev_os.Fs.Ramfs.{ramfs_write}
use dev_os.Fs.Descriptors.{fd_get, vfs_write}
use dev_os.Fs.Content.{IsFile}
use dev_os.Fs.Roundtrip.{IsOpen}
use dev_os.Syscall.{Kernel, uptr_ok, user_end, sys_read, sys_write, sys_lseek}
use dev_os.Syscall.Range.{uptr_ok_iff}
use dev_os.Syscall.Files.{Reads, sys_read-sys_write}

abbrev bump : Allocator ℕ
bump = record {
  kzalloc = λ size s. (some s, s + size);
  krealloc = λ p size s. (some s, s + size);
  kfree = λ p s. s;
}

-- Descriptor 3 is an empty file.
abbrev opened : Fs ℕ
opened = record {
  heap = 0x2000;
  next_ino = 4;
  nodes = λ k. record {
    name = 97 ∷ [];
    flags = 0x8000;
    mode = 0x1A4;
    inode = 2;
    size = 0;
    refcount = 1;
    ops = ramfs_file_ops;
    parent = 1;
    buffer = 0;
    bytes = λ i. 0;
    data_cap = 0;
    children = λ i. 0;
    nchildren = 0;
  };
  mount_table = λ i. record { path = 47 ∷ []; root = 1 };
  mount_count = 1;
  file_objects = λ f. record { node = 2; offset = 0; open_flags = 0; refs = 1 };
  has_task = true;
  files = λ i. 0x900;
}

abbrev tasks : Sched
tasks = record {
  state = λ t. TaskState.task_running;
  kernel_stack = λ t. 0;
  time_slice = λ t. 20;
  total_ticks = λ t. 0;
  wake_tick = λ t. 0;
  next = λ t. 0;
  prev = λ t. 0;
  idle_task = 1;
  current_task = 2;
  run_queue_head = 0;
  sched_tick_count = 0;
  in_sched = true;
  sleep_list = [];
  kernel_rsp = 0;
}

-- The program's memory holds an `x` everywhere below 0x5000.
abbrev kernel : Kernel ℕ
kernel = record {
  fs = opened;
  sched = tasks;
  machine = record {
    pmm = record { bitmap = λ i. 0; total_frames = 0; free_frames = 0; search_hint = 0 };
    mem = λ w. 0;
  };
  cr3 = λ t. 0x1000;
  mmap_cursor = λ t. 0x500000000000;
  pid = λ t. t;
  user = λ a. if ltb a 0x5000 then 120 else 0;
  serial = [];
  ticks = 0;
}

empty-IsFile : IsFile (opened.nodes 2)
empty-IsFile = record { fits = omega arith; zeros = λ i lo hi. refl }

three-IsOpen : IsOpen (pos 3) 0x900 2 0 opened
unfolding fd_get
three-IsOpen = record {
  at = refl;
  opened = omega arith;
  on_node = refl;
  has_node = omega arith;
  at_offset = refl;
  is_file = refl;
}

range_ok : (uptr_ok 0x4000 10 ≡ true) × (uptr_ok 0x6000 10 ≡ true)
unfolding uptr_ok
range_ok = (refl, refl)

ten_written : (sys_write bump 3 0x4000 10 kernel).0 ≡ 10
unfolding sys_write vfs_write ramfs_write fd_get uptr_ok align_up
ten_written = refl

sys_read-sys_write_example :
    Reads kernel.user 0x4000 0x6000 10
      (sys_read 3 0x6000 10 (sys_lseek 3 0 0 (sys_write bump 3 0x4000 10 kernel).1).1)
sys_read-sys_write_example =
    sys_read-sys_write bump 3 0x900 2 0 10 0x4000 0x6000 kernel three-IsOpen empty-IsFile
      (omega arith) (omega arith, omega arith) (omega arith) range_ok.0 range_ok.1 ten_written

uptr_ok_iff_example :
    (uptr_ok 0x7FFFFFFFFF00 0x100 ≡ true)
    ↔ ((0 < 0x7FFFFFFFFF00) × (0 < 0x100) × (0x7FFFFFFFFF00 + 0x100 ≤ user_end))
uptr_ok_iff_example = uptr_ok_iff 0x7FFFFFFFFF00 0x100 (omega arith) (omega arith)
