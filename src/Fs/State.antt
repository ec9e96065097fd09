-- ===== src/Fs/State.antt =====
-- The objects of kernel/fs/vfs.h and kernel/fs/ramfs.c, each kind as a function from the address,
-- the static variables, and what the file system asks of the heap. Address 0 is NULL.
use dev_os.Prelude.{ℕ, ◌+◌, ◌-◌, ◌^◌, leb, ltb, ◌&&◌, if◌then◌else◌, Option, List, Bool}
use dev_os.Prelude.Int.{ℤ, pos, negsuc}
use dev_os.Str.Memory.{Bytes}
use dev_os.Heap.State.{Heap}
use dev_os.Heap.Api.{kmalloc, kfree, krealloc}

-- `kmalloc` and its companions, on a state of the allocator. What `kzalloc` clears and `krealloc`
-- copies is written out where they are called.
pub record Allocator (S : Type 0) : Type 0 where
  pub kzalloc : ℕ → S → Option ℕ × S
  pub krealloc : ℕ → ℕ → S → Option ℕ × S
  pub kfree : ℕ → S → S

-- The kernel's own heap, with the fuel of its walks.
abbrev pub heap_allocator : ℕ → Allocator Heap
heap_allocator fuel = record { kzalloc = kmalloc fuel; krealloc = krealloc fuel; kfree = kfree }

-- The two tables of operations that exist. Neither has an `open` or a `close`.
pub data Ops : Type 0 where
  ramfs_file_ops : Ops
  ramfs_dir_ops : Ops

-- A `ramfs_node_t` with the `vfs_node_t` at its start. `ino` is `inode` again and `private` the
-- node itself; `bytes` is what the buffer (`data`) holds.
pub record Node : Type 0 where
  pub name : List ℕ
  pub flags : ℕ
  pub mode : ℕ
  pub inode : ℕ
  pub size : ℕ
  pub refcount : ℕ
  pub ops : Ops
  pub parent : ℕ
  pub buffer : ℕ
  pub bytes : Bytes
  pub data_cap : ℕ
  pub children : ℕ → ℕ
  pub nchildren : ℕ

-- `file_t`
pub record File : Type 0 where
  pub node : ℕ
  pub offset : ℕ
  pub open_flags : ℕ
  pub refs : ℕ

pub record Mount : Type 0 where
  pub path : List ℕ
  pub root : ℕ

pub record Stat : Type 0 where
  pub st_ino : ℕ
  pub st_mode : ℕ
  pub st_nlink : ℕ
  pub st_size : ℕ
  pub st_blksize : ℕ
  pub st_blocks : ℕ

-- `files` is the descriptor table of the current task, if there is one.
pub record Fs (S : Type 0) : Type 0 where
  pub heap : S
  pub next_ino : ℕ
  pub nodes : ℕ → Node
  pub mount_table : ℕ → Mount
  pub mount_count : ℕ
  pub file_objects : ℕ → File
  pub has_task : Bool
  pub files : ℕ → ℕ

abbrev pub vfs_name_max : ℕ
vfs_name_max = 255

abbrev pub vfs_path_max : ℕ
vfs_path_max = 4096

abbrev pub max_fds : ℕ
max_fds = 64

abbrev pub mount_max : ℕ
mount_max = 16

-- `-n`
abbrev pub err : ℕ → ℤ
err n = negsuc (n - 1)

-- `(int64_t)n`
abbrev pub signed : ℕ → ℤ
signed n = if ltb n (2 ^ 63) then pos n else negsuc (2 ^ 64 - 1 - n)

-- `memcpy(dst + at, src + from, n)` between two buffers.
abbrev pub copy_bytes : Bytes → ℕ → Bytes → ℕ → ℕ → Bytes
copy_bytes dst at src from n i = if leb at i && ltb i (at + n) then src (from + (i - at)) else dst i
