-- ===== src/Fs/Descriptors.antt =====
-- Descriptors and open files: the middle part of kernel/fs/vfs.c.
use dev_os.Prelude.{
  ℕ, zero, suc, ◌+◌, ◌-◌, ◌^◌, ◌==◌, leb, ◌||◌, if◌then◌else◌, Option, none, some, update, not,
}
use dev_os.Prelude.Int.{ℤ, pos, negsuc, sub_ℕ}
use dev_os.Word.{u64, u32}
use dev_os.Str.Memory.{Bytes}
use dev_os.Fs.State.{Allocator, ramfs_file_ops, ramfs_dir_ops, File, Fs, max_fds, err, signed}
use dev_os.Fs.Ramfs.{ramfs_read, ramfs_write}

infix 60 ◌+ℤ◌
abbrev pub ◌+ℤ◌ : ℤ → ℤ → ℤ
pos a +ℤ pos b = pos (a + b)
pos a +ℤ negsuc b = sub_ℕ a (suc b)
negsuc a +ℤ pos b = sub_ℕ b (suc a)
negsuc a +ℤ negsuc b = negsuc (suc (a + b))

-- The loop of `fd_alloc` from descriptor `i` on.
unfoldable pub free_fd : (ℕ → ℕ) → ℕ → ℕ → Option ℕ
free_fd files zero i = none
free_fd files (suc rounds) i =
    let rest = free_fd files rounds (i + 1) in if files i == 0 then some i else rest

-- `f->offset += n` when `n > 0`.
abbrev pub advance : File → ℤ → File
advance f (pos n) = record f { offset = u64 (f.offset + n) }
advance f (negsuc n) = f

-- Where `vfs_lseek` goes: from the start (0), the offset (1) or the end (2).
abbrev pub seek_target : ℕ → ℤ → ℕ → ℕ → Option ℤ
seek_target whence off here size =
    if whence == 0
    then some off
    else if whence == 1
    then some (signed here +ℤ off)
    else if whence == 2
    then some (signed size +ℤ off)
    else none

module _ {S : Type 0} where
  unfoldable pub fd_alloc : ℕ → Fs S → ℤ × Fs S
  fd_alloc f fs = if not fs.has_task then (negsuc 0, fs) else elim (free_fd fs.files max_fds 0) [
    | none ↦ (negsuc 0, fs)
    | some i ↦ (pos i, record fs { files = update fs.files i f })
  ]

  unfoldable pub fd_free : ℤ → Fs S → Fs S
  fd_free (negsuc n) fs = fs
  fd_free (pos fd) fs =
      if not fs.has_task || leb max_fds fd then fs else record fs { files = update fs.files fd 0 }

  -- 0 is NULL.
  unfoldable pub fd_get : ℤ → Fs S → ℕ
  fd_get (negsuc n) fs = 0
  fd_get (pos fd) fs = if not fs.has_task || leb max_fds fd then 0 else fs.files fd

  unfoldable pub vfs_read : ℤ → Bytes → ℕ → Fs S → ℤ × Bytes × Fs S
  vfs_read fd buf len fs =
      let f = fd_get fd fs in
      let file = fs.file_objects f in
      let (n, read) = ramfs_read (fs.nodes file.node) buf len file.offset in
      if f == 0
      then (err 9, buf, fs)
      else if file.node == 0
      then (err 22, buf, fs)
      else elim (fs.nodes file.node).ops [
        | ramfs_dir_ops ↦ (err 22, buf, fs)
        | ramfs_file_ops ↦
            (n, read, record fs { file_objects = update fs.file_objects f (advance file n) })
      ]

  unfoldable pub vfs_write : Allocator S → ℤ → Bytes → ℕ → Fs S → ℤ × Fs S
  vfs_write al fd buf len fs =
      let f = fd_get fd fs in
      let file = fs.file_objects f in
      let (n, fs1) = ramfs_write al file.node buf len file.offset fs in
      if f == 0
      then (err 9, fs)
      else if file.node == 0
      then (err 22, fs)
      else elim (fs.nodes file.node).ops [
        | ramfs_dir_ops ↦ (err 22, fs)
        | ramfs_file_ops ↦
            (n, record fs1 { file_objects = update fs1.file_objects f (advance file n) })
      ]

  unfoldable pub vfs_lseek : ℤ → ℤ → ℕ → Fs S → ℤ × Fs S
  vfs_lseek fd off whence fs =
      let f = fd_get fd fs in
      let file = fs.file_objects f in
      if f == 0
      then (err 9, fs)
      else elim (seek_target whence off file.offset (fs.nodes file.node).size) [
        | none ↦ (err 22, fs)
        | some (negsuc n) ↦ (err 22, fs)
        | some (pos n) ↦ (
          pos n,
          record fs { file_objects = update fs.file_objects f (record file { offset = n }) },
        )
      ]

  unfoldable pub vfs_close : Allocator S → ℤ → Fs S → ℤ × Fs S
  vfs_close al fd fs =
      let f = fd_get fd fs in
      let fs1 = fd_free fd fs in
      let file = fs1.file_objects f in
      let left = u32 (file.refs + 2 ^ 32 - 1) in
      let fs2 = record fs1 {
        file_objects = update fs1.file_objects f (record file { refs = left });
      } in
      let n = fs2.nodes file.node in
      let released = record fs2 {
        heap = al.kfree f fs2.heap;
        nodes =
            if file.node == 0
            then fs2.nodes
            else update fs2.nodes file.node (record n { refcount = u32 (n.refcount + 2 ^ 32 - 1) });
      } in
      if f == 0 then (err 9, fs) else if left == 0 then (pos 0, released) else (pos 0, fs2)
