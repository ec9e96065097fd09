-- ===== src/Syscall.antt =====
-- kernel/syscall/syscall.c: the handlers, on the file system, the scheduler and the page tables. The
-- file system's descriptor table is that of the current task. User memory is a function from the
-- address. What the entry in assembly and the model registers do has no counterpart.
pub mod Range
pub mod Files
pub mod Map
mod Tests
use dev_os.Prelude.{
  ℕ, zero, suc, ◌+◌, ◌-◌, ◌*◌, ◌/◌, ◌%◌, ◌^◌, ◌==◌, ◌!=◌, ltb, leb, ◌||◌, if◌then◌else◌, Bool, true,
  false, not, Option, none, some, List, [], ◌∷◌, ◌++◌, update, bit_or,
}
use dev_os.Prelude.Int.{ℤ, pos, negsuc}
use dev_os.Word.{u64, u32, page_size, align_down, align_up}
use dev_os.Str.Memory.{little, Bytes}
use dev_os.Mm.Machine.{Machine}
use dev_os.Mm.Vmm.{vmm_present, vmm_writable, vmm_user, vmm_no_exec}
use dev_os.Mm.Vmm.Ext.{vmm_alloc_range, vmm_free_range}
use dev_os.Sched.{Sched, sched_exit, sched_yield, sched_block}
use dev_os.Fs.State.{Allocator, Fs, copy_bytes}
use dev_os.Fs.Descriptors.{vfs_read, vfs_write, vfs_lseek, vfs_close}
use dev_os.Fs.Vfs.{vfs_open, vfs_mkdir}

-- `cr3`, `mmap_cursor` and `pid` are fields of `task_t`, by the task's address; `ticks` is what
-- `timer_ticks` answers, and `serial` the characters sent, the last one last.
pub record Kernel (S : Type 0) : Type 0 where
  pub fs : Fs S
  pub sched : Sched
  pub machine : Machine
  pub cr3 : ℕ → ℕ
  pub mmap_cursor : ℕ → ℕ
  pub pid : ℕ → ℕ
  pub user : Bytes
  pub serial : List ℕ
  pub ticks : ℕ

abbrev pub user_end : ℕ
user_end = 0x7FFF_FFFF_FFFF

unfoldable pub uptr_ok : ℕ → ℕ → Bool
uptr_ok addr len =
    if addr == 0 || len == 0
    then false
    else if leb user_end addr
    then false
    else if ltb (u64 (addr + len)) addr
    then false
    else if ltb user_end (u64 (addr + len))
    then false
    else true

-- `(uint64_t)n` of a signed result, and `(int)n` of an argument.
abbrev pub unsigned : ℤ → ℕ
unsigned (pos n) = u64 n
unsigned (negsuc n) = 2 ^ 64 - 1 - n

abbrev pub to_int : ℕ → ℤ
to_int n = if ltb (u32 n) (2 ^ 31) then pos (u32 n) else negsuc (2 ^ 32 - 1 - u32 n)

-- `(int64_t)n`
abbrev pub to_int64 : ℕ → ℤ
to_int64 n = if ltb n (2 ^ 63) then pos n else negsuc (2 ^ 64 - 1 - n)

-- `(uint64_t)-n`
abbrev pub error : ℕ → ℕ
error n = 2 ^ 64 - n

-- The memory seen from an address.
abbrev pub from : Bytes → ℕ → Bytes
from m a i = m (a + i)

-- `count` characters of the memory, from an address on.
unfoldable pub chars : Bytes → ℕ → ℕ → List ℕ
chars m a zero = []
chars m a (suc count) = m a ∷ chars m (a + 1) count

-- The string at an address, up to its NUL or the end of the fuel.
unfoldable pub string_at : ℕ → Bytes → ℕ → List ℕ
string_at zero m a = []
string_at (suc fuel) m a =
    let rest = string_at fuel m (a + 1) in if m a == 0 then [] else m a ∷ rest

module _ {S : Type 0} where
  unfoldable pub sys_read : ℕ → ℕ → ℕ → Kernel S → ℕ × Kernel S
  sys_read fd buf count k =
      let (n, read, fs) = vfs_read (to_int fd) (from k.user buf) count k.fs in
      if not (uptr_ok buf count)
      then (error 14, k)
      else (unsigned n, record k { fs = fs; user = copy_bytes k.user buf read 0 count })

  unfoldable pub sys_write : Allocator S → ℕ → ℕ → ℕ → Kernel S → ℕ × Kernel S
  sys_write al fd buf count k =
      let (n, fs) = vfs_write al (to_int fd) (from k.user buf) count k.fs in
      if not (uptr_ok buf count)
      then (error 14, k)
      else if fd == 1 || fd == 2
      then (count, record k { serial = k.serial ++ chars k.user buf count })
      else (unsigned n, record k { fs = fs })

  -- `none` is the overrun of `vfs_open`.
  unfoldable pub sys_open : Allocator S → ℕ → ℕ → ℕ → ℕ → Kernel S → Option (ℕ × Kernel S)
  sys_open al fuel path flags mode k =
      let opened = vfs_open al (string_at fuel k.user path) (u32 flags) (u32 mode) k.fs in
      if not (uptr_ok path 1)
      then some (error 14, k)
      else elim opened [ none ↦ none | some (fd, fs) ↦ some (unsigned fd, record k { fs = fs }) ]

  unfoldable pub sys_close : Allocator S → ℕ → Kernel S → ℕ × Kernel S
  sys_close al fd k =
      let (r, fs) = vfs_close al (to_int fd) k.fs in (unsigned r, record k { fs = fs })

  -- A negative `whence` is none of the three, like one above 2.
  unfoldable pub sys_lseek : ℕ → ℕ → ℕ → Kernel S → ℕ × Kernel S
  sys_lseek fd off whence k =
      let (r, fs) = vfs_lseek (to_int fd) (to_int64 off) (u32 whence) k.fs in
      (unsigned r, record k { fs = fs })

  -- The handler does not return: the state of the next task.
  unfoldable pub sys_exit : ℕ → Kernel S → Option (Kernel S)
  sys_exit fuel k = elim (sched_exit fuel k.sched) [
    | none ↦ none
    | some s ↦ some (record k { sched = s })
  ]

  unfoldable pub sys_getpid : Kernel S → ℕ
  sys_getpid k = if k.sched.current_task == 0 then 0 else k.pid k.sched.current_task

  unfoldable pub sys_yield : ℕ → Kernel S → Option (ℕ × Kernel S)
  sys_yield fuel k = elim (sched_yield fuel k.sched) [
    | none ↦ none
    | some s ↦ some (0, record k { sched = s })
  ]

  unfoldable pub sys_nanosleep : ℕ → ℕ → Kernel S → Option (ℕ × Kernel S)
  sys_nanosleep fuel rqtp k =
      let ms = u64 (u64 (little 8 k.user rqtp * 1000) + little 8 k.user (rqtp + 8) / 1000000) in
      let wake = u64 (k.ticks + ms) in
      if not (uptr_ok rqtp 16)
      then some (error 14, k)
      else elim (sched_block fuel k.sched.current_task wake k.sched) [
        | none ↦ none
        | some s ↦ some (0, record k { sched = s })
      ]

  -- `VMM_USER_RW | VMM_NO_EXEC`
  unfoldable pub sys_mmap : ℕ → ℕ → Kernel S → ℕ × Kernel S
  sys_mmap addr length k =
      let t = k.sched.current_task in
      let va = if addr != 0 then align_down addr page_size else k.mmap_cursor t in
      let nbytes = align_up length page_size in
      let flags = bit_or (bit_or (bit_or vmm_present vmm_writable) vmm_user) vmm_no_exec in
      let (r, machine) = vmm_alloc_range (k.cr3 t) va nbytes flags k.machine in
      if length == 0 then (error 22, k) else if t == 0 then (error 3, k) else elim r [
        | negsuc n ↦ (error 12, record k { machine = machine })
        | pos n ↦ (
          va,
          record k {
            machine = machine;
            mmap_cursor =
                if addr == 0 then update k.mmap_cursor t (u64 (va + nbytes)) else k.mmap_cursor;
          },
        )
      ]

  -- Without a current task the source reads through NULL.
  unfoldable pub sys_munmap : ℕ → ℕ → Kernel S → Option (ℕ × Kernel S)
  sys_munmap addr length k =
      let t = k.sched.current_task in
      if addr == 0 || length == 0
      then some (error 22, k)
      else if t == 0
      then none
      else some (0, record k { machine = vmm_free_range (k.cr3 t) addr length k.machine })

  -- `none` is the overrun of `vfs_mkdir`.
  unfoldable pub sys_mkdir : Allocator S → ℕ → ℕ → ℕ → Kernel S → Option (ℕ × Kernel S)
  sys_mkdir al fuel path mode k =
      let made = vfs_mkdir al (string_at fuel k.user path) (u32 mode) k.fs in
      if not (uptr_ok path 1)
      then some (error 14, k)
      else elim made [ none ↦ none | some (r, fs) ↦ some (unsigned r, record k { fs = fs }) ]

  unfoldable pub sys_gettime : Kernel S → ℕ
  sys_gettime k = k.ticks
