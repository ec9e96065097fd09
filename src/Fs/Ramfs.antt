-- ===== src/Fs/Ramfs.antt =====
-- kernel/fs/ramfs.c.
use dev_os.Prelude.{
  false, Bool, ℕ, zero, suc, ◌+◌, ◌-◌, ◌/◌, ◌==◌, ◌!=◌, ltb, leb, ◌&&◌, if◌then◌else◌, bit_and,
  bit_or, Option, none, some, List, [], ◌∷◌, take, update,
}
use dev_os.Prelude.Int.{ℤ, pos, negsuc}
use dev_os.Word.{u64, u32, align_up}
use dev_os.Str.Memory.{Bytes, memset}
use dev_os.Str.Chars.{strcmp}
use dev_os.Fs.State.{
  Allocator, ramfs_file_ops, ramfs_dir_ops, Node, Stat, Fs, vfs_name_max, err, signed, copy_bytes,
}

abbrev pub ramfs_block : ℕ
ramfs_block = 4096

abbrev pub ramfs_max_children : ℕ
ramfs_max_children = 256

abbrev pub vfs_type_file : ℕ
vfs_type_file = 0x8000

abbrev pub vfs_type_dir : ℕ
vfs_type_dir = 0x4000

-- `sizeof(ramfs_node_t)`
abbrev pub node_size : ℕ
node_size = 2392

-- `strcmp(a, b) == 0`
unfoldable pub same_name : List ℕ → List ℕ → Bool
same_name a b = elim (strcmp a b) [ pos n ↦ n == 0 | negsuc n ↦ false ]

-- The new node: zeroed memory, with the fields that `ramfs_alloc` sets. Of the name, as many bytes
-- as fit.
abbrev pub fresh_node : List ℕ → ℕ → ℕ → Node
fresh_node name type ino = record {
  name = take vfs_name_max name;
  flags = type;
  mode = 0;
  inode = ino;
  size = 0;
  refcount = 0;
  ops = if bit_and type vfs_type_dir != 0 then ramfs_dir_ops else ramfs_file_ops;
  parent = 0;
  buffer = 0;
  bytes = λ i. 0;
  data_cap = 0;
  children = λ i. 0;
  nchildren = 0;
}

unfoldable pub ramfs_read : Node → Bytes → ℕ → ℕ → ℤ × Bytes
ramfs_read n buf len off =
    let count = if ltb n.size (u64 (off + len)) then n.size - off else len in
    if leb n.size off then (pos 0, buf) else (signed count, copy_bytes buf 0 n.bytes off count)

-- The node once its buffer is at `p` and has `new_cap` bytes, the new ones cleared.
abbrev pub grown : Node → ℕ → ℕ → Node
grown n p new_cap = record n {
  buffer = p;
  bytes =
      if ltb n.data_cap new_cap
      then memset n.bytes n.data_cap 0 (new_cap - n.data_cap)
      else n.bytes;
  data_cap = new_cap;
}

-- The end of `ramfs_write`: the bytes go into the buffer and the size up to `end_off`.
abbrev pub stored : Node → Bytes → ℕ → ℕ → ℕ → Node
stored n buf len off end_off = record n {
  bytes = copy_bytes n.bytes off buf 0 len;
  size = if ltb n.size end_off then end_off else n.size;
}

unfoldable pub ramfs_stat_file : Node → Stat → Stat
ramfs_stat_file n st = record {
  st_ino = n.inode;
  st_mode = bit_or n.flags n.mode;
  st_nlink = 1;
  st_size = n.size;
  st_blksize = ramfs_block;
  st_blocks = align_up n.size 512 / 512;
}

unfoldable pub ramfs_truncate : Node → ℕ → Node
ramfs_truncate n new_size = record n {
  bytes =
      if ltb new_size n.size && n.buffer != 0
      then memset n.bytes new_size 0 (n.size - new_size)
      else n.bytes;
  size = new_size;
}

unfoldable pub ramfs_stat_dir : Node → Stat → Stat
ramfs_stat_dir n st = record st {
  st_ino = n.inode;
  st_mode = bit_or n.flags n.mode;
  st_nlink = u32 (n.nchildren + 2);
  st_size = 0;
}

-- The first of the children from number `i` on, `rounds` in all, that has the name: its number.
unfoldable pub child_from : (ℕ → Node) → (ℕ → ℕ) → List ℕ → ℕ → ℕ → Option ℕ
child_from nodes children name zero i = none
child_from nodes children name (suc rounds) i =
    let rest = child_from nodes children name rounds (i + 1) in
    if same_name (nodes (children i)).name name then some i else rest

-- `none` is NULL.
unfoldable pub ramfs_lookup : (ℕ → Node) → ℕ → List ℕ → Option ℕ
ramfs_lookup nodes dir name =
    let d = nodes dir in
    elim (child_from nodes d.children name d.nchildren 0) [
      | none ↦ none
      | some i ↦ some (d.children i)
    ]

-- The name that it stores, with its answer.
unfoldable pub ramfs_readdir : (ℕ → Node) → ℕ → ℕ → Option (List ℕ)
ramfs_readdir nodes dir idx =
    let d = nodes dir in
    if leb d.nchildren idx then none else some (take vfs_name_max (nodes (d.children idx)).name)

-- `children[j] = children[j + 1]` from `j` on, `rounds` times.
unfoldable pub shift_down : (ℕ → ℕ) → ℕ → ℕ → (ℕ → ℕ)
shift_down children zero j = children
shift_down children (suc rounds) j =
    shift_down (update children j (children (j + 1))) rounds (j + 1)

module _ {S : Type 0} (al : Allocator S) where
  unfoldable pub ramfs_alloc : List ℕ → ℕ → Fs S → Option ℕ × Fs S
  ramfs_alloc name type fs =
      let (block, heap) = al.kzalloc node_size fs.heap in
      elim block [
        | none ↦ (none, record fs { heap = heap })
        | some n ↦ (
          some n,
          record fs {
            heap = heap;
            next_ino = u64 (fs.next_ino + 1);
            nodes = update fs.nodes n (fresh_node name type fs.next_ino);
          },
        )
      ]

  unfoldable pub ramfs_write : ℕ → Bytes → ℕ → ℕ → Fs S → ℤ × Fs S
  ramfs_write node buf len off fs =
      let n = fs.nodes node in
      let end_off = u64 (off + len) in
      let new_cap = align_up end_off ramfs_block in
      let (moved, heap) = al.krealloc n.buffer new_cap fs.heap in
      if ltb n.data_cap end_off
      then elim moved [
        | none ↦ (err 12, record fs { heap = heap })
        | some p ↦ (
          signed len,
          record fs {
            heap = heap;
            nodes = update fs.nodes node (stored (grown n p new_cap) buf len off end_off);
          },
        )
      ]
      else (signed len, record fs { nodes = update fs.nodes node (stored n buf len off end_off) })

  -- What `ramfs_mkdir` and `ramfs_create` share: they differ in the type of the child.
  unfoldable pub ramfs_add : ℕ → ℕ → List ℕ → ℕ → Fs S → ℤ × Fs S
  ramfs_add type dir name mode fs =
      let (child, fs1) = ramfs_alloc name type fs in
      if leb ramfs_max_children (fs.nodes dir).nchildren then (err 28, fs) else elim child [
        | none ↦ (err 12, fs1)
        | some c ↦
            let nodes = update fs1.nodes c (record (fs1.nodes c) { mode = mode; parent = dir }) in
            let d = nodes dir in
            (
              pos 0,
              record fs1 {
                nodes = update nodes dir (record d {
                  children = update d.children d.nchildren c;
                  nchildren = u32 (d.nchildren + 1);
                });
              },
            )
      ]

  abbrev pub ramfs_mkdir : ℕ → List ℕ → ℕ → Fs S → ℤ × Fs S
  ramfs_mkdir = ramfs_add vfs_type_dir

  abbrev pub ramfs_create : ℕ → List ℕ → ℕ → Fs S → ℤ × Fs S
  ramfs_create = ramfs_add vfs_type_file

  unfoldable pub ramfs_create_root : Fs S → Option ℕ × Fs S
  ramfs_create_root fs =
      let (root, fs1) = ramfs_alloc (47 ∷ []) vfs_type_dir fs in
      elim root [
        | none ↦ (none, fs1)
        | some r ↦ (
          some r,
          record fs1 { nodes = update fs1.nodes r (record (fs1.nodes r) { mode = 0x1ED }) },
        )
      ]

unfoldable pub ramfs_unlink : {S : Type 0} → ℕ → List ℕ → Fs S → ℤ × Fs S
ramfs_unlink dir name fs =
    let d = fs.nodes dir in
    elim (child_from fs.nodes d.children name d.nchildren 0) [
      | none ↦ (err 2, fs)
      | some i ↦ (
        pos 0,
        record fs {
          nodes = update fs.nodes dir (record d {
            children = shift_down d.children (d.nchildren - 1 - i) i;
            nchildren = d.nchildren - 1;
          });
        },
      )
    ]
