-- ===== src/Fs/Vfs.antt =====
-- The operations of kernel/fs/vfs.c on paths.
use dev_os.Prelude.{
  leb, true, false, ℕ, ◌+◌, ◌==◌, ◌!=◌, if◌then◌else◌, Option, none, some, List, [], ◌∷◌, take,
  drop, update, bit_and,
}
use dev_os.Prelude.Int.{ℤ, pos, negsuc}
use dev_os.Word.{u32}
use dev_os.Fs.State.{vfs_path_max, Allocator, ramfs_file_ops, ramfs_dir_ops, Stat, Fs, err}
use dev_os.Fs.Ramfs.{ramfs_stat_file, ramfs_stat_dir, ramfs_mkdir, ramfs_create, ramfs_create_root}
use dev_os.Fs.Path.{vfs_lookup, vfs_mount}
use dev_os.Fs.Descriptors.{fd_alloc}

abbrev pub o_creat : ℕ
o_creat = 0x40

abbrev pub o_append : ℕ
o_append = 0x400

-- `sizeof(file_t)`
abbrev pub file_size : ℕ
file_size = 24

-- The offset of the last `/` of the path, from offset `i` on, or the one found before.
unfoldable pub last_slash : List ℕ → ℕ → Option ℕ → Option ℕ
last_slash [] i last = last
last_slash (c ∷ cs) i last = last_slash cs (i + 1) (if c == 47 then some i else last)

-- `dir_path`: what comes before a `/` at offset `k`, or `/` itself when that is nothing. `none` is a
-- write behind the end of the buffer on the stack, which has `VFS_PATH_MAX` bytes; the code does not
-- check it.
abbrev pub parent_path : List ℕ → ℕ → Option (List ℕ)
parent_path path k =
    if leb vfs_path_max k then none else some (if k == 0 then 47 ∷ [] else take k path)

module _ {S : Type 0} where
  unfoldable pub vfs_stat : List ℕ → Stat → Fs S → ℤ × Stat
  vfs_stat path st fs = elim (vfs_lookup path fs) [
    | none ↦ (err 2, st)
    | some node ↦ elim (fs.nodes node).ops [
      | ramfs_file_ops ↦ (pos 0, ramfs_stat_file (fs.nodes node) st)
      | ramfs_dir_ops ↦ (pos 0, ramfs_stat_dir (fs.nodes node) st)
    ]
  ]

  -- `none` is the overrun in `parent_path`, here and below.
  unfoldable pub vfs_mkdir : Allocator S → List ℕ → ℕ → Fs S → Option (ℤ × Fs S)
  vfs_mkdir al path mode fs = elim (last_slash path 0 none) [
    | none ↦ some (err 22, fs)
    | some last ↦ elim (parent_path path last) [
      | none ↦ none
      | some dir_path ↦ elim (vfs_lookup dir_path fs) [
        | none ↦ some (err 2, fs)
        | some dir ↦ elim (fs.nodes dir).ops [
          | ramfs_file_ops ↦ some (err 38, fs)
          | ramfs_dir_ops ↦ some (ramfs_mkdir al dir (drop (last + 1) path) mode fs)
        ]
      ]
    ]
  ]

  -- The second half of `open_node`, in the directory `dir`.
  unfoldable pub create_node : Allocator S → List ℕ → ℕ → ℕ → ℕ → Fs S → Option ℕ × ℤ × Fs S
  create_node al path last dir mode fs = elim (fs.nodes dir).ops [
    | ramfs_file_ops ↦ (none, err 2, fs)
    | ramfs_dir_ops ↦
        let (r, fs1) = ramfs_create al dir (drop (last + 1) path) mode fs in
        elim r [
          | negsuc n ↦ (none, err 13, fs1)
          | pos n ↦ elim (vfs_lookup path fs1) [
            | none ↦ (none, err 2, fs1)
            | some node ↦ (some node, pos 0, fs1)
          ]
        ]
  ]

  -- The node that `vfs_open` opens: the one at the path, or with `O_CREAT` a new file; or the
  -- error that it answers.
  unfoldable pub open_node : Allocator S → List ℕ → ℕ → ℕ → Fs S → Option (Option ℕ × ℤ × Fs S)
  open_node al path flags mode fs = elim (vfs_lookup path fs) [
    | some node ↦ some (some node, pos 0, fs)
    | none ↦ elim (bit_and flags o_creat == 0) [
      | true ↦ some (none, err 2, fs)
      | false ↦ elim (last_slash path 0 none) [
        | none ↦ some (none, err 22, fs)
        | some last ↦ elim (parent_path path last) [
          | none ↦ none
          | some dir_path ↦ elim (vfs_lookup dir_path fs) [
            | none ↦ some (none, err 2, fs)
            | some dir ↦ some (create_node al path last dir mode fs)
          ]
        ]
      ]
    ]
  ]

  -- The rest of `vfs_open`: a file object for the node, in a descriptor.
  unfoldable pub open_file : Allocator S → ℕ → ℕ → Fs S → ℤ × Fs S
  open_file al node flags fs =
      let (block, heap) = al.kzalloc file_size fs.heap in
      elim block [
        | none ↦ (err 12, record fs { heap = heap })
        | some f ↦
            let n = fs.nodes node in
            let fs1 = record fs {
              heap = heap;
              file_objects = update fs.file_objects f (record {
                node = node;
                offset = if bit_and flags o_append != 0 then n.size else 0;
                open_flags = flags;
                refs = 1;
              });
              nodes = update fs.nodes node (record n { refcount = u32 (n.refcount + 1) });
            } in
            let (fd, fs2) = fd_alloc f fs1 in
            elim fd [
              | pos i ↦ (pos i, fs2)
              | negsuc i ↦ (err 24, record fs2 { heap = al.kfree f fs2.heap })
            ]
      ]

  unfoldable pub vfs_open : Allocator S → List ℕ → ℕ → ℕ → Fs S → Option (ℤ × Fs S)
  vfs_open al path flags mode fs = elim (open_node al path flags mode fs) [
    | none ↦ none
    | some (found, r, fs1) ↦
        some (elim found [ none ↦ (r, fs1) | some node ↦ open_file al node flags fs1 ])
  ]

  -- A `vfs_mkdir` whose result is not looked at.
  abbrev pub making : Allocator S → List ℕ → ℕ → Fs S → Option (Fs S)
  making al path mode fs = elim (vfs_mkdir al path mode fs) [
    | none ↦ none
    | some (r, fs1) ↦ some fs1
  ]

  -- The `vfs_mkdir` calls fail or not without a message. A root that is NULL is mounted too.
  unfoldable pub vfs_init : Allocator S → Fs S → Option (Fs S)
  vfs_init al fs =
      let clean = record fs {
        mount_table = λ i. record { path = []; root = 0 };
        mount_count = 0;
      } in
      let (root, fs1) = ramfs_create_root al clean in
      let fs2 = (vfs_mount (47 ∷ []) (elim root [ none ↦ 0 | some r ↦ r ]) fs1).1 in
      elim (making al (47 ∷ 100 ∷ 101 ∷ 118 ∷ []) 0x1ED fs2) [
        | none ↦ none
        | some fs3 ↦ elim (making al (47 ∷ 112 ∷ 114 ∷ 111 ∷ 99 ∷ []) 0x16D fs3) [
          | none ↦ none
          | some fs4 ↦ making al (47 ∷ 116 ∷ 109 ∷ 112 ∷ []) 0x1FF fs4
        ]
      ]
