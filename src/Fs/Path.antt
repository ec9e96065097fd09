-- ===== src/Fs/Path.antt =====
-- The first half of kernel/fs/vfs.c: components of paths, the mount table, and `vfs_lookup`. A path
-- is the string's bytes, never NULL; `/` is 47.
use dev_os.Prelude.{
  ℕ, zero, suc, ◌+◌, ◌-◌, ◌==◌, ◌!=◌, ltb, leb, ◌&&◌, if◌then◌else◌, Option, none, some, List, [],
  ◌∷◌, take, drop, update, Bool, false,
}
use dev_os.Prelude.Int.{ℤ, pos, negsuc}
use dev_os.Str.Chars.{head, strlen, strncmp}
use dev_os.Fs.State.{
  ramfs_file_ops, ramfs_dir_ops, Node, Mount, Fs, vfs_name_max, vfs_path_max, mount_max,
}
use dev_os.Fs.Ramfs.{ramfs_lookup}

unfoldable pub skip_slash : List ℕ → List ℕ
skip_slash [] = []
skip_slash (c ∷ cs) = let rest = skip_slash cs in if c == 47 then rest else c ∷ cs

-- The copying loop with room for `n` more bytes: what it copies, and what is left.
unfoldable pub copy_component : ℕ → List ℕ → List ℕ × List ℕ
copy_component zero s = ([], s)
copy_component (suc n) [] = ([], [])
copy_component (suc n) (c ∷ cs) =
    let (out, rest) = copy_component n cs in if c == 47 then ([], c ∷ cs) else (c ∷ out, rest)

unfoldable pub path_component : List ℕ → ℕ → Option (List ℕ × List ℕ)
path_component p outsz = elim (skip_slash p) [
  | [] ↦ none
  | c ∷ cs ↦ some (copy_component (outsz - 1) (c ∷ cs))
]

-- `strncmp(path, prefix, strlen(prefix)) == 0`
unfoldable pub covers : List ℕ → List ℕ → Bool
covers prefix path = elim (strncmp path prefix (strlen prefix)) [
  | pos n ↦ n == 0
  | negsuc n ↦ false
]

-- The loop of `find_mount` over the mounts from number `i` on, with the best so far and its length.
unfoldable pub best_mount : (ℕ → Mount) → List ℕ → ℕ → ℕ → Option ℕ → ℕ → Option ℕ × ℕ
best_mount table path zero i best best_len = (best, best_len)
best_mount table path (suc rounds) i best best_len =
    let mlen = strlen (table i).path in
    let better = covers (table i).path path && ltb best_len mlen in
    best_mount table path rounds (i + 1) (if better then some i else best)
      (if better then mlen else best_len)

-- The root of the deepest mount and the rest of the path.
unfoldable pub find_mount : (ℕ → Mount) → ℕ → List ℕ → Option (ℕ × List ℕ)
find_mount table count path =
    let (best, best_len) = best_mount table path count 0 none 0 in
    elim best [ none ↦ none | some i ↦ some ((table i).root, drop best_len path) ]

-- `ops->lookup`, which is NULL for a file.
unfoldable pub lookup_op : (ℕ → Node) → ℕ → List ℕ → Option ℕ
lookup_op nodes node comp = elim (nodes node).ops [
  | ramfs_file_ops ↦ none
  | ramfs_dir_ops ↦ ramfs_lookup nodes node comp
]

-- The loop of `vfs_lookup`, with `fuel` rounds left.
unfoldable pub walk : ℕ → (ℕ → Node) → ℕ → List ℕ → Option ℕ
walk zero nodes node p = none
walk (suc fuel) nodes node p = elim (path_component p (vfs_name_max + 1)) [
  | none ↦ some node
  | some (comp, rest) ↦ elim (lookup_op nodes node comp) [
    | none ↦ none
    | some child ↦ walk fuel nodes child rest
  ]
]

module _ {S : Type 0} where
  -- Every round uses up a byte of the path, and the last one finds none.
  unfoldable pub vfs_lookup : List ℕ → Fs S → Option ℕ
  vfs_lookup path fs =
      if head path != 47 then none else elim (find_mount fs.mount_table fs.mount_count path) [
        | none ↦ none
        | some (root, rel) ↦ walk (suc (strlen rel)) fs.nodes root rel
      ]

  unfoldable pub vfs_mount : List ℕ → ℕ → Fs S → ℤ × Fs S
  vfs_mount path root fs = if leb mount_max fs.mount_count then (negsuc 0, fs) else (
    pos 0,
    record fs {
      mount_table =
          update fs.mount_table fs.mount_count
            (record { path = take (vfs_path_max - 1) path; root = root });
      mount_count = fs.mount_count + 1;
    },
  )
