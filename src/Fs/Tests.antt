-- ===== src/Fs/Tests.antt =====
-- kernel/fs on a directory with two files, with an allocator that hands out ever higher addresses.
use dev_os.Prelude.{
  ℕ, zero, suc, ◌+◌, ◌≡◌, ◌⊎◌, refl, arith, true, ◌==◌, if◌then◌else◌, none, some, [], ◌∷◌,
}
use dev_os.Prelude.Int.{pos, negsuc}
use dev_os.Str.Memory.{Bytes}
use dev_os.Str.Chars.{strcmp}
use dev_os.Fs.State.{Allocator, Node, Fs, Stat, err, ramfs_file_ops, ramfs_dir_ops}
use dev_os.Fs.Ramfs.{
  ramfs_write, ramfs_lookup, ramfs_add, ramfs_unlink, same_name, child_from, vfs_type_file,
  shift_down,
}
use dev_os.Fs.Path.{vfs_lookup, lookup_op, walk}
use dev_os.Fs.Vfs.{vfs_open, vfs_stat}
use dev_os.Fs.Ramfs.{child_from, same_name}
use dev_os.Fs.Content.{IsFile, WriteResult, ramfs_write-WriteResult}
use dev_os.Fs.Walk.{walk-descend, descend}
use dev_os.Fs.Mounts.{IsRootOnly, vfs_open-longer}
use dev_os.Fs.Dir.{IsNew, or_else, ramfs_lookup-ramfs_add}
use dev_os.Fs.Unlink.{IsNamed, Unlinked, ramfs_lookup-ramfs_unlink}

abbrev bump : Allocator ℕ
bump = record {
  kzalloc = λ size s. (some s, s + size);
  krealloc = λ p size s. (some s, s + size);
  kfree = λ p s. s;
}

-- "ab"
abbrev text : Node
text = record {
  name = 97 ∷ [];
  flags = 0x8000;
  mode = 0x1A4;
  inode = 2;
  size = 2;
  refcount = 0;
  ops = ramfs_file_ops;
  parent = 1;
  buffer = 0x1000;
  bytes = λ i. if i == 0 then 97 else if i == 1 then 98 else 0;
  data_cap = 8;
  children = λ i. 0;
  nchildren = 0;
}

-- The root at 1 with the files 2, called `a`, and 3, called `b`.
abbrev root : Node
root = record text {
  name = 47 ∷ [];
  flags = 0x4000;
  inode = 1;
  size = 0;
  ops = ramfs_dir_ops;
  buffer = 0;
  data_cap = 0;
  children = λ i. i + 2;
  nchildren = 2;
}

abbrev fs : Fs ℕ
fs = record {
  heap = 0x2000;
  next_ino = 4;
  nodes = λ k. if k == 1 then root else if k == 3 then record text { name = 98 ∷ [] } else text;
  mount_table = λ i. record { path = 47 ∷ []; root = 1 };
  mount_count = 1;
  file_objects = λ f. record { node = 2; offset = 1; open_flags = 0; refs = 1 };
  has_task = true;
  files = λ i. if i == 0 then 0x900 else 0;
}

abbrev stat : Stat
stat = record { st_ino = 0; st_mode = 0; st_nlink = 0; st_size = 0; st_blksize = 0; st_blocks = 0 }

abbrev letters : Bytes
letters i = 120

text-IsFile : IsFile text
text-IsFile = record { fits = omega arith; zeros = λ i lo hi. ground arith }

root-IsRootOnly : IsRootOnly fs
root-IsRootOnly = record { one = refl; at_root = refl }

-- Nine bytes, of which the last one needs a larger buffer.
ramfs_write-WriteResult_example :
    WriteResult bump 2 letters 5 4 fs (ramfs_write bump 2 letters 5 4 fs)
ramfs_write-WriteResult_example =
    ramfs_write-WriteResult bump 2 letters 5 4 fs text-IsFile (omega arith)

-- The root at 1, the directory `d` at 2 with the file `a` at 4.
abbrev tree : ℕ → Node
tree k =
    if k == 1
    then record root { nchildren = 1 }
    else if k == 2
    then record root { name = 100 ∷ []; children = λ i. 4; nchildren = 1 }
    else text

tree_run : descend tree 1 ((100 ∷ []) ∷ (97 ∷ []) ∷ []) ≡ some 4
unfolding lookup_op ramfs_lookup strcmp child_from same_name
tree_run = refl

-- "/d//a/"
walk-descend_example :
    walk 7 tree 1 (47 ∷ 100 ∷ 47 ∷ 47 ∷ 97 ∷ 47 ∷ []) ≡ descend tree 1 ((100 ∷ []) ∷ (97 ∷ []) ∷ [])
walk-descend_example =
    walk-descend 7 tree 1 (47 ∷ 100 ∷ 47 ∷ 47 ∷ 97 ∷ 47 ∷ []) (omega arith)
      (omega arith, (omega arith, tt))

vfs_open-longer_example :
    (vfs_lookup (47 ∷ 97 ∷ []) fs ≡ none)
    × ((n : ℕ) × (fs' : Fs ℕ) × (vfs_open bump (47 ∷ 97 ∷ []) 0x40 0x1A4 fs ≡ some (negsuc n, fs')))
    × (vfs_stat (47 ∷ 97 ∷ []) stat fs ≡ (err 2, stat))
vfs_open-longer_example =
    vfs_open-longer bump 97 0x40 0x1A4 [] stat fs root-IsRootOnly (omega arith) (omega arith)

new : IsNew bump fs 1 0x2000
new = record { at = refl; not_dir = omega arith; not_child = λ k lt. omega (arith, lt) }

ramfs_lookup-ramfs_add_example :
    ((ramfs_add bump vfs_type_file 1 (99 ∷ []) 0x1A4 fs).0 ≡ pos 0)
    × (ramfs_lookup (ramfs_add bump vfs_type_file 1 (99 ∷ []) 0x1A4 fs).1.nodes 1 (99 ∷ [])
        ≡ or_else (ramfs_lookup fs.nodes 1 (99 ∷ [])) (99 ∷ []) 0x2000 (99 ∷ []))
ramfs_lookup-ramfs_add_example =
    ramfs_lookup-ramfs_add bump vfs_type_file 1 0x1A4 0x2000 (99 ∷ []) (99 ∷ []) fs (omega arith)
      new

names-IsNamed : IsNamed fs 1
names-IsNamed zero lt = (omega arith, tt)
names-IsNamed (suc zero) lt = (omega arith, tt)
names-IsNamed (suc (suc k)) lt = absurd (omega (arith, lt))

ramfs_lookup-ramfs_unlink_example :
    ((ramfs_lookup fs.nodes 1 (97 ∷ []) ≡ none) × (ramfs_unlink 1 (97 ∷ []) fs ≡ (err 2, fs)))
    ⊎ Unlinked fs 1 (98 ∷ []) (ramfs_unlink 1 (97 ∷ []) fs)
ramfs_lookup-ramfs_unlink_example =
    ramfs_lookup-ramfs_unlink 1 (97 ∷ []) (98 ∷ []) fs names-IsNamed (omega arith, tt)
      (omega arith, tt) (ground arith)

-- The run itself: `b` is still found when `a` is gone.
unlinked_run : ramfs_lookup (ramfs_unlink 1 (97 ∷ []) fs).1.nodes 1 (98 ∷ []) ≡ some 3
unfolding ramfs_lookup ramfs_unlink child_from same_name strcmp shift_down
unlinked_run = refl
