-- ===== src/Fs/Mounts.antt =====
-- What the comparison of `find_mount` makes of paths while the root is the only mount.
use dev_os.Fs.Ramfs.{vfs_type_file, ramfs_create, node_size, ramfs_alloc, ramfs_add}
use dev_os.Fs.Vfs.{create_node, last_slash, o_creat, open_node, vfs_stat, vfs_open}
use dev_os.Prelude.{
  some, ◌<◌, ◌≤◌, length, take, if◌then◌else◌, ◌+◌, drop, refl, Option-cases, ◌==◌, inr, inl, leb,
  bit_and, Bool-cases, Option, ◌⊎◌, ℕ, ◌≡◌, ◌≢◌, arith, false, none, List, [], ◌∷◌,
}
use dev_os.Prelude.Int.{pos, ℤ, negsuc, sub_ℕ}
use dev_os.Str.Chars.{strlen, strncmp}
use dev_os.Str.Compare.{strncmp-append}
use dev_os.Fs.State.{vfs_path_max, ramfs_dir_ops, ramfs_file_ops, Ops, err, Stat, Allocator, Fs}
use dev_os.Fs.Path.{covers, best_mount, find_mount, vfs_lookup}

covers_longer : (c : ℕ) (cs : List ℕ) → c ≢ 0 → covers (47 ∷ []) (47 ∷ c ∷ cs) ≡ false
unfolding covers strlen
covers_longer c cs ne =
    let e : strncmp (47 ∷ c ∷ cs) (47 ∷ []) 1 ≡ sub_ℕ c 0 = strncmp-append (47 ∷ []) (c ∷ cs) [] in
    rw (e, covers) (ground arith)

-- The last slash is a byte of the path.
last_slash-inside :
    (path : List ℕ) (i : ℕ) (before : Option ℕ) (last : ℕ)
    → (before ≡ none) ⊎ ((k : ℕ) × (before ≡ some k) × (k < i))
    → last_slash path i before ≡ some last
    → last < i + length path
unfolding last_slash
last_slash-inside [] i before last known e = elim known [
  | inl gone ↦ absurd (ground (arith, gone, e))
  | inr (k, is, lt) ↦ ground (arith, is, e, lt)
]
last_slash-inside (c ∷ cs) i before last known e = elim (Bool-cases (c == 47)) [
  | inl slash ↦ omega (
    arith,
    last_slash-inside cs (i + 1) (some i) last (inr (i, refl, omega arith)) (rw slash at e),
  )
  | inr other ↦
      let wider : (before ≡ none) ⊎ ((k : ℕ) × (before ≡ some k) × (k < i + 1)) = elim known [
        | inl gone ↦ inl gone
        | inr (k, is, lt) ↦ inr (k, is, omega (arith, lt))
      ] in
      omega (arith, last_slash-inside cs (i + 1) before last wider (rw other at e))
]

-- The root is the only mount, as `vfs_init` leaves it.
pub record IsRootOnly {S : Type 0} (fs : Fs S) : Type 0 where
  pub one : fs.mount_count ≡ 1
  pub at_root : (fs.mount_table 0).path ≡ 47 ∷ []

Ops-cases : (o : Ops) → (o ≡ ramfs_file_ops) ⊎ (o ≡ ramfs_dir_ops)
Ops-cases ramfs_file_ops = inl refl
Ops-cases ramfs_dir_ops = inr refl

ℤ-cases : (a : ℤ) → ((n : ℕ) × (a ≡ pos n)) ⊎ ((n : ℕ) × (a ≡ negsuc n))
ℤ-cases (pos n) = inl (n, refl)
ℤ-cases (negsuc n) = inr (n, refl)

module _ {S : Type 0} where
  lookup_longer :
      (c : ℕ) (cs : List ℕ) (fs : Fs S) → IsRootOnly fs → c ≢ 0 → vfs_lookup (47 ∷ c ∷ cs) fs ≡ none
  unfolding vfs_lookup find_mount best_mount
  lookup_longer c cs fs v ne =
      simp (v.one, find_mount, best_mount, v.at_root, covers_longer c cs ne)

  ramfs_alloc-IsRootOnly :
      (al : Allocator S) (type : ℕ) (name : List ℕ) (fs : Fs S)
      → IsRootOnly fs
      → IsRootOnly (ramfs_alloc al name type fs).1
  unfolding ramfs_alloc
  ramfs_alloc-IsRootOnly al type name fs v = elim (Option-cases (al.kzalloc node_size fs.heap).0) [
    | inl e ↦ rw (e, ramfs_alloc) (record { one = v.one; at_root = v.at_root })
    | inr (a, e) ↦ rw (e, ramfs_alloc) (record { one = v.one; at_root = v.at_root })
  ]

  ramfs_add-IsRootOnly :
      (al : Allocator S) (type dir mode : ℕ) (name : List ℕ) (fs : Fs S)
      → IsRootOnly fs
      → IsRootOnly (ramfs_add al type dir name mode fs).1
  unfolding ramfs_add
  ramfs_add-IsRootOnly al type dir mode name fs v =
      let w = ramfs_alloc-IsRootOnly al type name fs v in
      elim (Bool-cases (leb 256 (fs.nodes dir).nchildren)) [
        | inl full ↦ rw (full, ramfs_add) v
        | inr room ↦ elim (Option-cases (ramfs_alloc al name type fs).0) [
          | inl e ↦ rw (room, e, ramfs_add) (record { one = w.one; at_root = w.at_root })
          | inr (a, e) ↦ rw (room, e, ramfs_add) (record { one = w.one; at_root = w.at_root })
        ]
      ]

  -- No node, and an error.
  abbrev Failed : Option ℕ × ℤ × Fs S → Type 0
  Failed r = (r.0 ≡ none) × ((n : ℕ) × (r.1 ≡ negsuc n))

  create_node_fails :
      (al : Allocator S) (c last dir mode : ℕ) (cs : List ℕ) (fs : Fs S)
      → IsRootOnly fs
      → c ≢ 0
      → Failed (create_node al (47 ∷ c ∷ cs) last dir mode fs)
  unfolding create_node
  create_node_fails al c last dir mode cs fs v ne =
      let path = 47 ∷ c ∷ cs in
      let made = ramfs_create al dir (drop (last + 1) path) mode fs in
      let still = ramfs_add-IsRootOnly al vfs_type_file dir mode (drop (last + 1) path) fs v in
      let gone = lookup_longer c cs made.1 still ne in
      elim (Ops-cases (fs.nodes dir).ops) [
        | inl o ↦ rw (o, create_node) (refl, (1, refl))
        | inr o ↦ elim (ℤ-cases made.0) [
          | inl (n, r) ↦ rw (o, r, gone, create_node) (refl, (1, refl))
          | inr (n, r) ↦ rw (o, r, create_node) (refl, (12, refl))
        ]
      ]

  open_node_fails :
      (al : Allocator S) (c flags mode : ℕ) (cs : List ℕ) (fs : Fs S)
      → IsRootOnly fs
      → c ≢ 0
      → length (47 ∷ c ∷ cs) ≤ vfs_path_max
      → (r : Option ℕ × ℤ × Fs S) × (open_node al (47 ∷ c ∷ cs) flags mode fs ≡ some r) × Failed r
  unfolding open_node
  open_node_fails al c flags mode cs fs v ne short =
      let path = 47 ∷ c ∷ cs in
      let gone = lookup_longer c cs fs v ne in
      elim (Bool-cases (bit_and flags o_creat == 0)) [
        | inl e ↦ ((none, err 2, fs), rw (gone, e, open_node) refl, (refl, (1, refl)))
        | inr e ↦ elim (Option-cases (last_slash path 0 none)) [
          | inl l ↦ ((none, err 22, fs), rw (gone, e, l, open_node) refl, (refl, (21, refl)))
          | inr (last, l) ↦
              let within : leb vfs_path_max last ≡ false =
                ground (arith, last_slash-inside path 0 none last (inl refl) l) in
              let dir_path = if last == 0 then 47 ∷ [] else take last path in
              elim (Option-cases (vfs_lookup dir_path fs)) [
                | inl p ↦ (
                  (none, err 2, fs),
                  rw (gone, e, l, within, p, open_node) refl,
                  (refl, (1, refl)),
                )
                | inr (dir, p) ↦ (
                  create_node al path last dir mode fs,
                  rw (gone, e, l, within, p, open_node) refl,
                  create_node_fails al c last dir mode cs fs v ne,
                )
              ]
        ]
      ]

  -- While the root is the only mount, no longer path has a node: for every path of more than the one
  -- slash and less than 4096 bytes and their NUL, `vfs_lookup` answers NULL, `vfs_open` answers an
  -- error, with or without `O_CREAT`, and `vfs_stat` answers -2.
  pub vfs_open-longer :
      (al : Allocator S) (c flags mode : ℕ) (cs : List ℕ) (st : Stat) (fs : Fs S)
      → IsRootOnly fs
      → c ≢ 0
      → length (47 ∷ c ∷ cs) < vfs_path_max
      → (vfs_lookup (47 ∷ c ∷ cs) fs ≡ none)
        × ((n : ℕ) × (fs' : Fs S) × (vfs_open al (47 ∷ c ∷ cs) flags mode fs
              ≡ some (negsuc n, fs')))
        × (vfs_stat (47 ∷ c ∷ cs) st fs ≡ (err 2, st))
  unfolding vfs_stat vfs_open
  vfs_open-longer al c flags mode cs st fs v ne short =
      let gone = lookup_longer c cs fs v ne in
      let ((found, answer, fs'), run, (absent, (n, bad))) =
        open_node_fails al c flags mode cs fs v ne (omega arith) in
      (gone, (n, fs', rw (run, absent, bad, vfs_open) refl), rw (gone, vfs_stat) refl)
