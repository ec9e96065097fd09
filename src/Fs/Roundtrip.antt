-- ===== src/Fs/Roundtrip.antt =====
-- A file written and read through a descriptor: `vfs_write`, `vfs_lseek` and `vfs_read` in a row.
use dev_os.Fs.Content.{IsFile, Written, ramfs_write-WriteResult, read-Written}
use dev_os.Prelude.{
  ◌⊎◌, arith, ◌^◌, ◌<◌, update_self, ap₂, subst, false, ◌∙◌, ap, sym, ==-ne_of, update, ℕ, ◌+◌, ◌≡◌,
  ◌≢◌, refl, ◌==◌, true, Bool-cases, Option-cases, inl, inr, ltb, ==-eq_of,
}
use dev_os.Prelude.Int.{ℤ, pos, negsuc}
use dev_os.Word.{u64, align_up}
use dev_os.Str.Memory.{Bytes}
use dev_os.Fs.State.{err, File, Allocator, Fs, ramfs_file_ops}
use dev_os.Fs.Ramfs.{ramfs_read, ramfs_write, ramfs_block}
use dev_os.Fs.Descriptors.{advance, vfs_write, vfs_read, vfs_lseek, fd_get}

module _ {S : Type 0} where
  -- The descriptor is the file object `f`, open on the file `node` at `off`.
  pub record IsOpen (fd : ℤ) (f node off : ℕ) (fs : Fs S) : Type 0 where
    pub at : fd_get fd fs ≡ f
    pub opened : f ≢ 0
    pub on_node : (fs.file_objects f).node ≡ node
    pub has_node : node ≢ 0
    pub at_offset : (fs.file_objects f).offset ≡ off
    pub is_file : (fs.nodes node).ops ≡ ramfs_file_ops

  -- What a write to a node leaves of the rest.
  record Kept (node : ℕ) (fs fs' : Fs S) : Type 0 where
    task : fs'.has_task ≡ fs.has_task
    table : fs'.files ≡ fs.files
    objects : fs'.file_objects ≡ fs.file_objects
    kind : (fs'.nodes node).ops ≡ (fs.nodes node).ops

  fd_get_same :
      (fd : ℤ) (fs fs' : Fs S)
      → fs'.has_task ≡ fs.has_task
      → fs'.files ≡ fs.files
      → fd_get fd fs' ≡ fd_get fd fs
  unfolding fd_get
  fd_get_same (pos fd) fs fs' a b = rw (a, b) refl
  fd_get_same (negsuc fd) fs fs' a b = refl

  ramfs_write-Kept :
      (al : Allocator S) (node : ℕ) (buf : Bytes) (len off : ℕ) (fs : Fs S)
      → Kept node fs (ramfs_write al node buf len off fs).1
  unfolding ramfs_write
  ramfs_write-Kept al node buf len off fs =
      let n = fs.nodes node in
      let own : (node == node) ≡ true = ==-eq_of node node refl in
      elim (Bool-cases (ltb n.data_cap (u64 (off + len)))) [
        | inr keep ↦ record {
          task = simp keep;
          table = simp keep;
          objects = simp keep;
          kind = simp (keep, own);
        }
        | inl more ↦
            elim (Option-cases
              (al.krealloc n.buffer (align_up (u64 (off + len)) ramfs_block) fs.heap).0) [
                | inl e ↦ record {
                  task = simp (more, e);
                  table = simp (more, e);
                  objects = simp (more, e);
                  kind = simp (more, e);
                }
                | inr (p, e) ↦ record {
                  task = simp (more, e);
                  table = simp (more, e);
                  objects = simp (more, e);
                  kind = simp (more, e, own);
                }
              ]
      ]

  -- What the three calls compute, on the file object `f`.
  abbrev read_result : Bytes → ℕ → Fs S → ℕ → ℤ × Bytes × Fs S
  read_result buf len fs f =
      let file = fs.file_objects f in
      let r = ramfs_read (fs.nodes file.node) buf len file.offset in
      (r.0, r.1, record fs { file_objects = update fs.file_objects f (advance file r.0) })

  abbrev write_result : Allocator S → Bytes → ℕ → Fs S → ℕ → ℤ × Fs S
  write_result al buf len fs f =
      let file = fs.file_objects f in
      let r = ramfs_write al file.node buf len file.offset fs in
      (r.0, record r.1 { file_objects = update r.1.file_objects f (advance file r.0) })

  abbrev seek_result : ℕ → Fs S → ℕ → ℤ × Fs S
  seek_result off fs f = (
    pos off,
    record fs {
      file_objects = update fs.file_objects f (record (fs.file_objects f) { offset = off });
    },
  )

  module _ (fd : ℤ) (f node off : ℕ) (fs : Fs S) (v : IsOpen fd f node off fs) where
    open_file_object : (fd_get fd fs == 0) ≡ false
    open_file_object = ==-ne_of (fd_get fd fs) 0 (subst (λ x. x ≢ 0) (sym v.at) v.opened)

    open_node_number : (fs.file_objects (fd_get fd fs)).node ≡ node
    open_node_number = ap (λ x. (fs.file_objects x).node) v.at ∙ v.on_node

    vfs_read-run : (buf : Bytes) (len : ℕ) → vfs_read fd buf len fs ≡ read_result buf len fs f
    unfolding vfs_read
    vfs_read-run buf len =
        let a = open_file_object in
        let n = open_node_number in
        let b : ((fs.file_objects (fd_get fd fs)).node == 0) ≡ false =
          ==-ne_of _ 0 (subst (λ x. x ≢ 0) (sym n) v.has_node) in
        let c : (fs.nodes (fs.file_objects (fd_get fd fs)).node).ops ≡ ramfs_file_ops =
          ap (λ x. (fs.nodes x).ops) n ∙ v.is_file in
        rw (a, b, c, vfs_read) (ap (read_result buf len fs) v.at)

    vfs_write-run :
        (al : Allocator S) (buf : Bytes) (len : ℕ)
        → vfs_write al fd buf len fs ≡ write_result al buf len fs f
    unfolding vfs_write
    vfs_write-run al buf len =
        let a = open_file_object in
        let n = open_node_number in
        let b : ((fs.file_objects (fd_get fd fs)).node == 0) ≡ false =
          ==-ne_of _ 0 (subst (λ x. x ≢ 0) (sym n) v.has_node) in
        let c : (fs.nodes (fs.file_objects (fd_get fd fs)).node).ops ≡ ramfs_file_ops =
          ap (λ x. (fs.nodes x).ops) n ∙ v.is_file in
        rw (a, b, c, vfs_write) (ap (write_result al buf len fs) v.at)

    vfs_lseek-run : (to : ℕ) → vfs_lseek fd (pos to) 0 fs ≡ seek_result to fs f
    unfolding vfs_lseek
    vfs_lseek-run to = let a = open_file_object in rw (a, vfs_lseek) (ap (seek_result to fs) v.at)

    lseek-IsOpen : (to : ℕ) → IsOpen fd f node to (seek_result to fs f).1
    lseek-IsOpen to =
        let moved = record (fs.file_objects f) { offset = to } in
        let own = update_self fs.file_objects f moved in
        record {
          at = fd_get_same fd fs (seek_result to fs f).1 refl refl ∙ v.at;
          opened = v.opened;
          on_node = ap (λ (x : File). x.node) own ∙ v.on_node;
          has_node = v.has_node;
          at_offset = ap (λ (x : File). x.offset) own;
          is_file = v.is_file;
        }

    read_bytes :
        (buf : Bytes) (len : ℕ)
        → ((read_result buf len fs f).0 ≡ (ramfs_read (fs.nodes node) buf len off).0)
          × ((read_result buf len fs f).1 ≡ (ramfs_read (fs.nodes node) buf len off).1)
    read_bytes buf len = (
      ap₂ (λ n o. (ramfs_read (fs.nodes n) buf len o).0) v.on_node v.at_offset,
      ap₂ (λ n o. (ramfs_read (fs.nodes n) buf len o).1) v.on_node v.at_offset,
    )

    write-IsOpen :
        (al : Allocator S) (buf : Bytes) (len : ℕ)
        → IsFile (fs.nodes node)
        → off + len < 2 ^ 63
        → (write_result al buf len fs f).0 ≡ pos len
        → IsOpen fd f node (off + len) (write_result al buf len fs f).1
          × Written (fs.nodes node) ((write_result al buf len fs f).1.nodes node) buf len off
    write-IsOpen al buf len file lt ok =
        let r = ramfs_write al node buf len off fs in
        let same : ramfs_write al (fs.file_objects f).node buf len (fs.file_objects f).offset fs
            ≡ r =
          ap₂ (λ n o. ramfs_write al n buf len o fs) v.on_node v.at_offset in
        let done : r.0 ≡ pos len = sym (ap (λ (x : ℤ × Fs S). x.0) same) ∙ ok in
        let k = ramfs_write-Kept al node buf len off fs in
        let on = record r.1 {
          file_objects = update r.1.file_objects f (advance (fs.file_objects f) r.0);
        } in
        let ends : (write_result al buf len fs f).1 ≡ on =
          ap
            (λ (x : ℤ × Fs S). record x.1 {
              file_objects = update x.1.file_objects f (advance (fs.file_objects f) x.0);
            })
            same in
        let own : on.file_objects f ≡ advance (fs.file_objects f) (pos len) =
          update_self r.1.file_objects f (advance (fs.file_objects f) r.0)
          ∙ ap (advance (fs.file_objects f)) done in
        let wraps : u64 ((fs.file_objects f).offset + len) ≡ off + len =
          omega (arith, v.at_offset) in
        subst
          (λ (x : Fs S).
            IsOpen fd f node (off + len) x × Written (fs.nodes node) (x.nodes node) buf len off)
          (sym ends)
          (
            record {
              at = fd_get_same fd fs on k.task k.table ∙ v.at;
              opened = v.opened;
              on_node = ap (λ (x : File). x.node) own ∙ v.on_node;
              has_node = v.has_node;
              at_offset = ap (λ (x : File). x.offset) own ∙ wraps;
              is_file = k.kind ∙ v.is_file;
            },
            elim (ramfs_write-WriteResult al node buf len off fs file lt) [
              | inl w ↦ w.1
              | inr w ↦ absurd (ground (arith, w.0, done))
            ],
          )

  -- What reading answers and stores once `vfs_lseek` went back to `off`.
  abbrev pub ReadBack : ℤ → Bytes → ℕ → ℕ → Bytes → ℤ × Fs S → Type 0
  ReadBack fd buf len off into sought =
      (sought.0 ≡ pos off)
      × ((vfs_read fd into len sought.1).0 ≡ pos len)
      × ((i : ℕ) → i < len → (vfs_read fd into len sought.1).1 i ≡ buf i)

  -- Bytes written through a descriptor are read back through it: when `vfs_write` answers that all
  -- were written, seeking back to where it began and reading as many gives the same bytes.
  pub vfs_read-vfs_write :
      (al : Allocator S) (fd : ℤ) (f node off len : ℕ) (buf into : Bytes) (fs : Fs S)
      → IsOpen fd f node off fs
      → IsFile (fs.nodes node)
      → off + len < 2 ^ 63
      → (vfs_write al fd buf len fs).0 ≡ pos len
      → ReadBack fd buf len off into (vfs_lseek fd (pos off) 0 (vfs_write al fd buf len fs).1)
  vfs_read-vfs_write al fd f node off len buf into fs v file lt ok =
      let wrote = vfs_write-run fd f node off fs v al buf len in
      let done = sym (ap (λ (x : ℤ × Fs S). x.0) wrote) ∙ ok in
      let w = write-IsOpen fd f node off fs v al buf len file lt done in
      let fs1 = (write_result al buf len fs f).1 in
      let sought = seek_result off fs1 f in
      let seek = vfs_lseek-run fd f node (off + len) fs1 w.0 off in
      let back = lseek-IsOpen fd f node (off + len) fs1 w.0 off in
      let reads = vfs_read-run fd f node off sought.1 back into len in
      let bytes = read_bytes fd f node off sought.1 back into len in
      let r = read-Written (fs.nodes node) (fs1.nodes node) buf into len off w.1 lt in
      let whole : vfs_lseek fd (pos off) 0 (vfs_write al fd buf len fs).1 ≡ sought =
        ap (λ (x : ℤ × Fs S). vfs_lseek fd (pos off) 0 x.1) wrote ∙ seek in
      subst (ReadBack fd buf len off into) (sym whole) (
        refl,
        ap (λ (x : ℤ × Bytes × Fs S). x.0) reads ∙ bytes.0 ∙ r.0,
        λ i li.
            ap (λ (x : ℤ × Bytes × Fs S). x.1 i) reads ∙ ap (λ (m : Bytes). m i) bytes.1 ∙ r.1 i li,
      )

  -- A write through a descriptor is whole, or finds no memory.
  pub vfs_write-answer :
      (al : Allocator S) (fd : ℤ) (f node off len : ℕ) (buf : Bytes) (fs : Fs S)
      → IsOpen fd f node off fs
      → IsFile (fs.nodes node)
      → off + len < 2 ^ 63
      → ((vfs_write al fd buf len fs).0 ≡ pos len) ⊎ ((vfs_write al fd buf len fs).0 ≡ err 12)
  vfs_write-answer al fd f node off len buf fs v file lt =
      let same : (write_result al buf len fs f).0 ≡ (ramfs_write al node buf len off fs).0 =
        ap₂ (λ n o. (ramfs_write al n buf len o fs).0) v.on_node v.at_offset in
      let run = ap (λ (x : ℤ × Fs S). x.0) (vfs_write-run fd f node off fs v al buf len) ∙ same in
      elim (ramfs_write-WriteResult al node buf len off fs file lt) [
        | inl w ↦ inl (run ∙ w.0)
        | inr w ↦ inr (run ∙ w.0)
      ]
