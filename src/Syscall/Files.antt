-- ===== src/Syscall/Files.antt =====
-- `sys_write`, `sys_lseek` and `sys_read` in a row, through user memory.
use dev_os.Fs.Content.{IsFile}
use dev_os.Fs.Roundtrip.{vfs_write-answer, vfs_read-vfs_write, ReadBack, IsOpen}
use dev_os.Prelude.{
  inr, inl, sym, subst, ◌∙◌, ap, ℕ, ◌+◌, ◌^◌, ◌<◌, ◌≡◌, ◌≢◌, arith, ◌==◌, ◌||◌, true, false,
}
use dev_os.Prelude.Int.{ℤ, pos}
use dev_os.Str.Memory.{Bytes}
use dev_os.Fs.State.{err, Fs, Allocator, copy_bytes}
use dev_os.Fs.Descriptors.{vfs_read, vfs_write, vfs_lseek}
use dev_os.Syscall.{
  Kernel, uptr_ok, unsigned, to_int, to_int64, from, sys_read, sys_write, sys_lseek,
}

module _ {S : Type 0} where
  sys_write-run :
      (al : Allocator S) (fd buf len : ℕ) (k : Kernel S)
      → (fd ≢ 1) × (fd ≢ 2)
      → fd < 2 ^ 31
      → uptr_ok buf len ≡ true
      → sys_write al fd buf len k ≡ (
          let r = vfs_write al (pos fd) (from k.user buf) len k.fs in
          (unsigned r.0, record k { fs = r.1 }))
  unfolding sys_write
  sys_write-run al fd buf len k lo hi ok =
      let plain : to_int fd ≡ pos fd = ground arith in
      let file : (fd == 1 || fd == 2) ≡ false = ground arith in simp (ok, file, plain)

  sys_lseek-run :
      (fd off : ℕ) (k : Kernel S)
      → fd < 2 ^ 31
      → off < 2 ^ 63
      → sys_lseek fd off 0 k
        ≡ (let r = vfs_lseek (pos fd) (pos off) 0 k.fs in (unsigned r.0, record k { fs = r.1 }))
  unfolding sys_lseek
  sys_lseek-run fd off k hi lt =
      let plain : to_int fd ≡ pos fd = ground arith in
      let seek : to_int64 off ≡ pos off = ground arith in simp (plain, seek)

  sys_read-run :
      (fd into len : ℕ) (k : Kernel S)
      → fd < 2 ^ 31
      → uptr_ok into len ≡ true
      → sys_read fd into len k ≡ (
          let r = vfs_read (pos fd) (from k.user into) len k.fs in
          (unsigned r.0, record k { fs = r.2; user = copy_bytes k.user into r.1 0 len }))
  unfolding sys_read
  sys_read-run fd into len k hi ok =
      let plain : to_int fd ≡ pos fd = ground arith in simp (ok, plain)

  -- What a program sees of reading `len` bytes into `into` when `m` held the bytes at `buf`.
  abbrev pub Reads : Bytes → ℕ → ℕ → ℕ → ℕ × Kernel S → Type 0
  Reads m buf into len r = (r.0 ≡ len) × ((i : ℕ) → i < len → r.1.user (into + i) ≡ m (buf + i))

  all_written :
      (al : Allocator S) (fd f node off len buf : ℕ) (k : Kernel S)
      → IsOpen (pos fd) f node off k.fs
      → IsFile (k.fs.nodes node)
      → off + len < 2 ^ 63
      → unsigned (vfs_write al (pos fd) (from k.user buf) len k.fs).0 ≡ len
      → (vfs_write al (pos fd) (from k.user buf) len k.fs).0 ≡ pos len
  all_written al fd f node off len buf k v file lt ok =
      elim (vfs_write-answer al (pos fd) f node off len (from k.user buf) k.fs v file lt) [
        | inl e ↦ e
        | inr e ↦
            let full : unsigned (err 12) ≡ len = sym (ap unsigned e) ∙ ok in
            absurd (omega (arith, full))
      ]

  read_back :
      (fd off len buf into : ℕ) (k : Kernel S) (sought : ℤ × Fs S)
      → fd < 2 ^ 31
      → len < 2 ^ 63
      → uptr_ok into len ≡ true
      → ReadBack (pos fd) (from k.user buf) len off (from k.user into) sought
      → Reads k.user buf into len (sys_read fd into len (record k { fs = sought.1 }))
  read_back fd off len buf into k sought hi lt ok (at, count, bytes) =
      let r = vfs_read (pos fd) (from k.user into) len sought.1 in
      let answer : unsigned r.0 ≡ len = ap unsigned count ∙ omega arith in
      subst (Reads k.user buf into len)
        (sym (sys_read-run fd into len (record k { fs = sought.1 }) hi ok))
        (answer, λ i li. ground (arith, bytes i li))

  -- A program that writes a buffer to an open file, seeks back and reads into another buffer gets its
  -- bytes again, if the file's descriptor is not 1 or 2, which `sys_write` sends to the serial port:
  -- if `sys_write` answers that all were written, `sys_read` after `sys_lseek` answers the same
  -- count, and the second buffer holds what the first one held. Both buffers pass `uptr_ok`, and the
  -- end of the write is below 2^63.
  pub sys_read-sys_write :
      (al : Allocator S) (fd f node off len buf into : ℕ) (k : Kernel S)
      → IsOpen (pos fd) f node off k.fs
      → IsFile (k.fs.nodes node)
      → off + len < 2 ^ 63
      → (fd ≢ 1) × (fd ≢ 2)
      → fd < 2 ^ 31
      → uptr_ok buf len ≡ true
      → uptr_ok into len ≡ true
      → (sys_write al fd buf len k).0 ≡ len
      → Reads k.user buf into len
          (sys_read fd into len (sys_lseek fd off 0 (sys_write al fd buf len k).1).1)
  sys_read-sys_write al fd f node off len buf into k v file lt lo hi okb oki ok =
      let wrote = sys_write-run al fd buf len k lo hi okb in
      let w = vfs_write al (pos fd) (from k.user buf) len k.fs in
      let all =
        all_written al fd f node off len buf k v file lt
          (sym (ap (λ (x : ℕ × Kernel S). x.0) wrote) ∙ ok) in
      let k1 : Kernel S = record k { fs = w.1 } in
      let sought = vfs_lseek (pos fd) (pos off) 0 w.1 in
      let whole : (sys_lseek fd off 0 (sys_write al fd buf len k).1).1
          ≡ record k { fs = sought.1 } =
        ap (λ (x : ℕ × Kernel S). (sys_lseek fd off 0 x.1).1) wrote
        ∙ ap (λ (x : ℕ × Kernel S). x.1) (sys_lseek-run fd off k1 hi (omega (arith, lt))) in
      subst (λ (x : Kernel S). Reads k.user buf into len (sys_read fd into len x)) (sym whole)
        (read_back fd off len buf into k sought hi (omega (arith, lt)) oki (
          vfs_read-vfs_write al (pos fd) f node off len (from k.user buf) (from k.user into) k.fs v
            file lt all))
