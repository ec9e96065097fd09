-- ===== src/Fs/Content.antt =====
-- A file of kernel/fs/ramfs.c as a sequence of bytes.
use dev_os.Prelude.Int.{pos, ℤ}
use dev_os.Prelude.{
  ap, ◌∙◌, min, ltb→lt, update_self, sym, subst, Option-cases, update_ne, none, inl, ◌⊎◌, inr, ◌≢◌,
  Bool-cases, ℕ, zero, suc, ◌+◌, ◌-◌, ◌^◌, ◌≤◌, ◌<◌, ◌≡◌, arith, max, ltb, leb, ◌&&◌, if◌then◌else◌,
  true, update,
}
use dev_os.Word.{u64, align_up, align_up-page}
use dev_os.Str.Memory.{Bytes, memset, memset_from}
use dev_os.Fs.State.{err, signed, Fs, Allocator, Node}
use dev_os.Fs.Ramfs.{ramfs_truncate, ramfs_read, ramfs_write, ramfs_block, grown, stored}

-- The buffer holds the file, and zeros behind it.
pub record IsFile (n : Node) : Type 0 where
  pub fits : n.size ≤ n.data_cap
  pub zeros : (i : ℕ) → n.size ≤ i → i < n.data_cap → n.bytes i ≡ 0

-- The byte at an offset; 0 behind the end.
abbrev pub content : Node → ℕ → ℕ
content n i = if ltb i n.size then n.bytes i else 0

-- The file `m` is `n` with `len` bytes of `buf` written at `off`.
pub record Written (n m : Node) (buf : Bytes) (len off : ℕ) : Type 0 where
  pub valid : IsFile m
  pub grows : m.size ≡ max n.size (off + len)
  pub holds :
      (i : ℕ)
      → content m i ≡ (if leb off i && ltb i (off + len) then buf (i - off) else content n i)

memset_zeros :
    (n : ℕ) (m : Bytes) (d i : ℕ)
    → memset_from m d 0 n i ≡ (if leb d i && ltb i (d + n) then 0 else m i)
unfolding memset_from
memset_zeros zero m d i = ground arith
memset_zeros (suc n) m d i = ground (arith, memset_zeros n (update m d 0) (d + 1) i)

pub memset-zeros :
    (n : ℕ) (m : Bytes) (d i : ℕ) → memset m d 0 n i ≡ (if leb d i && ltb i (d + n) then 0 else m i)
unfolding memset
memset-zeros n m d i = memset_zeros n m d i

-- The rounded size has room for the end.
round_up : (e : ℕ) → e < 2 ^ 63 → e ≤ align_up e ramfs_block
round_up e lt = omega (arith, align_up-page e)

stored-Written :
    (n : Node) (buf : Bytes) (len off : ℕ)
    → IsFile n
    → off + len ≤ n.data_cap
    → Written n (stored n buf len off (off + len)) buf len off
stored-Written n buf len off v room = record {
  valid = record { fits = ground (arith, v.fits); zeros = λ i lo hi. ground (arith, v.zeros i) };
  grows = ground arith;
  holds = λ i. ground (arith, v.zeros i);
}

grown-IsFile : (n : Node) (p cap : ℕ) → IsFile n → n.data_cap < cap → IsFile (grown n p cap)
grown-IsFile n p cap v more =
    let more' : ltb n.data_cap cap ≡ true = ground arith in
    record {
      fits = omega (arith, v.fits);
      zeros = λ i lo hi.
          simp more'
            (ground (arith, v.zeros i, memset-zeros (cap - n.data_cap) n.bytes n.data_cap i));
    }

-- What a write into node `node` leaves: the bytes written, or -12 and every node as before, when
-- the heap gave no buffer.
abbrev pub WriteResult : {S : Type 0} → Allocator S → ℕ → Bytes → ℕ → ℕ → Fs S → ℤ × Fs S → Type 0
WriteResult al node buf len off fs r =
    ((r.0 ≡ pos len)
      × Written (fs.nodes node) (r.1.nodes node) buf len off
      × ((k : ℕ) → node ≢ k → r.1.nodes k ≡ fs.nodes k))
    ⊎ ((r.0 ≡ err 12)
        × (r.1.nodes ≡ fs.nodes)
        × ((al.krealloc (fs.nodes node).buffer (align_up (off + len) ramfs_block) fs.heap).0
            ≡ none))

module _ {S : Type 0} (al : Allocator S) where
  write_grown :
      (n : Node) (p cap : ℕ) (buf : Bytes) (len off : ℕ)
      → IsFile n
      → n.data_cap < cap
      → off + len ≤ cap
      → Written n (stored (grown n p cap) buf len off (off + len)) buf len off
  write_grown n p cap buf len off v more room =
      let w = stored-Written (grown n p cap) buf len off (grown-IsFile n p cap v more) room in
      let more' : ltb n.data_cap cap ≡ true = ground arith in
      let same : (i : ℕ) → content (grown n p cap) i ≡ content n i = λ i.
        simp more' (ground (arith, v.fits, memset-zeros (cap - n.data_cap) n.bytes n.data_cap i)) in
      record { valid = w.valid; grows = w.grows; holds = λ i. ground (arith, w.holds i, same i) }

  -- A write into a file stores the bytes at the offset and no others, with zeros in between when the
  -- offset lies behind the end, and answers their number; the other nodes stay. It fails with -12
  -- only if the heap has no larger buffer, and then changes no node.
  pub ramfs_write-WriteResult :
      (node : ℕ) (buf : Bytes) (len off : ℕ) (fs : Fs S)
      → IsFile (fs.nodes node)
      → off + len < 2 ^ 63
      → WriteResult al node buf len off fs (ramfs_write al node buf len off fs)
  unfolding ramfs_write
  ramfs_write-WriteResult node buf len off fs v lt =
      let n = fs.nodes node in
      let end : u64 (off + len) ≡ off + len = omega arith in
      let plain : signed len ≡ pos len = ground arith in
      elim (Bool-cases (ltb n.data_cap (off + len))) [
        | inr keep ↦ inl (
          simp (end, keep, plain),
          simp (end, keep) (ground (arith, stored-Written n buf len off v (ground arith))),
          λ k ne. simp (end, keep) (update_ne fs.nodes node k _ ne),
        )
        | inl more ↦
            elim (Option-cases
              (al.krealloc n.buffer (align_up (off + len) ramfs_block) fs.heap).0) [
                | inl e ↦ inr (simp (end, more, e), simp (end, more, e), e)
                | inr (p, e) ↦
                    let cap = align_up (off + len) ramfs_block in
                    let big = round_up (off + len) lt in
                    let w =
                      write_grown n p cap buf len off v
                        (omega (arith, ltb→lt n.data_cap (off + len) more, big)) big in
                    inl (
                      simp (end, more, e, plain),
                      simp (end, more, e)
                          (subst (λ m. Written n m buf len off) (sym (update_self fs.nodes node _))
                            w),
                      λ k ne. simp (end, more, e) (update_ne fs.nodes node k _ ne),
                    )
              ]
      ]

-- Reading gives the bytes of the file from the offset up to its end, answers how many they are, and
-- leaves the rest of the buffer.
pub ramfs_read-content :
    (n : Node) (buf : Bytes) (len off : ℕ)
    → off + len < 2 ^ 63
    → ((ramfs_read n buf len off).0 ≡ pos (min len (n.size - off)))
      × ((i : ℕ)
          → (ramfs_read n buf len off).1 i
            ≡ (if ltb i (min len (n.size - off)) then content n (off + i) else buf i))
unfolding ramfs_read
ramfs_read-content n buf len off lt =
    let end : u64 (off + len) ≡ off + len = omega arith in
    simp end (ground arith, λ i. ground arith)

-- What was written is read back at its place.
pub read-Written :
    (n m : Node) (buf into : Bytes) (len off : ℕ)
    → Written n m buf len off
    → off + len < 2 ^ 63
    → ((ramfs_read m into len off).0 ≡ pos len)
      × ((i : ℕ) → i < len → (ramfs_read m into len off).1 i ≡ buf i)
read-Written n m buf into len off w lt =
    let r = ramfs_read-content m into len off lt in
    let all : min len (m.size - off) ≡ len = omega (arith, w.grows) in
    (
      r.0 ∙ ap pos all,
      λ i lti.
          let here : off + i - off ≡ i = omega arith in
          ground (arith, r.1 i, all, w.holds (off + i), here),
    )

-- Truncating a file with a buffer to a smaller size keeps its first bytes and drops the others, and
-- keeps the buffer behind the end zero.
pub ramfs_truncate-content :
    (n : Node) (new_size : ℕ)
    → IsFile n
    → n.buffer ≢ 0
    → new_size ≤ n.size
    → IsFile (ramfs_truncate n new_size)
      × ((i : ℕ)
          → content (ramfs_truncate n new_size) i ≡ (if ltb i new_size then content n i else 0))
unfolding ramfs_truncate
ramfs_truncate-content n new_size v some_buffer small =
    let wipe = memset-zeros (n.size - new_size) n.bytes new_size in
    (
      record { fits = omega (arith, v.fits); zeros = λ i lo hi. ground (arith, v.zeros i, wipe i) },
      λ i. ground (arith, wipe i),
    )
