-- ===== src/Str/Move.antt =====
-- What copying does to memory.
use dev_os.Prelude.{
  ℕ, zero, suc, ◌+◌, ◌-◌, ◌≤◌, ◌<◌, ◌≡◌, ◌↔◌, refl, arith, ltb, leb, ◌&&◌, if◌then◌else◌,
  Bool-cases, inl, inr, update,
}
use dev_os.Prelude.Int.{pos}
use dev_os.Str.Memory.{Bytes, memset_from, memcpy, copy_down, memmove, memcmp}

-- The range of `n` bytes from `d` on holds what `src` held from `s` on; other bytes are those of `m`.
abbrev pub blit : Bytes → ℕ → Bytes → ℕ → ℕ → ℕ → ℕ
blit m d src s n i = if leb d i && ltb i (d + n) then src (s + (i - d)) else m i

memset_from-blit : (m : Bytes) (p v n i : ℕ) → memset_from m p v n i ≡ blit m p (λ j. v) 0 n i
unfolding memset_from
memset_from-blit m p v zero i = ground arith
memset_from-blit m p v (suc n) i =
    let ih = memset_from-blit (update m p v) (p + 1) v n i in ground (arith, ih)

memcpy-blit : (m : Bytes) (d s n i : ℕ) → d ≤ s → memcpy m d s n i ≡ blit m d m s n i
unfolding memcpy
memcpy-blit m d s zero i h = ground arith
memcpy-blit m d s (suc n) i h =
    let ih = memcpy-blit (update m d (m s)) (d + 1) (s + 1) n i (omega arith) in ground (arith, ih)

copy_down-blit : (m : Bytes) (d s n i : ℕ) → s ≤ d → copy_down m d s n i ≡ blit m d m s n i
unfolding copy_down
copy_down-blit m d s zero i h = ground arith
copy_down-blit m d s (suc n) i h =
    let ih = copy_down-blit (update m (d + n) (m (s + n))) d s n i h in ground (arith, ih)

-- `memmove` moves the bytes as they were before, whether the ranges overlap or not and in which
-- direction, and no other byte changes.
pub memmove-blit : (m : Bytes) (d s n i : ℕ) → memmove m d s n i ≡ blit m d m s n i
unfolding memmove
memmove-blit m d s n i = elim (Bool-cases (ltb d s)) [
  | inl below ↦ simp below (memcpy-blit m d s n i (ground arith))
  | inr above ↦ simp above (copy_down-blit m d s n i (ground arith))
]

memcmp_same :
    (m : Bytes) (p q n : ℕ) → ((i : ℕ) → i < n → m (p + i) ≡ m (q + i)) → memcmp m p q n ≡ pos 0
unfolding memcmp
memcmp_same m p q zero h = refl
memcmp_same m p q (suc n) h =
    let first = h 0 (omega arith) in
    let ih =
      memcmp_same m (p + 1) (q + 1) n
        (λ i lt. let e = h (i + 1) (omega arith) in ground (arith, e)) in
    ground (arith, first, ih)

memcmp_differ :
    (m : Bytes) (p q n : ℕ) → memcmp m p q n ≡ pos 0 → (i : ℕ) → i < n → m (p + i) ≡ m (q + i)
unfolding memcmp
memcmp_differ m p q zero e i lt = absurd (omega arith)
memcmp_differ m p q (suc n) e zero lt = ground arith
memcmp_differ m p q (suc n) e (suc i) lt =
    let rest : memcmp m (p + 1) (q + 1) n ≡ pos 0 = ground arith in
    let ih = memcmp_differ m (p + 1) (q + 1) n rest i (omega arith) in ground (arith, ih)

-- `memcmp` answers 0 exactly when the two ranges hold the same bytes.
pub memcmp_zero :
    (m : Bytes) (p q n : ℕ) → (memcmp m p q n ≡ pos 0) ↔ ((i : ℕ) → i < n → m (p + i) ≡ m (q + i))
memcmp_zero m p q n = (memcmp_differ m p q n, memcmp_same m p q n)
