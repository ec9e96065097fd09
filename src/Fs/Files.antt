-- ===== src/Fs/Files.antt =====
-- Open files of kernel/fs/vfs.c: what a descriptor gives, and a file written and read through it.
use dev_os.Prelude.{
  ==-ne_of, ==-eq_of, ℕ, zero, suc, ◌+◌, ◌≤◌, ◌<◌, ◌≡◌, ◌≢◌, refl, sym, subst, arith, ◌==◌, true,
  false, Option, none, some, Bool-cases, Option-cases, inl, inr, update, leb,
}
use dev_os.Prelude.Int.{ℤ, pos, negsuc}
use dev_os.Fs.State.{Fs}
use dev_os.Fs.Descriptors.{free_fd, fd_alloc, fd_get, fd_free}
use dev_os.Fs.Dir.{zero_left, zero_right, suc_right}

-- The lowest free descriptor from `i` on, of `rounds`, or none.
abbrev pub FreeFd : (ℕ → ℕ) → ℕ → ℕ → Option ℕ → Type 0
FreeFd files rounds i none = (k : ℕ) → k < rounds → files (i + k) ≢ 0
FreeFd files rounds i (some d) =
    (i ≤ d) × (d < i + rounds) × (files d ≡ 0) × ((k : ℕ) → i ≤ k → k < d → files k ≢ 0)

all_taken :
    (files : ℕ → ℕ) (rounds i k : ℕ)
    → files i ≢ 0
    → FreeFd files rounds (i + 1) none
    → k < suc rounds
    → files (i + k) ≢ 0
all_taken files rounds i zero ne h lt = subst (λ x. files x ≢ 0) (sym (zero_right i)) ne
all_taken files rounds i (suc k) ne h lt =
    subst (λ x. files x ≢ 0) (sym (suc_right i k)) (h k (omega (arith, lt)))

FreeFd-suc :
    (files : ℕ → ℕ) (rounds i : ℕ) (r : Option ℕ)
    → files i ≢ 0
    → FreeFd files rounds (i + 1) r
    → FreeFd files (suc rounds) i r
FreeFd-suc files rounds i none ne h = λ k lt. all_taken files rounds i k ne h lt
FreeFd-suc files rounds i (some d) ne h = (
  omega (arith, h.0),
  omega (arith, h.1),
  h.2,
  λ k lo lt. elim (Bool-cases (i == k)) [
    | inl e ↦ let here : i ≡ k = ground arith in subst (λ x. files x ≢ 0) here ne
    | inr e ↦ h.3 k (ground arith) lt
  ],
)

free_fd-FreeFd : (files : ℕ → ℕ) (rounds i : ℕ) → FreeFd files rounds i (free_fd files rounds i)
unfolding free_fd
free_fd-FreeFd files zero i = λ k lt. absurd (omega arith)
free_fd-FreeFd files (suc rounds) i = elim (Bool-cases (files i == 0)) [
  | inl e ↦ simp e (omega arith, omega arith, ground arith, λ k lo lt. absurd (omega arith))
  | inr e ↦ simp e (
      FreeFd-suc files rounds i (free_fd files rounds (i + 1)) (ground arith)
        (free_fd-FreeFd files rounds (i + 1)))
]

-- What `fd_alloc` does: the lowest free descriptor gets the file and gives it back, the others keep
-- theirs; or all 64 are taken, and the answer is -1.
abbrev pub FdResult : {S : Type 0} → ℕ → Fs S → ℤ × Fs S → Type 0
FdResult f fs (negsuc n, fs') = (n ≡ 0) × (fs' ≡ fs) × ((k : ℕ) → k < 64 → fs.files k ≢ 0)
FdResult f fs (pos d, fs') =
    (d < 64)
    × (fs.files d ≡ 0)
    × ((k : ℕ) → k < d → fs.files k ≢ 0)
    × (fd_get (pos d) fs' ≡ f)
    × ((k : ℕ) → d ≢ k → fd_get (pos k) fs' ≡ fd_get (pos k) fs)
    × (fd_get (pos d) (fd_free (pos d) fs') ≡ 0)

module _ {S : Type 0} where
  -- In a task, `fd_alloc` gives the lowest free descriptor, under which `fd_get` then finds the
  -- file until `fd_free` empties it again; the other descriptors keep their files. It answers -1
  -- only if all 64 are taken.
  pub fd_alloc-FdResult : (f : ℕ) (fs : Fs S) → fs.has_task ≡ true → FdResult f fs (fd_alloc f fs)
  unfolding fd_alloc fd_get fd_free
  fd_alloc-FdResult f fs task =
      let free = free_fd-FreeFd fs.files 64 0 in
      elim (Option-cases (free_fd fs.files 64 0)) [
        | inl e ↦
            let run : fd_alloc f fs ≡ (negsuc 0, fs) = simp (task, e) in
            let all = subst (FreeFd fs.files 64 0) e free in
            subst (FdResult f fs) (sym run)
              (refl, refl, λ k lt. subst (λ x. fs.files x ≢ 0) (sym (zero_left k)) (all k lt))
        | inr (d, e) ↦
            let given = record fs { files = update fs.files d f } in
            let run : fd_alloc f fs ≡ (pos d, given) = simp (task, e) in
            let one = subst (FreeFd fs.files 64 0) e free in
            let own : leb 64 d ≡ false = ground (arith, one.1) in
            let self : (d == d) ≡ true = ==-eq_of d d refl in
            subst (FdResult f fs) (sym run) (
              omega (arith, one.1),
              one.2,
              λ k lt. one.3 k (omega arith) lt,
              simp (task, own, self),
              λ k ne. simp (task, ==-ne_of d k ne),
              simp (task, own, self),
            )
      ]
