-- ===== src/Sched/Remove.antt =====
-- `run_queue_remove` takes one task out of the sequence, wherever it stands.
use dev_os.Prelude.{
  Bool-cases, inl, inr, ℕ, ◌≡◌, ◌≢◌, refl, sym, arith, ◌==◌, if◌then◌else◌, some, List, [], ◌∷◌,
  ◌++◌, update, update_self, ==-eq_of, ==-ne_of,
}
use dev_os.Sched.{Sched, run_queue_remove}
use dev_os.Sched.Queue.{Absent, Distinct, IsQueue, last_of, prev_last, last-Absent}
use dev_os.Sched.Links.{
  Links-remove, Absent-split, first_of, next_first, ne_first, Links-retarget, prev_split,
  Absent-remove, Distinct-remove,
}

-- The state after `t`, between `p` and `n`, is taken out.
abbrev unlinked : Sched → ℕ → ℕ → ℕ → Sched
unlinked s t p n = record s {
  next = update (update s.next p n) t 0;
  prev = update (update s.prev n p) t 0;
  run_queue_head = if s.run_queue_head == t then n else s.run_queue_head;
}

remove_linked :
    (s : Sched) (t p n : ℕ)
    → s.prev t ≡ p
    → s.next t ≡ n
    → t ≢ 0
    → p ≢ 0
    → n ≢ 0
    → p ≢ t
    → n ≢ t
    → run_queue_remove t s ≡ some (unlinked s t p n)
unfolding run_queue_remove
remove_linked s t p n ep en t0 p0 n0 pt nt = elim (Bool-cases (s.run_queue_head == t)) [
  | inl h ↦ simp (
    ep,
    en,
    h,
    ==-ne_of n t nt,
    ==-ne_of p 0 p0,
    ==-ne_of n 0 n0,
    ==-ne_of t 0 t0,
    ==-ne_of p t pt,
  )
  | inr h ↦ simp (
    ep,
    en,
    h,
    ==-ne_of n t nt,
    ==-ne_of p 0 p0,
    ==-ne_of n 0 n0,
    ==-ne_of t 0 t0,
    ==-ne_of p t pt,
  )
]

-- What taking `t` out leaves alone: every variable but the links and the head.
pub record Unlinked (s : Sched) (s' : Sched) : Type 0 where
  pub idle : s'.idle_task ≡ s.idle_task
  pub current : s'.current_task ≡ s.current_task
  pub guard : s'.in_sched ≡ s.in_sched
  pub ticks : s'.sched_tick_count ≡ s.sched_tick_count
  pub sleepers : s'.sleep_list ≡ s.sleep_list
  pub slice : s'.time_slice ≡ s.time_slice
  pub stack : s'.kernel_stack ≡ s.kernel_stack
  pub wake : s'.wake_tick ≡ s.wake_tick
  pub states : s'.state ≡ s.state

-- The outcome of taking `t` out of the queue, when `q` stays.
abbrev pub Removes : Sched → ℕ → List ℕ → Type 0
Removes s t q =
    (s' : Sched) × (run_queue_remove t s ≡ some s')
    × IsQueue s' q
    × (s'.next t ≡ 0)
    × (s'.prev t ≡ 0)
    × Unlinked s s'

unlinked-Unlinked : (s : Sched) (t p n : ℕ) → Unlinked s (unlinked s t p n)
unlinked-Unlinked s t p n = record {
  idle = refl;
  current = refl;
  guard = refl;
  ticks = refl;
  sleepers = refl;
  slice = refl;
  stack = refl;
  wake = refl;
  states = refl;
}

remove_only : (s : Sched) (t : ℕ) → IsQueue s (t ∷ []) → Removes s t []
unfolding run_queue_remove
remove_only s t (hd, l, d, z) = (
  record s { next = update s.next t 0; prev = update s.prev t 0; run_queue_head = 0 },
  simp (l.0, ==-eq_of t t refl, ==-ne_of t 0 (λ e. z.0 (sym e))),
  refl,
  update_self s.next t 0,
  update_self s.prev t 0,
  record {
    idle = refl;
    current = refl;
    guard = refl;
    ticks = refl;
    sleepers = refl;
    slice = refl;
    stack = refl;
    wake = refl;
    states = refl;
  },
)

remove_head : (s : Sched) (t y : ℕ) (ys : List ℕ) → IsQueue s (t ∷ (y ∷ ys)) → Removes s t (y ∷ ys)
remove_head s t y ys (hd, l, d, z) = (
  after,
  remove_linked s t (last_of y ys) y tail l.0 (λ e. z.0 (sym e))
      (λ e. last-Absent 0 y ys z.1 (sym e)) (λ e. z.1.0 (sym e))
      (λ e. last-Absent t y ys d.0 (sym e)) (λ e. d.0.0 (sym e)),
  queue,
  ground arith,
  ground arith,
  unlinked-Unlinked s t (last_of y ys) y,
)
  where
    after : Sched
    after = unlinked s t (last_of y ys) y

    tail : s.prev t ≡ last_of y ys
    tail = prev_last s.next s.prev y ys t l.2

    t_last : t ≢ last_of y ys
    t_last = last-Absent t y ys d.0

    t_y : t ≢ y
    t_y = d.0.0

    queue : IsQueue after (y ∷ ys)
    queue = (
      ground (arith, hd),
      Links-retarget s.next s.prev after.next after.prev y ys t y l.2 d.1 d.0 d.1.0
          (ground (arith, t_last)) (ground (arith, t_y)) (λ p a b. ground (arith, t_last))
          (λ p a b. ground (arith, t_last)),
      d.1,
      z.1,
    )

remove_inner :
    (s : Sched) (x t : ℕ) (us zs : List ℕ)
    → IsQueue s (x ∷ (us ++ (t ∷ zs)))
    → Removes s t (x ∷ (us ++ zs))
remove_inner s x t us zs (hd, l, d, z) = (
  after,
  remove_linked s t (last_of x us) following (prev_split s.next s.prev x t us zs x l)
      (next_first s.next s.prev x t us zs x l) (λ e. z_apart.1 (sym e))
      (λ e. last-Absent 0 x us (z.0, z_apart.0) (sym e))
      (λ e. ne_first 0 zs x z_apart.2 z.0 (sym e)) (λ e. t_last (sym e)) (λ e. t_following (sym e)),
  queue,
  ground arith,
  ground arith,
  unlinked-Unlinked s t (last_of x us) following,
)
  where
    following : ℕ
    following = first_of zs x

    after : Sched
    after = unlinked s t (last_of x us) following

    z_apart : Absent 0 us × (0 ≢ t) × Absent 0 zs
    z_apart = Absent-split 0 t us zs z.1

    x_apart : Absent x us × (x ≢ t) × Absent x zs
    x_apart = Absent-split x t us zs d.0

    rest : Distinct (us ++ zs) × Absent t us × Absent t zs
    rest = Distinct-remove t us zs d.1

    t_last : t ≢ last_of x us
    t_last = last-Absent t x us (λ e. x_apart.1 (sym e), rest.1)

    t_following : t ≢ following
    t_following = ne_first t zs x rest.2 (λ e. x_apart.1 (sym e))

    same : s.next t ≡ following
    same = next_first s.next s.prev x t us zs x l

    queue : IsQueue after (x ∷ (us ++ zs))
    queue = (
      ground (arith, hd, x_apart.1),
      Links-remove s.next s.prev after.next after.prev t x us zs x l d d.0
          (ground (arith, t_last, same)) (ground (arith, t_following, same))
          (λ p a b. ground (arith, t_last)) (λ p a b. ground (arith, same)),
      (Absent-remove x t us zs d.0, rest.0),
      (z.0, Absent-remove 0 t us zs z.1),
    )

-- `run_queue_remove` takes a task out of the run queue wherever it stands: the others stay queued
-- in their order, its own links become NULL, and nothing else changes.
pub run_queue_remove-IsQueue :
    (s : Sched) (us : List ℕ) (t : ℕ) (zs : List ℕ)
    → IsQueue s (us ++ (t ∷ zs))
    → Removes s t (us ++ zs)
run_queue_remove-IsQueue s [] t [] q = remove_only s t q
run_queue_remove-IsQueue s [] t (y ∷ ys) q = remove_head s t y ys q
run_queue_remove-IsQueue s (x ∷ us) t zs q = remove_inner s x t us zs q
