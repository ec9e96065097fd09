-- ===== src/Sched/Queue.antt =====
-- The circular list of the run queue as a sequence of tasks, and what adding and removing do to
-- the sequence.
use dev_os.Prelude.{
  ==-eq_of, ==-ne_of, ℕ, ◌≡◌, ◌≢◌, refl, ap, sym, ◌∙◌, arith, some, List, [], ◌∷◌, ◌++◌, update,
  update_self,
}
use dev_os.Sched.{Sched, TaskState, run_queue_add}

-- `x` is not among the tasks of the list.
abbrev pub Absent : ℕ → List ℕ → Type 0
Absent x [] = Unit {0}
Absent x (y ∷ ys) = (x ≢ y) × Absent x ys

-- The tasks are distinct.
abbrev pub Distinct : List ℕ → Type 0
Distinct [] = Unit {0}
Distinct (x ∷ xs) = Absent x xs × Distinct xs

-- From `a` the `next` links pass through `xs` to `b`, and the `prev` links come back.
abbrev pub Links : (ℕ → ℕ) → (ℕ → ℕ) → ℕ → List ℕ → ℕ → Type 0
Links nx pv a [] b = (nx a ≡ b) × (pv b ≡ a)
Links nx pv a (x ∷ xs) b = (nx a ≡ x) × (pv x ≡ a) × Links nx pv x xs b

-- The queue holds the tasks of the list, in this order: a circle of links with the first at
-- `run_queue_head`.
abbrev pub IsQueue : Sched → List ℕ → Type 0
IsQueue s [] = s.run_queue_head ≡ 0
IsQueue s (x ∷ xs) =
    (s.run_queue_head ≡ x) × Links s.next s.prev x xs x × Distinct (x ∷ xs) × Absent 0 (x ∷ xs)

abbrev pub last_of : ℕ → List ℕ → ℕ
last_of a [] = a
last_of a (x ∷ xs) = last_of x xs

pub prev_last :
    (nx pv : ℕ → ℕ) (a : ℕ) (xs : List ℕ) (b : ℕ) → Links nx pv a xs b → pv b ≡ last_of a xs
prev_last nx pv a [] b l = l.1
prev_last nx pv a (x ∷ xs) b l = prev_last nx pv x xs b l.2

pub ne_last : (a x : ℕ) (xs : List ℕ) → Absent a (x ∷ xs) → a ≢ last_of x xs
ne_last a x [] h = h.0
ne_last a x (y ∷ ys) h = ne_last a y ys h.1

-- Appending `n` before the end `b` of a chain: only the links round the end change.
Links-append :
    (nx pv nx' pv' : ℕ → ℕ) (a : ℕ) (xs : List ℕ) (b n : ℕ)
    → Links nx pv a xs b
    → Distinct (a ∷ xs)
    → Absent b xs
    → Absent n (a ∷ xs)
    → nx' (last_of a xs) ≡ n
    → pv' n ≡ last_of a xs
    → nx' n ≡ b
    → pv' b ≡ n
    → ((p : ℕ) → p ≢ last_of a xs → p ≢ n → nx' p ≡ nx p)
    → ((p : ℕ) → p ≢ b → p ≢ n → pv' p ≡ pv p)
    → Links nx' pv' a (xs ++ (n ∷ [])) b
Links-append nx pv nx' pv' a [] b n l d hb hn e1 e2 e3 e4 kn kp = (e1, e2, (e3, e4))
Links-append nx pv nx' pv' a (x ∷ xs) b n l d hb hn e1 e2 e3 e4 kn kp = (
  kn a (ne_last a x xs d.0) (λ e. hn.0 (sym e)) ∙ l.0,
  kp x (λ e. hb.0 (sym e)) (λ e. hn.1.0 (sym e)) ∙ l.1,
  Links-append nx pv nx' pv' x xs b n l.2 d.1 hb.1 hn.1 e1 e2 e3 e4 kn kp,
)

-- What relinking `t` leaves alone: every variable but the links and the head, and every task's
-- state but that of `t`.
pub record Relinked (s : Sched) (t : ℕ) (s' : Sched) : Type 0 where
  pub idle : s'.idle_task ≡ s.idle_task
  pub current : s'.current_task ≡ s.current_task
  pub guard : s'.in_sched ≡ s.in_sched
  pub ticks : s'.sched_tick_count ≡ s.sched_tick_count
  pub sleepers : s'.sleep_list ≡ s.sleep_list
  pub slice : s'.time_slice ≡ s.time_slice
  pub stack : s'.kernel_stack ≡ s.kernel_stack
  pub wake : s'.wake_tick ≡ s.wake_tick
  pub states : (p : ℕ) → p ≢ t → s'.state p ≡ s.state p

-- The state after `t` is linked in between `tail` and `head`.
abbrev splice : Sched → ℕ → ℕ → ℕ → ℕ → Sched
splice s tail t head first = record s {
  next = update (update s.next tail t) t head;
  prev = update (update s.prev t tail) head t;
  state = update s.state t TaskState.task_ready;
  run_queue_head = first;
}

splice-Relinked : (s : Sched) (tail t head first : ℕ) → Relinked s t (splice s tail t head first)
splice-Relinked s tail t head first = record {
  idle = refl;
  current = refl;
  guard = refl;
  ticks = refl;
  sleepers = refl;
  slice = refl;
  stack = refl;
  wake = refl;
  states = λ p ne. ground arith;
}

add_first :
    (s : Sched) (t : ℕ)
    → s.run_queue_head ≡ 0
    → t ≢ 0
    → (s' : Sched) × (run_queue_add t s ≡ some s')
      × IsQueue s' (t ∷ [])
      × (s'.state t ≡ TaskState.task_ready)
      × Relinked s t s'
unfolding run_queue_add
add_first s t h nt = (
  record s {
    next = update s.next t t;
    prev = update s.prev t t;
    run_queue_head = t;
    state = update s.state t TaskState.task_ready;
  },
  rw (==-eq_of s.run_queue_head 0 h, ==-ne_of t 0 nt),
  (refl, (update_self s.next t t, update_self s.prev t t), (tt, tt), (λ e. nt (sym e), tt)),
  ground arith,
  record {
    idle = refl;
    current = refl;
    guard = refl;
    ticks = refl;
    sleepers = refl;
    slice = refl;
    stack = refl;
    wake = refl;
    states = λ p ne. ground arith;
  },
)

add_behind :
    (s : Sched) (t : ℕ)
    → s.run_queue_head ≢ 0
    → s.prev s.run_queue_head ≢ 0
    → t ≢ 0
    → t ≢ s.run_queue_head
    → run_queue_add t s
      ≡ some (splice s (s.prev s.run_queue_head) t s.run_queue_head s.run_queue_head)
unfolding run_queue_add
add_behind s t hd tl nt ne =
    simp (==-ne_of s.run_queue_head 0 hd, ==-ne_of (s.prev s.run_queue_head) 0 tl, ==-ne_of t 0 nt)

pub Absent-append : (x : ℕ) (xs : List ℕ) (n : ℕ) → Absent x xs → x ≢ n → Absent x (xs ++ (n ∷ []))
Absent-append x [] n h ne = (ne, tt)
Absent-append x (y ∷ ys) n h ne = (h.0, Absent-append x ys n h.1 ne)

Distinct-append : (xs : List ℕ) (n : ℕ) → Distinct xs → Absent n xs → Distinct (xs ++ (n ∷ []))
Distinct-append [] n d h = (tt, tt)
Distinct-append (x ∷ xs) n d h =
    (Absent-append x xs n d.0 (λ e. h.0 (sym e)), Distinct-append xs n d.1 h.1)

pub last-Absent : (z x : ℕ) (xs : List ℕ) → Absent z (x ∷ xs) → z ≢ last_of x xs
last-Absent z x [] h = h.0
last-Absent z x (y ∷ ys) h = last-Absent z y ys h.1

-- `run_queue_add` puts a task that is not in the queue at its end, makes it ready, and changes
-- nothing else.
pub run_queue_add-IsQueue :
    (s : Sched) (q : List ℕ) (t : ℕ)
    → IsQueue s q
    → t ≢ 0
    → Absent t q
    → (s' : Sched) × (run_queue_add t s ≡ some s')
      × IsQueue s' (q ++ (t ∷ []))
      × (s'.state t ≡ TaskState.task_ready)
      × Relinked s t s'
run_queue_add-IsQueue s [] t iq nt ab = add_first s t iq nt
run_queue_add-IsQueue s (x ∷ xs) t (hd, links, d, z) nt ab = (
  after,
  add_behind s t (λ e. z.0 (sym e ∙ hd)) (λ e. last-Absent 0 x xs z (sym e ∙ tail)) nt
      (λ e. ab.0 (e ∙ hd)),
  queue,
  ground arith,
  splice-Relinked s (s.prev s.run_queue_head) t s.run_queue_head s.run_queue_head,
)
  where
    after : Sched
    after = splice s (s.prev s.run_queue_head) t s.run_queue_head s.run_queue_head

    tail : s.prev s.run_queue_head ≡ last_of x xs
    tail = ap s.prev hd ∙ prev_last s.next s.prev x xs x links

    t_last : t ≢ last_of x xs
    t_last = last-Absent t x xs ab

    queue : IsQueue after (x ∷ (xs ++ (t ∷ [])))
    queue = (
      hd,
      Links-append s.next s.prev after.next after.prev x xs x t links d d.0 ab
          (ground (arith, tail, t_last)) (ground (arith, tail)) (ground (arith, tail))
          (ground (arith, tail)) (λ p a b. ground (arith, tail)) (λ p a b. ground (arith, tail)),
      (Absent-append x xs t d.0 (λ e. ab.0 (sym e)), Distinct-append xs t d.1 ab.1),
      (z.0, Absent-append 0 xs t z.1 (λ e. nt (sym e))),
    )
