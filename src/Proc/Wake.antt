-- ===== src/Proc/Wake.antt =====
-- The loop of `proc_exit` that wakes the waiting tasks, on the run queue.
use dev_os.Prelude.{
  ℕ, ◌≡◌, ◌≢◌, refl, sym, subst, ◌∙◌, some, List, [], ◌∷◌, ◌++◌, append_assoc, append-nil, ==-ne_of,
}
use dev_os.Sched.{Sched, TaskState, sched_unblock, run_queue_add}
use dev_os.Sched.Queue.{Absent, IsQueue, Relinked, run_queue_add-IsQueue, Absent-append}
use dev_os.Proc.{wake_tasks}

-- The tasks are blocked, distinct, not NULL and not in the queue `q`.
abbrev pub Blocked : Sched → List ℕ → List ℕ → Type 0
Blocked s q [] = Unit {0}
Blocked s q (t ∷ ts) =
    (t ≢ 0) × (s.state t ≡ TaskState.task_blocked) × Absent t q × Absent t ts × Blocked s q ts

abbrev pub Ready : Sched → List ℕ → Type 0
Ready s [] = Unit {0}
Ready s (t ∷ ts) = (s.state t ≡ TaskState.task_ready) × Ready s ts

-- Waking `t` leaves the others blocked and out of the queue.
Blocked-after :
    (s s' : Sched) (q : List ℕ) (t : ℕ) (ts : List ℕ)
    → Relinked s t s'
    → Absent t ts
    → Blocked s q ts
    → Blocked s' (q ++ (t ∷ [])) ts
Blocked-after s s' q t [] relinked apart rest = tt
Blocked-after s s' q t (u ∷ us) relinked apart (nz, blocked, out, distinct, rest) = (
  nz,
  relinked.states u (λ e. apart.0 (sym e)) ∙ blocked,
  Absent-append u q t out (λ e. apart.0 (sym e)),
  distinct,
  Blocked-after s s' q t us relinked apart.1 rest,
)

unblock :
    (s : Sched) (t : ℕ) → s.state t ≡ TaskState.task_blocked → sched_unblock t s ≡ run_queue_add t s
unfolding sched_unblock
unblock s t blocked = rw blocked refl

-- The tasks go to the end of the queue in their order, ready, and no other task changes its state.
pub wake_tasks-IsQueue :
    (s : Sched) (q ts : List ℕ)
    → IsQueue s q
    → Blocked s q ts
    → (s' : Sched) × (wake_tasks ts s ≡ some s')
      × IsQueue s' (q ++ ts)
      × Ready s' ts
      × ((p : ℕ) → Absent p ts → s'.state p ≡ s.state p)
unfolding wake_tasks
wake_tasks-IsQueue s q [] queue blocked =
    (s, refl, subst (IsQueue s) (sym (append-nil q)) queue, tt, λ p out. refl)
wake_tasks-IsQueue s q (t ∷ ts) queue (nz, blocked, out, apart, rest) =
    let (s1, added, queue1, ready, relinked) = run_queue_add-IsQueue s q t queue nz out in
    let (s2, woken, queue2, others, same) =
      wake_tasks-IsQueue s1 (q ++ (t ∷ [])) ts queue1
        (Blocked-after s s1 q t ts relinked apart rest) in
    (
      s2,
      rw (==-ne_of t 0 nz, unblock s t blocked ∙ added, wake_tasks) woken,
      subst (IsQueue s2) (append_assoc q (t ∷ []) ts) queue2,
      (same t apart ∙ ready, others),
      λ p away. same p away.1 ∙ relinked.states p away.0,
    )
