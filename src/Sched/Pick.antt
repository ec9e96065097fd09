-- ===== src/Sched/Pick.antt =====
-- `sched_pick_next` walks round the circular list: as a search of the queue.
use dev_os.Prelude.{
  ℕ, zero, suc, ◌≤◌, ◌≡◌, refl, sym, arith, true, false, ◌==◌, if◌then◌else◌, Bool-cases, inl, inr,
  some, List, [], ◌∷◌, length, ==-eq_of, ==-ne_of,
}
use dev_os.Sched.{Sched, TaskState, is_state, pick_from, sched_pick_next}
use dev_os.Sched.Queue.{Absent, Links, IsQueue}

-- The first ready task of the list, or else the task `d`.
abbrev pub first_ready : (ℕ → TaskState) → List ℕ → ℕ → ℕ
first_ready st [] d = d
first_ready st (x ∷ xs) d = if is_state (st x) TaskState.task_ready then x else first_ready st xs d

pick_from_lem :
    (s : Sched) (start a : ℕ) (xs : List ℕ) (fuel : ℕ)
    → Links s.next s.prev a xs start
    → Absent start xs
    → Absent 0 (a ∷ xs)
    → length (a ∷ xs) ≤ fuel
    → pick_from fuel start a s ≡ some (first_ready s.state (a ∷ xs) s.idle_task)
unfolding pick_from
pick_from_lem s start a xs zero l ab z h = absurd (omega arith)
pick_from_lem s start a [] (suc fuel) l ab z h =
    let nz : (a == 0) ≡ false = ==-ne_of a 0 (λ e. z.0 (sym e)) in
    let back : (s.next a == start) ≡ true = ==-eq_of (s.next a) start l.0 in
    elim (Bool-cases (is_state (s.state a) TaskState.task_ready)) [
      | inl r ↦ simp (nz, r, back)
      | inr r ↦ simp (nz, r, back)
    ]
pick_from_lem s start a (x ∷ xs) (suc fuel) l ab z h =
    let nz : (a == 0) ≡ false = ==-ne_of a 0 (λ e. z.0 (sym e)) in
    let on : (x == start) ≡ false = ==-ne_of x start (λ e. ab.0 (sym e)) in
    let rest = pick_from_lem s start x xs fuel l.2 ab.1 z.1 (omega arith) in
    elim (Bool-cases (is_state (s.state a) TaskState.task_ready)) [
      | inl r ↦ simp (nz, r, on, l.0, rest)
      | inr r ↦ simp (nz, r, on, l.0, rest)
    ]

-- `sched_pick_next` returns the first ready task of the queue, from the head on, and the idle
-- task when there is none; its loop ends within as many rounds as the queue has tasks.
pub sched_pick_next_lem :
    (s : Sched) (q : List ℕ) (fuel : ℕ)
    → IsQueue s q
    → length q ≤ fuel
    → sched_pick_next fuel s ≡ some (first_ready s.state q s.idle_task)
unfolding sched_pick_next
sched_pick_next_lem s [] fuel hd h = rw (==-eq_of s.run_queue_head 0 hd) refl
sched_pick_next_lem s (x ∷ xs) fuel (hd, l, d, z) h =
    simp (hd, ==-ne_of x 0 (λ e. z.0 (sym e)), pick_from_lem s x x xs fuel l d.0 z h)
