-- ===== src/Sched/Switch.antt =====
-- `sched_do_switch` and `sched_yield`: round robin between ready tasks.
use dev_os.Prelude.{
  ℕ, ◌≤◌, ◌≡◌, ◌≢◌, refl, sym, ap, ◌∙◌, true, false, ◌==◌, Option, some, none, List, [], ◌∷◌, ◌++◌,
  length, update, update_self, update_ne, ==-ne_of,
}
use dev_os.Sched.{
  Sched, TaskState, default_timeslice, put_back, run_queue_add, run_queue_remove, sched_pick_next,
  sched_do_switch, reschedule, sched_yield,
}
use dev_os.Sched.Queue.{Absent, IsQueue, Relinked, run_queue_add-IsQueue}
use dev_os.Sched.Remove.{Unlinked, Removes, run_queue_remove-IsQueue}
use dev_os.Sched.Pick.{sched_pick_next_lem}

-- Every task of the list is ready.
abbrev pub AllReady : (ℕ → TaskState) → List ℕ → Type 0
AllReady st [] = Unit {0}
AllReady st (x ∷ xs) = (st x ≡ TaskState.task_ready) × AllReady st xs

-- The current task runs, the queue's are ready, and it is not one of them.
pub record IsRunning (s : Sched) (q : List ℕ) : Type 0 where
  pub queue : IsQueue s q
  pub ready : AllReady s.state q
  pub apart : Absent s.current_task q
  pub exists : s.current_task ≢ 0
  pub running : s.state s.current_task ≡ TaskState.task_running

-- The CPU went to `next`, with a full time slice and its own kernel stack, and the guard is off.
pub record Switched (s : Sched) (next : ℕ) (s' : Sched) : Type 0 where
  pub current : s'.current_task ≡ next
  pub slice : s'.time_slice next ≡ default_timeslice
  pub stack : s'.kernel_rsp ≡ s.kernel_stack next
  pub guard : s'.in_sched ≡ false
  pub idle : s'.idle_task ≡ s.idle_task

AllReady-append :
    (st : ℕ → TaskState) (q : List ℕ) (t : ℕ)
    → AllReady st q
    → st t ≡ TaskState.task_ready
    → AllReady st (q ++ (t ∷ []))
AllReady-append st [] t h e = (e, tt)
AllReady-append st (x ∷ xs) t h e = (h.0, AllReady-append st xs t h.1 e)

-- States that agree on the list, as they differ at `t` and `c` only.
AllReady-same :
    (st st' : ℕ → TaskState) (q : List ℕ) (t c : ℕ)
    → AllReady st q
    → Absent t q
    → Absent c q
    → ((p : ℕ) → p ≢ t → p ≢ c → st' p ≡ st p)
    → AllReady st' q
AllReady-same st st' [] t c h a b k = tt
AllReady-same st st' (x ∷ xs) t c h a b k =
    (k x (λ e. a.0 (sym e)) (λ e. b.0 (sym e)) ∙ h.0, AllReady-same st st' xs t c h.1 a.1 b.1 k)

Absent-append : (x : ℕ) (xs : List ℕ) (n : ℕ) → Absent x xs → x ≢ n → Absent x (xs ++ (n ∷ []))
Absent-append x [] n h ne = (ne, tt)
Absent-append x (y ∷ ys) n h ne = (h.0, Absent-append x ys n h.1 ne)

-- The outcome of a switch from the running task to the head of the queue.
abbrev pub Rotates : Sched → ℕ → List ℕ → Option Sched → Type 0
Rotates s next q r =
    (s' : Sched) × (r ≡ some s') × IsRunning s' (q ++ (s.current_task ∷ [])) × Switched s next s'

-- What `put_back` and `run_queue_remove` leave.
abbrev switched : Sched → ℕ → Sched
switched s next = record s {
  state = update s.state next TaskState.task_running;
  time_slice = update s.time_slice next default_timeslice;
  current_task = next;
  kernel_rsp = s.kernel_stack next;
  in_sched = false;
}

IsQueue-same :
    (s s' : Sched) (q : List ℕ)
    → s'.run_queue_head ≡ s.run_queue_head
    → s'.next ≡ s.next
    → s'.prev ≡ s.prev
    → IsQueue s q
    → IsQueue s' q
IsQueue-same s s' [] eh en ep iq = eh ∙ iq
IsQueue-same s s' (x ∷ xs) eh en ep (hd, l, d, z) = (eh ∙ hd, rw (en, ep) l, d, z)

-- The running task, now ready, at the end of the queue.
abbrev marked : Sched → Sched
marked s = record s { state = update s.state s.current_task TaskState.task_ready }

put_back_lem :
    (s : Sched) (q : List ℕ)
    → IsRunning s q
    → s.current_task ≢ s.idle_task
    → put_back s.current_task s ≡ run_queue_add s.current_task (marked s)
unfolding put_back
put_back_lem s q r ne =
    simp (r.running, ==-ne_of s.current_task 0 r.exists, ==-ne_of s.current_task s.idle_task ne)

-- The last steps of a switch, when the head `next` is taken out of the queue of `s2`.
finish :
    (s : Sched) (next : ℕ) (q : List ℕ) (s2 s3 : Sched)
    → IsRunning s (next ∷ q)
    → Relinked (marked s) s.current_task s2
    → s2.state s.current_task ≡ TaskState.task_ready
    → IsQueue s3 (q ++ (s.current_task ∷ []))
    → Unlinked s2 s3
    → IsRunning (switched s3 next) (q ++ (s.current_task ∷ [])) × Switched s next (switched s3 next)
finish s next q s2 s3 r k2 rd q3 k3 = (
  record {
    queue = IsQueue-same s3 (switched s3 next) (q ++ (s.current_task ∷ [])) refl refl refl q3;
    ready =
        AllReady-append (switched s3 next).state q s.current_task
          (AllReady-same s.state (switched s3 next).state q next s.current_task r.ready.1
            r.queue.2.0 r.apart.1 states)
          (now s.current_task (λ e. r.apart.0 e) ∙ rd);
    apart = Absent-append next q s.current_task r.queue.2.0 (λ e. r.apart.0 (sym e));
    exists = λ e. r.queue.3.0 (sym e);
    running = update_self s3.state next TaskState.task_running;
  },
  record {
    current = refl;
    slice = update_self s3.time_slice next default_timeslice;
    stack = ap (λ (f : ℕ → ℕ). f next) (k3.stack ∙ k2.stack);
    guard = refl;
    idle = k3.idle ∙ k2.idle;
  },
)
  where
    now : (p : ℕ) → p ≢ next → (switched s3 next).state p ≡ s2.state p
    now p ne =
        update_ne s3.state next p TaskState.task_running (λ e. ne (sym e))
        ∙ ap (λ (f : ℕ → TaskState). f p) k3.states

    states : (p : ℕ) → p ≢ next → p ≢ s.current_task → (switched s3 next).state p ≡ s.state p
    states p ne nc =
        now p ne
        ∙ k2.states p nc
        ∙ update_ne s.state s.current_task p TaskState.task_ready (λ e. nc (sym e))

-- A switch from the running task to the head of the queue: the head runs, and the task that ran
-- is ready at the end of the queue.
pub sched_do_switch-Rotates :
    (s : Sched) (next : ℕ) (q : List ℕ)
    → IsRunning s (next ∷ q)
    → s.current_task ≢ s.idle_task
    → Rotates s next q (sched_do_switch next s)
unfolding sched_do_switch
sched_do_switch-Rotates s next q r ne = added (
    run_queue_add-IsQueue (marked s) (next ∷ q) s.current_task
      (IsQueue-same s (marked s) (next ∷ q) refl refl refl r.queue) r.exists r.apart)
  where
    nz : (next == 0) ≡ false
    nz = ==-ne_of next 0 (λ e. r.queue.3.0 (sym e))

    other : (next == s.current_task) ≡ false
    other = ==-ne_of next s.current_task (λ e. r.apart.0 (sym e))

    removed :
        (s2 : Sched)
        → run_queue_add s.current_task (marked s) ≡ some s2
        → s2.state s.current_task ≡ TaskState.task_ready
        → Relinked (marked s) s.current_task s2
        → Removes s2 next (q ++ (s.current_task ∷ []))
        → Rotates s next q (sched_do_switch next s)
    removed s2 e rd k2 (s3, e3, q3, n0, p0, k3) =
        let done = finish s next q s2 s3 r k2 rd q3 k3 in
        (switched s3 next, simp (other, put_back_lem s (next ∷ q) r ne, e, e3, nz), done.0, done.1)

    added :
        (s2 : Sched) × (run_queue_add s.current_task (marked s) ≡ some s2)
          × IsQueue s2 ((next ∷ q) ++ (s.current_task ∷ []))
          × (s2.state s.current_task ≡ TaskState.task_ready)
          × Relinked (marked s) s.current_task s2
        → Rotates s next q (sched_do_switch next s)
    added (s2, e, q2, rd, k2) =
        removed s2 e rd k2 (run_queue_remove-IsQueue s2 [] next (q ++ (s.current_task ∷ [])) q2)

-- With ready tasks queued, `sched_yield` is round robin: the head of the queue runs next, with a
-- full time slice and its own kernel stack, the task that yields goes to the end of the queue,
-- and the guard is off. The fuel need only be the length of the queue.
pub sched_yield-Rotates :
    (s : Sched) (next : ℕ) (q : List ℕ) (fuel : ℕ)
    → IsRunning s (next ∷ q)
    → s.current_task ≢ s.idle_task
    → length (next ∷ q) ≤ fuel
    → Rotates s next q (sched_yield fuel s)
unfolding sched_yield reschedule
sched_yield-Rotates s next q fuel r ne h =
    let again : IsRunning (record s { in_sched = true }) (next ∷ q) = record {
      queue = IsQueue-same s (record s { in_sched = true }) (next ∷ q) refl refl refl r.queue;
      ready = r.ready;
      apart = r.apart;
      exists = r.exists;
      running = r.running;
    } in
    let pick = sched_pick_next_lem (record s { in_sched = true }) (next ∷ q) fuel again.queue h in
    let done = sched_do_switch-Rotates (record s { in_sched = true }) next q again ne in
    (
      done.0,
      simp (pick, r.ready.0, done.1),
      done.2,
      record {
        current = done.3.current;
        slice = done.3.slice;
        stack = done.3.stack;
        guard = done.3.guard;
        idle = done.3.idle;
      },
    )

-- When the run queue is empty and the idle task is not the current one, it has no links, since
-- only the switch to it took it out of the queue. The next `sched_yield` of a running task then
-- follows the idle task's NULL links: the model's run stops there.
pub sched_yield-null :
    (s : Sched) (fuel : ℕ)
    → IsRunning s []
    → s.current_task ≢ s.idle_task
    → s.idle_task ≢ 0
    → s.next s.idle_task ≡ 0
    → s.prev s.idle_task ≡ 0
    → sched_yield fuel s ≡ none
unfolding sched_yield reschedule sched_pick_next sched_do_switch put_back run_queue_add
    run_queue_remove
sched_yield-null s fuel r ne nz n p =
    let empty : s.run_queue_head ≡ 0 = r.queue in
    simp (
      empty,
      n,
      p,
      r.running,
      ==-ne_of s.current_task s.idle_task ne,
      ==-ne_of s.idle_task s.current_task (λ e. ne (sym e)),
      ==-ne_of s.current_task 0 r.exists,
      ==-ne_of 0 s.idle_task (λ e. nz (sym e)),
      ==-ne_of s.idle_task 0 nz,
    )
