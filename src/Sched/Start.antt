-- ===== src/Sched/Start.antt =====
-- The task that `sched_create_task` of kernel/sched/sched.c makes, up to its place in the run queue.
use dev_os.Prelude.{
  ℕ, ◌+◌, ◌*◌, ◌/◌, ◌%◌, ◌^◌, ◌≡◌, ◌≢◌, ◌≤◌, ◌<◌, refl, ap, sym, ◌∙◌, arith, some, List, [], ◌∷◌,
  ◌++◌, update, update_self, update_ne, ==-ne_of,
}
use dev_os.Word.{u64, sub64, align_down, align_down_16}
use dev_os.Sched.{Sched, TaskState}
use dev_os.Sched.Queue.{Absent, IsQueue, run_queue_add-IsQueue}
use dev_os.Sched.Links.{Links-same}
use dev_os.Sched.Create.{
  finish_task, CpuState, no_registers, blank_task, with_stack, Tasks, sched_alloc_task, first_frame,
  sched_create_task, sched_enqueue, kstack_size,
}

-- A queue without `t` does not see what becomes of the links of `t`.
IsQueue-fresh :
    (s s' : Sched) (q : List ℕ) (t : ℕ)
    → IsQueue s q
    → Absent t q
    → s'.run_queue_head ≡ s.run_queue_head
    → ((p : ℕ) → p ≢ t → s'.next p ≡ s.next p)
    → ((p : ℕ) → p ≢ t → s'.prev p ≡ s.prev p)
    → IsQueue s' q
IsQueue-fresh s s' [] t queue out hd kn kp = hd ∙ queue
IsQueue-fresh s s' (x ∷ xs) t (first, links, distinct, nonzero) out hd kn kp = (
  hd ∙ first,
  Links-same s.next s.prev s'.next s'.prev t t t x xs x links out out out.1 out.0 out.0
      (λ p a b. kn p a) (λ p a b. kp p a),
  distinct,
  nonzero,
)

-- The task `t` starts at `entry` on a stack of its own and returns to `exit_address`.
pub record Starts (t kstack entry exit_address : ℕ) (s : Tasks) : Type 0 where
  pub enters : s.mem (s.cpu t).rsp ≡ entry
  pub returns : s.mem ((s.cpu t).rsp + 8) ≡ exit_address
  pub top : (s.cpu t).rsp + 16 ≡ s.sched.kernel_stack t
  pub aligned : s.sched.kernel_stack t % 16 ≡ 0
  pub low : kstack ≤ (s.cpu t).rsp
  pub high : s.sched.kernel_stack t ≤ kstack + kstack_size

first_frame-Starts :
    (t kstack entry exit_address : ℕ) (s : Tasks)
    → s.sched.kernel_stack t ≡ align_down (u64 (kstack + kstack_size)) 16
    → kstack + 16384 < 2 ^ 64
    → Starts t kstack entry exit_address (first_frame t entry exit_address s)
unfolding first_frame
first_frame-Starts t kstack entry exit_address s stack small =
    let top = s.sched.kernel_stack t in
    let sp1 = sub64 top 8 in
    let sp2 = sub64 sp1 8 in
    let place : top ≡ (kstack + 16384) / 16 * 16 =
      omega (arith, stack, align_down_16 (u64 (kstack + kstack_size))) in
    let rsp =
      ap (λ (c : CpuState). c.rsp) (update_self s.cpu t (record no_registers { rsp = sp2 })) in
    let below : sp2 + 16 ≡ top = omega (arith, place) in
    let above : sp2 + 8 ≡ sp1 = omega (arith, place) in
    let mem = (first_frame t entry exit_address s).mem in
    record {
      enters = ap mem rsp ∙ update_self (update s.mem sp1 exit_address) sp2 entry;
      returns =
          ap (λ (r : ℕ). mem (r + 8)) rsp
          ∙ ap mem above
          ∙ update_ne (update s.mem sp1 exit_address) sp2 sp1 entry (λ e. omega (arith, e, above))
          ∙ update_self s.mem sp1 exit_address;
      top = omega (arith, rsp, below);
      aligned = omega (arith, place);
      low = omega (arith, rsp, below, place);
      high = omega (arith, place);
    }

alloc_given :
    (t kstack cr3 : ℕ) (name : List ℕ) (priority : ℕ) (s : Tasks)
    → t ≢ 0
    → kstack ≢ 0
    → sched_alloc_task t kstack cr3 name priority s
      ≡ (some t, with_stack t kstack cr3 (blank_task t name priority s))
unfolding sched_alloc_task
alloc_given t kstack cr3 name priority s nz stack =
    rw (==-ne_of t 0 nz, ==-ne_of kstack 0 stack) refl

-- When the heap answers `t` and `kstack`, a block whose end is below 2 ^ 64, and `t` is not in the
-- run queue, `sched_create_task` makes the task `t`: its first switch pops `entry` from a stack that
-- is aligned and within the block, and below it stands `sched_exit`. The task has the next process
-- number and is in state created; the run queue is as before, and `sched_enqueue` puts the task at
-- its end, ready.
pub sched_create_task-Starts :
    (t kstack cr3 exit_address : ℕ) (name : List ℕ) (entry priority : ℕ) (s : Tasks) (q : List ℕ)
    → t ≢ 0
    → kstack ≢ 0
    → kstack + 16384 < 2 ^ 64
    → IsQueue s.sched q
    → Absent t q
    → (s' : Tasks) × (s'' : Sched) × (sched_create_task t kstack cr3 exit_address name entry
          priority s
        ≡ (some t, s'))
      × Starts t kstack entry exit_address s'
      × (s'.pid t ≡ s.next_pid)
      × (s'.sched.state t ≡ TaskState.task_created)
      × IsQueue s'.sched q
      × (sched_enqueue t s'.sched ≡ some s'')
      × IsQueue s'' (q ++ (t ∷ []))
      × (s''.state t ≡ TaskState.task_ready)
unfolding sched_create_task first_frame
sched_create_task-Starts t kstack cr3 exit_address name entry priority s q nz stack small queue
      out =
    let made = with_stack t kstack cr3 (blank_task t name priority s) in
    let started : Tasks = record made { rip_entry = update made.rip_entry t entry } in
    let after = first_frame t entry exit_address started in
    let kept : IsQueue after.sched q =
      IsQueue-fresh s.sched after.sched q t queue out refl
        (λ p ne. update_ne s.sched.next t p 0 (λ e. ne (sym e)))
        (λ p ne. update_ne s.sched.prev t p 0 (λ e. ne (sym e))) in
    let (s'', added, joined, ready, relinked) = run_queue_add-IsQueue after.sched q t kept nz out in
    (
      after,
      s'',
      ap (finish_task exit_address entry) (alloc_given t kstack cr3 name priority s nz stack),
      first_frame-Starts t kstack entry exit_address started
          (update_self (update s.sched.kernel_stack t 0) t
            (align_down (u64 (kstack + kstack_size)) 16))
          small,
      update_self s.pid t s.next_pid,
      update_self s.sched.state t TaskState.task_created,
      kept,
      added,
      joined,
      ready,
    )
