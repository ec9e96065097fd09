-- ===== src/Sched.antt =====
-- kernel/sched/sched.c: the run queue, the switch, preemption, sleeping and exit. A task is known
-- by its address, 0 for NULL, and a field of `task_t` is a function from the address. `none` is a
-- dereference of NULL. Saving and loading registers (`sched_switch`) and the interrupt flag have
-- no counterpart: a call's result is the state at its context switch.
pub mod Queue
pub mod Links
pub mod Remove
pub mod Guard
pub mod Pick
pub mod Switch
pub mod Fair
pub mod Create
pub mod Start
mod Tests
use dev_os.Prelude.{
  ℕ, zero, suc, ◌+◌, ◌-◌, ◌^◌, Bool, true, false, not, ◌==◌, ◌!=◌, ltb, leb, ◌&&◌, if◌then◌else◌,
  Option, none, some, List, [], ◌∷◌, ◌++◌, update, length, take, set, get_or,
}
use dev_os.Word.{u64}

pub data TaskState : Type 0 where
  task_created task_ready task_running task_blocked task_zombie task_dead : TaskState

abbrev pub is_state : TaskState → TaskState → Bool
is_state TaskState.task_created TaskState.task_created = true
is_state TaskState.task_ready TaskState.task_ready = true
is_state TaskState.task_running TaskState.task_running = true
is_state TaskState.task_blocked TaskState.task_blocked = true
is_state TaskState.task_zombie TaskState.task_zombie = true
is_state TaskState.task_dead TaskState.task_dead = true
is_state _ _ = false

-- The fields of `task_t` that the scheduler reads or writes, the static variables, and the kernel
-- stack that the TSS and the syscall entry were given last.
pub record Sched : Type 0 where
  pub state : ℕ → TaskState
  pub kernel_stack : ℕ → ℕ
  pub time_slice : ℕ → ℕ
  pub total_ticks : ℕ → ℕ
  pub wake_tick : ℕ → ℕ
  pub next : ℕ → ℕ
  pub prev : ℕ → ℕ
  pub idle_task : ℕ
  pub current_task : ℕ
  pub run_queue_head : ℕ
  pub sched_tick_count : ℕ
  pub in_sched : Bool
  pub sleep_list : List ℕ
  pub kernel_rsp : ℕ

abbrev pub default_timeslice : ℕ
default_timeslice = 20

abbrev pub sleep_list_max : ℕ
sleep_list_max = 256

infixl 5 ◌>>=◌
abbrev pub ◌>>=◌ {ℓ κ} : {A : Type ℓ} {B : Type κ} → Option A → (A → Option B) → Option B
none >>= f = none
some a >>= f = f a

-- `p->field = v`
abbrev pub set_next : ℕ → ℕ → Sched → Option Sched
set_next p v s = if p == 0 then none else some (record s { next = update s.next p v })

abbrev pub set_prev : ℕ → ℕ → Sched → Option Sched
set_prev p v s = if p == 0 then none else some (record s { prev = update s.prev p v })

abbrev pub set_state : ℕ → TaskState → Sched → Option Sched
set_state p v s = if p == 0 then none else some (record s { state = update s.state p v })

unfoldable pub run_queue_add : ℕ → Sched → Option Sched
run_queue_add t s =
    if s.run_queue_head == 0
    then (do
      s1 ← set_next t t s
      s2 ← set_prev t t s1
      set_state t TaskState.task_ready (record s2 { run_queue_head = t }))
    else (do
      let tail = s.prev s.run_queue_head
      s1 ← set_next tail t s
      s2 ← set_prev t tail s1
      s3 ← set_next t s2.run_queue_head s2
      s4 ← set_prev s3.run_queue_head t s3
      set_state t TaskState.task_ready s4)

unfoldable pub run_queue_remove : ℕ → Sched → Option Sched
run_queue_remove t s =
    if (s.next t) == t then set_next t 0 (record s { run_queue_head = 0 }) >>= set_prev t 0 else (do
      s1 ← set_next (s.prev t) (s.next t) s
      s2 ← set_prev (s1.next t) (s1.prev t) s1
      let s3 = if s2.run_queue_head == t then record s2 { run_queue_head = s2.next t } else s2
      s4 ← set_next t 0 s3
      set_prev t 0 s4)

-- The loop of `sched_pick_next` at `t`, with fuel; `none` also when the fuel runs out.
unfoldable pub pick_from : ℕ → ℕ → ℕ → Sched → Option ℕ
pick_from zero start t s = none
pick_from (suc fuel) start t s =
    let following = (s.next t) in
    let rest = pick_from fuel start following s in
    if t == 0
    then none
    else if is_state (s.state t) TaskState.task_ready
    then some t
    else if following != start
    then rest
    else some s.idle_task

unfoldable pub sched_pick_next : ℕ → Sched → Option ℕ
sched_pick_next fuel s =
    if s.run_queue_head == 0
    then some s.idle_task
    else pick_from fuel s.run_queue_head s.run_queue_head s

-- The first half of `sched_do_switch`: what happens to the task that gives up the CPU.
unfoldable pub put_back : ℕ → Sched → Option Sched
put_back prev s =
    if is_state (s.state prev) TaskState.task_running
    then (do
      s1 ← set_state prev TaskState.task_ready s
      if prev != s1.idle_task then run_queue_add prev s1 else some s1)
    else some s

unfoldable pub sched_do_switch : ℕ → Sched → Option Sched
sched_do_switch next s = if next == s.current_task then some s else (do
  s1 ← put_back s.current_task s
  s2 ← run_queue_remove next s1
  s3 ← set_state next TaskState.task_running s2
  some (record s3 {
    time_slice = update s3.time_slice next default_timeslice;
    current_task = next;
    kernel_rsp = s3.kernel_stack next;
    in_sched = false;
  }))

unfoldable pub sched_unblock : ℕ → Sched → Option Sched
sched_unblock t s =
    if is_state (s.state t) TaskState.task_blocked then run_queue_add t s else some s

-- `sleep_list[i] = sleep_list[--sleep_list_cnt]`
abbrev pub swap_remove : ℕ → List ℕ → List ℕ
swap_remove i l = take (length l - 1) (set l i (get_or l (length l - 1) 0))

-- The loop of `sched_check_sleepers` at slot `i`, with `n` rounds left: a round passes a slot or
-- drops one, so there are as many as the list is long at the start.
unfoldable pub wake_from : ℕ → ℕ → ℕ → Sched → Option Sched
wake_from zero i tick s = some s
wake_from (suc n) i tick s =
    let t = get_or s.sleep_list i 0 in
    let passed = wake_from n (i + 1) tick s in
    if leb (length s.sleep_list) i
    then some s
    else if t != 0 && (is_state (s.state t) TaskState.task_blocked && leb (s.wake_tick t) tick)
    then (do
      s1 ← sched_unblock t s
      wake_from n i tick (record s1 { sleep_list = swap_remove i s1.sleep_list }))
    else passed

unfoldable pub sched_check_sleepers : ℕ → Sched → Option Sched
sched_check_sleepers tick s = wake_from (length s.sleep_list) 0 tick s

-- The choice and the switch that `sched_tick`, `sched_yield` and `sched_block` end with.
unfoldable pub reschedule : ℕ → Sched → Option Sched
reschedule fuel s = do
  next ← sched_pick_next fuel (record s { in_sched = true })
  sched_do_switch next (record s { in_sched = true })

-- Charges the current task for one tick.
abbrev pub charge : Sched → Sched
charge s =
    let t = s.current_task in
    if ltb 0 (s.time_slice t)
    then record s {
      time_slice = update s.time_slice t (s.time_slice t - 1);
      total_ticks = update s.total_ticks t (u64 (s.total_ticks t + 1));
    }
    else s

unfoldable pub sched_tick : ℕ → Sched → Option Sched
sched_tick fuel s = do
  let count = u64 (s.sched_tick_count + 1)
  s1 ← sched_check_sleepers count (record s { sched_tick_count = count })
  if s1.current_task == 0
      then some s1
      else if s1.in_sched
      then some s1
      else (let s2 = charge s1 in
          if (s2.time_slice s2.current_task) == 0 then reschedule fuel s2 else some s2)

unfoldable pub sched_yield : ℕ → Sched → Option Sched
sched_yield fuel s = reschedule fuel s

unfoldable pub sched_block : ℕ → ℕ → ℕ → Sched → Option Sched
sched_block fuel t wake_tick s = do
  s1 ← set_state t TaskState.task_blocked s
  s2 ← run_queue_remove t (record s1 { wake_tick = update s1.wake_tick t wake_tick })
  let s3 =
      if ltb (length s2.sleep_list) sleep_list_max
      then record s2 { sleep_list = s2.sleep_list ++ (t ∷ []) }
      else s2
  if t == s3.current_task then reschedule fuel s3 else some s3

unfoldable pub sched_exit : ℕ → Sched → Option Sched
sched_exit fuel s = do
  s1 ← set_state s.current_task TaskState.task_zombie s
  s2 ← run_queue_remove s1.current_task s1
  next ← sched_pick_next fuel s2
  s3 ← set_state next TaskState.task_running s2
  some (record s3 { current_task = next; kernel_rsp = (s3.kernel_stack next) })
