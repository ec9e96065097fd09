-- ===== src/Proc.antt =====
-- kernel/proc/proc.c: the table of processes and the tasks that wait for an exit. A `proc_t` is
-- known by its address, 0 for NULL, and `kfree` is the list of the addresses given back. A call
-- that blocks is two functions, what happens until the task gives up the CPU and what it does when
-- it runs again. `none` is a dereference of NULL in the scheduler.
pub mod Wake
pub mod Exit
mod Tests
use dev_os.Prelude.{
  ◌^◌, ℕ, zero, suc, ◌+◌, ◌-◌, ◌==◌, ltb, leb, if◌then◌else◌, Bool, true, false, Option, none, some,
  List, [], ◌∷◌, ◌++◌, length, take, update,
}
use dev_os.Prelude.Int.{ℤ, pos, negsuc}
use dev_os.Sched.{Sched, sched_unblock, sched_block}

pub record ProcInfo : Type 0 where
  pub pid : ℕ
  pub ppid : ℕ
  pub task : ℕ
  pub exit_code : ℤ
  pub exited : Bool
  pub name : List ℕ

-- `task_pid` and `task_ppid` are fields of `task_t`.
pub record Procs : Type 0 where
  pub proc_table : ℕ → ℕ
  pub info : ℕ → ProcInfo
  pub wait_queues : ℕ → List ℕ
  pub freed : List ℕ
  pub sched : Sched
  pub task_pid : ℕ → ℕ
  pub task_ppid : ℕ → ℕ

abbrev pub proc_max : ℕ
proc_max = 256

abbrev pub wait_queue_max : ℕ
wait_queue_max = 8

unfoldable pub proc_init : Procs → Procs
proc_init k = record k { proc_table = λ pid. 0; wait_queues = λ pid. [] }

-- `addr` is what `kzalloc` answers, and `name` the characters before the NUL. The result is the
-- address, 0 for NULL.
unfoldable pub proc_create : ℕ → List ℕ → ℕ → Procs → ℕ × Procs
proc_create addr name t k =
    if t == 0
    then (0, k)
    else if leb proc_max (k.task_pid t)
    then (0, k)
    else if addr == 0
    then (0, k)
    else (
      addr,
      record k {
        proc_table = update k.proc_table (k.task_pid t) addr;
        info = update k.info addr (record {
          pid = k.task_pid t;
          ppid = k.task_ppid t;
          task = t;
          exit_code = pos 0;
          exited = false;
          name = take 31 name;
        });
      },
    )

abbrev pub proc_get : ℕ → Procs → ℕ
proc_get pid k = if leb proc_max pid then 0 else k.proc_table pid

-- The loop of `proc_exit` over the tasks that wait.
unfoldable pub wake_tasks : List ℕ → Sched → Option Sched
wake_tasks [] s = some s
wake_tasks (t ∷ ts) s = elim (t == 0) [
  | true ↦ wake_tasks ts s
  | false ↦ elim (sched_unblock t s) [ none ↦ none | some s1 ↦ wake_tasks ts s1 ]
]

-- `p->exit_code = code; p->exited = true;`
abbrev pub mark_exited : ℕ → ℤ → Procs → Procs
mark_exited p code k = record k {
  info = update k.info p (record (k.info p) { exit_code = code; exited = true });
}

unfoldable pub proc_exit : ℕ → ℤ → Procs → Option Procs
proc_exit p code k = elim (p == 0) [
  | true ↦ some k
  | false ↦
      let pid = (k.info p).pid in
      elim (wake_tasks (k.wait_queues pid) k.sched) [
        | none ↦ none
        | some s ↦
            some (record (mark_exited p code k) {
              sched = s;
              wait_queues = update k.wait_queues pid [];
            })
      ]
]

unfoldable pub proc_reap : ℕ → Procs → Procs
proc_reap pid k =
    if leb proc_max pid
    then k
    else if k.proc_table pid == 0
    then k
    else record k { freed = k.proc_table pid ∷ k.freed; proc_table = update k.proc_table pid 0 }

-- How `proc_waitpid` goes on: it has returned -ESRCH, the process has exited already, or the caller
-- has blocked; it holds on to the address `p` in between.
pub data Wait : Type 0 where
  wait_no_process wait_exited wait_blocked : Wait

abbrev pub enlisted : ℕ → Procs → Procs
enlisted pid k =
    if ltb (length (k.wait_queues pid)) wait_queue_max
    then record k {
      wait_queues = update k.wait_queues pid (k.wait_queues pid ++ (k.sched.current_task ∷ []));
    }
    else k

-- `proc_waitpid` until it blocks or reads the status.
unfoldable pub waitpid_enter : ℕ → ℕ → Procs → Option (Wait × Procs)
waitpid_enter fuel pid k = elim (proc_get pid k == 0) [
  | true ↦ some (Wait.wait_no_process, k)
  | false ↦ elim (k.info (proc_get pid k)).exited [
    | true ↦ some (Wait.wait_exited, k)
    | false ↦ elim (sched_block fuel k.sched.current_task (2 ^ 64 - 1) k.sched) [
      | none ↦ none
      | some s ↦ some (Wait.wait_blocked, record (enlisted pid k) { sched = s })
    ]
  ]
]

-- The rest of it: the status read from `p`, and the state.
unfoldable pub waitpid_finish : ℕ → ℕ → Procs → ℤ × Procs
waitpid_finish pid p k = ((k.info p).exit_code, proc_reap pid k)
