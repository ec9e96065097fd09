-- ===== src/Proc/Tests.antt =====
-- kernel/proc/proc.c: the process at 70 exits while task 5 waits for it.
use dev_os.Prelude.{◌≡◌, refl, arith, ◌==◌, if◌then◌else◌, some, [], ◌∷◌, false}
use dev_os.Prelude.Int.{pos}
use dev_os.Sched.{Sched, TaskState}
use dev_os.Proc.{Procs, proc_exit}
use dev_os.Proc.Exit.{Exited, proc_exit-Exited}

abbrev sched_with_waiter : Sched
sched_with_waiter = record {
  state = λ p. if p == 5 then TaskState.task_blocked else TaskState.task_ready;
  kernel_stack = λ p. 0;
  time_slice = λ p. 5;
  total_ticks = λ p. 0;
  wake_tick = λ p. 0;
  next = λ p. if p == 2 then 2 else 0;
  prev = λ p. if p == 2 then 2 else 0;
  idle_task = 9;
  current_task = 1;
  run_queue_head = 2;
  sched_tick_count = 0;
  in_sched = false;
  sleep_list = [];
  kernel_rsp = 0;
}

abbrev one_process : Procs
one_process = record {
  proc_table = λ pid. if pid == 3 then 70 else 0;
  info = λ p. record { pid = 3; ppid = 0; task = 1; exit_code = pos 0; exited = false; name = [] };
  wait_queues = λ pid. if pid == 3 then 5 ∷ [] else [];
  freed = [];
  sched = sched_with_waiter;
  task_pid = λ t. 3;
  task_ppid = λ t. 0;
}

proc_exit-Exited_example :
    (k' : Procs) × (proc_exit 70 (pos 4) one_process ≡ some k')
    × Exited 3 70 (pos 4) (2 ∷ []) one_process k'
proc_exit-Exited_example =
    proc_exit-Exited one_process 70 (pos 4) (2 ∷ []) (omega arith) (omega arith) refl
      (refl, (refl, refl), (tt, tt), (omega arith, tt))
      (omega arith, refl, (omega arith, tt), tt, tt)
