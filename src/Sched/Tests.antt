-- ===== src/Sched/Tests.antt =====
-- kernel/sched on three tasks: each theorem at an input that meets its hypotheses.
use dev_os.Prelude.{
  ℕ, suc, ◌*◌, ◌≡◌, refl, arith, false, ◌==◌, if◌then◌else◌, some, none, [], ◌∷◌, length,
}
use dev_os.Sched.{Sched, TaskState, sched_yield, sched_pick_next}
use dev_os.Sched.Create.{Tasks, no_registers, sched_create_task, sched_enqueue}
use dev_os.Sched.Start.{Starts, sched_create_task-Starts}
use dev_os.Sched.Queue.{IsQueue}
use dev_os.Sched.Remove.{Removes, run_queue_remove-IsQueue}
use dev_os.Sched.Pick.{first_ready, sched_pick_next_lem}
use dev_os.Sched.Switch.{IsRunning, Rotates, sched_yield-Rotates, sched_yield-null}
use dev_os.Sched.Fair.{Reaches, yields, yields-Reaches}

-- Task 1 runs, 2 and 3 wait, and 9 is the idle task.
abbrev three : Sched
three = record {
  state = λ p. if p == 1 then TaskState.task_running else TaskState.task_ready;
  kernel_stack = λ p. p * 0x1000;
  time_slice = λ p. 5;
  total_ticks = λ p. 0;
  wake_tick = λ p. 0;
  next = λ p. if p == 2 then 3 else if p == 3 then 2 else 0;
  prev = λ p. if p == 2 then 3 else if p == 3 then 2 else 0;
  idle_task = 9;
  current_task = 1;
  run_queue_head = 2;
  sched_tick_count = 0;
  in_sched = false;
  sleep_list = [];
  kernel_rsp = 0;
}

three-IsQueue : IsQueue three (2 ∷ 3 ∷ [])
three-IsQueue = (
  refl,
  (refl, refl, (refl, refl)),
  ((omega arith, tt), (tt, tt)),
  (omega arith, (omega arith, tt)),
)

three-IsRunning : IsRunning three (2 ∷ 3 ∷ [])
three-IsRunning = record {
  queue = three-IsQueue;
  ready = (refl, (refl, tt));
  apart = (omega arith, (omega arith, tt));
  exists = omega arith;
  running = refl;
}

-- Nothing waits.
abbrev alone : Sched
alone = record three { run_queue_head = 0; next = λ p. 0; prev = λ p. 0 }

alone-IsRunning : IsRunning alone []
alone-IsRunning = record {
  queue = refl;
  ready = tt;
  apart = tt;
  exists = omega arith;
  running = refl;
}

run_queue_remove-IsQueue_example : Removes three 3 (2 ∷ [])
run_queue_remove-IsQueue_example = run_queue_remove-IsQueue three (2 ∷ []) 3 [] three-IsQueue

sched_pick_next_lem_example :
    sched_pick_next 2 three ≡ some (first_ready three.state (2 ∷ 3 ∷ []) three.idle_task)
sched_pick_next_lem_example = sched_pick_next_lem three (2 ∷ 3 ∷ []) 2 three-IsQueue (omega arith)

sched_yield-Rotates_example : Rotates three 2 (3 ∷ []) (sched_yield 2 three)
sched_yield-Rotates_example =
    sched_yield-Rotates three 2 (3 ∷ []) 2 three-IsRunning (omega arith) (omega arith)

sched_yield-null_example : sched_yield 1 alone ≡ none
sched_yield-null_example =
    sched_yield-null alone 1 alone-IsRunning (omega arith) (omega arith) refl refl

yields-Reaches_example : Reaches (yields 2 (suc (length {A = ℕ} (2 ∷ []))) three) 3
yields-Reaches_example =
    yields-Reaches (2 ∷ []) 3 [] three 2 three-IsRunning (omega arith, (omega arith, tt))
      (omega arith)

-- The idle task runs, with nothing queued; task 2 is queued later.
abbrev idle : Sched
idle = record alone { current_task = 9 }

-- Task 1 is running, and 2 and 3 are in the queue.
abbrev tasks : Tasks
tasks = record {
  sched = three;
  next_pid = 4;
  pid = λ t. t;
  ppid = λ t. 0;
  priority = λ t. 0;
  name = λ t. [];
  cpu = λ t. no_registers;
  user_stack = λ t. 0;
  rip_entry = λ t. 0;
  task_cr3 = λ t. 0;
  task_mmap_cursor = λ t. 0;
  mem = λ a. 0;
}

sched_create_task-Starts_example :
    (s' : Tasks) × (s'' : Sched) × (sched_create_task 5 0x20008 0 0x1000 (97 ∷ []) 0x2000 1 tasks
      ≡ (some 5, s'))
    × Starts 5 0x20008 0x2000 0x1000 s'
    × (s'.pid 5 ≡ 4)
    × (s'.sched.state 5 ≡ TaskState.task_created)
    × IsQueue s'.sched (2 ∷ 3 ∷ [])
    × (sched_enqueue 5 s'.sched ≡ some s'')
    × IsQueue s'' (2 ∷ 3 ∷ 5 ∷ [])
    × (s''.state 5 ≡ TaskState.task_ready)
sched_create_task-Starts_example =
    sched_create_task-Starts 5 0x20008 0 0x1000 (97 ∷ []) 0x2000 1 tasks (2 ∷ 3 ∷ []) (omega arith)
      (omega arith) (omega arith) three-IsQueue (omega arith, (omega arith, tt))
