-- ===== src/Sched/Create.antt =====
-- kernel/sched/sched.c: making tasks. The heap is an argument; the code's addresses
-- (`sched_exit`, `ring3_enter_first`) and the value of CR3 are, too.
use dev_os.Prelude.{
  ◌∷◌, [], ℕ, ◌+◌, ◌*◌, ◌==◌, if◌then◌else◌, Option, some, none, List, take, update,
}
use dev_os.Word.{align_up, page_size, u32, u64, sub64, align_down}
use dev_os.Sched.{Sched, TaskState, default_timeslice, run_queue_add}

pub record CpuState : Type 0 where
  pub r15 : ℕ
  pub r14 : ℕ
  pub r13 : ℕ
  pub r12 : ℕ
  pub rbx : ℕ
  pub rbp : ℕ
  pub rsp : ℕ

-- The fields of `task_t` that only making a task writes, and the memory by 64-bit words.
pub record Tasks : Type 0 where
  pub sched : Sched
  pub next_pid : ℕ
  pub pid : ℕ → ℕ
  pub ppid : ℕ → ℕ
  pub priority : ℕ → ℕ
  pub name : ℕ → List ℕ
  pub cpu : ℕ → CpuState
  pub user_stack : ℕ → ℕ
  pub rip_entry : ℕ → ℕ
  pub task_cr3 : ℕ → ℕ
  pub task_mmap_cursor : ℕ → ℕ
  pub mem : ℕ → ℕ

abbrev pub kstack_size : ℕ
kstack_size = 16 * 1024

abbrev pub no_registers : CpuState
no_registers = record { r15 = 0; r14 = 0; r13 = 0; r12 = 0; rbx = 0; rbp = 0; rsp = 0 }

-- The task before it has a stack: `kzalloc` has cleared every field.
abbrev pub blank_task : ℕ → List ℕ → ℕ → Tasks → Tasks
blank_task t name priority s =
    let s0 = s.sched in
    record s {
      next_pid = u32 (s.next_pid + 1);
      pid = update s.pid t s.next_pid;
      ppid = update s.ppid t (if s0.current_task == 0 then 0 else s.pid s0.current_task);
      priority = update s.priority t priority;
      name = update s.name t (take 31 name);
      cpu = update s.cpu t no_registers;
      user_stack = update s.user_stack t 0;
      rip_entry = update s.rip_entry t 0;
      task_cr3 = update s.task_cr3 t 0;
      task_mmap_cursor = update s.task_mmap_cursor t 0;
      sched = record s0 {
        state = update s0.state t TaskState.task_created;
        time_slice = update s0.time_slice t default_timeslice;
        total_ticks = update s0.total_ticks t 0;
        wake_tick = update s0.wake_tick t 0;
        kernel_stack = update s0.kernel_stack t 0;
        next = update s0.next t 0;
        prev = update s0.prev t 0;
      };
    }

abbrev pub with_stack : ℕ → ℕ → ℕ → Tasks → Tasks
with_stack t kstack cr3 s = record s {
  task_cr3 = update s.task_cr3 t cr3;
  sched = record s.sched {
    kernel_stack = update s.sched.kernel_stack t (align_down (u64 (kstack + kstack_size)) 16);
  };
}

-- `t` and `kstack` are what `kzalloc` and `kmalloc` answer, 0 for NULL; `cr3` is the register.
unfoldable pub sched_alloc_task : ℕ → ℕ → ℕ → List ℕ → ℕ → Tasks → Option ℕ × Tasks
sched_alloc_task t kstack cr3 name priority s =
    let s1 = blank_task t name priority s in
    if t == 0
    then (none, s)
    else if kstack == 0
    then (none, s1)
    else (some t, with_stack t kstack cr3 s1)

-- The stack with the two addresses, and the registers at the first switch to the task.
unfoldable pub first_frame : ℕ → ℕ → ℕ → Tasks → Tasks
first_frame t entry return_to s =
    let top = s.sched.kernel_stack t in
    let sp1 = sub64 top 8 in
    let sp2 = sub64 sp1 8 in
    record s {
      mem = update (update s.mem sp1 return_to) sp2 entry;
      cpu = update s.cpu t (record no_registers { rsp = sp2 });
    }

-- The rest of `sched_create_task`, after the call of `sched_alloc_task`.
abbrev pub finish_task : ℕ → ℕ → Option ℕ × Tasks → Option ℕ × Tasks
finish_task exit_address entry r = elim r.0 [
  | none ↦ (none, r.1)
  | some t ↦ (
    some t,
    first_frame t entry exit_address (record r.1 { rip_entry = update r.1.rip_entry t entry }),
  )
]

-- `exit_address` is that of `sched_exit`.
unfoldable pub sched_create_task : ℕ → ℕ → ℕ → ℕ → List ℕ → ℕ → ℕ → Tasks → Option ℕ × Tasks
sched_create_task t kstack cr3 exit_address name entry priority s =
    finish_task exit_address entry (sched_alloc_task t kstack cr3 name priority s)

-- `enter_address` is that of `ring3_enter_first`.
unfoldable pub sched_create_user_task :
    ℕ → ℕ → ℕ → ℕ → ℕ → List ℕ → ℕ → ℕ → ℕ → ℕ → Tasks → Option ℕ × Tasks
sched_create_user_task t kstack cr3 exit_address enter_address name entry_rip user_rsp pml4 priority
      s =
    let r = sched_alloc_task t kstack cr3 name priority s in
    elim r.0 [
      | none ↦ (none, r.1)
      | some t' ↦
          let s1 = first_frame t' enter_address exit_address (record r.1 {
            rip_entry = update r.1.rip_entry t' entry_rip;
            user_stack = update r.1.user_stack t' user_rsp;
            task_cr3 = update r.1.task_cr3 t' pml4;
          }) in
          (
            some t',
            record s1 { task_mmap_cursor = update s1.task_mmap_cursor t' 0x0000_5000_0000_0000 },
          )
    ]

abbrev pub sched_enqueue : ℕ → Sched → Option Sched
sched_enqueue t s = run_queue_add t s

-- The boot task, by what `kzalloc` answers and the registers.
abbrev pub boot_task : ℕ → ℕ → ℕ → Tasks → Tasks
boot_task boot cr3 rsp s = record s {
  pid = update s.pid boot 0;
  ppid = update s.ppid boot 0;
  priority = update s.priority boot 255;
  name = update s.name boot (98 ∷ 111 ∷ 111 ∷ 116 ∷ []);
  cpu = update s.cpu boot no_registers;
  user_stack = update s.user_stack boot 0;
  rip_entry = update s.rip_entry boot 0;
  task_cr3 = update s.task_cr3 boot cr3;
  task_mmap_cursor = update s.task_mmap_cursor boot 0;
  sched = record s.sched {
    state = update s.sched.state boot TaskState.task_running;
    time_slice = update s.sched.time_slice boot 1;
    total_ticks = update s.sched.total_ticks boot 0;
    wake_tick = update s.sched.wake_tick boot 0;
    next = update s.sched.next boot 0;
    prev = update s.sched.prev boot 0;
    kernel_stack = update s.sched.kernel_stack boot (u64 (align_up rsp page_size + page_size));
    current_task = boot;
  };
}

-- `none` is a panic. `t` and `kstack` are for the idle task, whose code is at `idle_address`; its name
-- is "idle".
unfoldable pub sched_init : ℕ → ℕ → ℕ → ℕ → ℕ → ℕ → ℕ → Tasks → Option Tasks
sched_init boot t kstack cr3 rsp exit_address idle_address s =
    let r =
      sched_create_task t kstack cr3 exit_address (105 ∷ 100 ∷ 108 ∷ 101 ∷ []) idle_address 255
        (boot_task boot cr3 rsp s) in
    if boot == 0 then none else elim r.0 [
      | none ↦ none
      | some idle ↦ elim (run_queue_add idle (record r.1.sched { idle_task = idle })) [
        | none ↦ none
        | some s1 ↦ some (record r.1 { sched = s1 })
      ]
    ]
