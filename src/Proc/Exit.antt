-- ===== src/Proc/Exit.antt =====
-- The exit of a process and the wait for it, in kernel/proc/proc.c.
use dev_os.Prelude.{
  ap, sym, ◌∙◌, ◌==◌, ℕ, ◌≡◌, ◌≢◌, ◌<◌, refl, ap, sym, ◌∙◌, arith, some, true, false, List, [], ◌∷◌,
  ◌++◌, ==-ne_of, leb, update, update_self,
}
use dev_os.Prelude.Int.{ℤ}
use dev_os.Sched.Queue.{IsQueue}
use dev_os.Proc.{
  ProcInfo, Procs, Wait, proc_exit, proc_get, proc_reap, waitpid_enter, waitpid_finish, mark_exited,
}
use dev_os.Proc.Wake.{Blocked, Ready, wake_tasks-IsQueue}

-- After the exit of `p` with `code`: the tasks that waited are at the end of the run queue.
pub record Exited (pid p : ℕ) (code : ℤ) (q : List ℕ) (k k' : Procs) : Type 0 where
  pub queue : IsQueue k'.sched (q ++ k.wait_queues pid)
  pub woken : Ready k'.sched (k.wait_queues pid)
  pub nobody_waits : k'.wait_queues pid ≡ []
  pub at_once : (fuel : ℕ) → waitpid_enter fuel pid k' ≡ some (Wait.wait_exited, k')
  pub status : (waitpid_finish pid p k').0 ≡ code
  pub given_back : (waitpid_finish pid p k').1.freed ≡ p ∷ k.freed
  pub gone :
      (fuel : ℕ)
      → waitpid_enter fuel pid (waitpid_finish pid p k').1
        ≡ some (Wait.wait_no_process, (waitpid_finish pid p k').1)

get-listed : (k : Procs) (pid p : ℕ) → pid < 256 → k.proc_table pid ≡ p → proc_get pid k ≡ p
get-listed k pid p small listed = let low : leb 256 pid ≡ false = ground arith in rw low listed

enter-exited :
    (k : Procs) (pid p fuel : ℕ)
    → p ≢ 0
    → proc_get pid k ≡ p
    → (k.info p).exited ≡ true
    → waitpid_enter fuel pid k ≡ some (Wait.wait_exited, k)
unfolding waitpid_enter
enter-exited k pid p fuel nz get exited =
    let here : (p == 0) ≡ false = ==-ne_of p 0 nz in
    let done : (k.info (proc_get pid k)).exited ≡ true =
      ap (λ (x : ℕ). (k.info x).exited) get ∙ exited in
    rw (get, here, done, waitpid_enter) refl

enter-gone :
    (k : Procs) (pid fuel : ℕ)
    → proc_get pid k ≡ 0
    → waitpid_enter fuel pid k ≡ some (Wait.wait_no_process, k)
unfolding waitpid_enter
enter-gone k pid fuel get = rw (get, waitpid_enter) refl

reap-listed :
    (k : Procs) (pid : ℕ)
    → pid < 256
    → k.proc_table pid ≢ 0
    → proc_reap pid k
      ≡ record k { freed = k.proc_table pid ∷ k.freed; proc_table = update k.proc_table pid 0 }
unfolding proc_reap
reap-listed k pid small nz =
    let low : leb 256 pid ≡ false = ground arith in
    let here : (k.proc_table pid == 0) ≡ false = ==-ne_of (k.proc_table pid) 0 nz in
    rw (low, here) refl

-- When the process `p` is in the table and the tasks in its wait queue are blocked, distinct and
-- not in the run queue, `proc_exit` succeeds: these tasks go to the end of the run queue, ready and
-- in their order, and the wait queue is empty; from then on `proc_waitpid` does not block, reads the
-- exit code, gives the memory of `p` back once and takes it out of the table, so that the next
-- `proc_waitpid` finds no process.
pub proc_exit-Exited :
    (k : Procs) (p : ℕ) (code : ℤ) (q : List ℕ)
    → p ≢ 0
    → (k.info p).pid < 256
    → k.proc_table (k.info p).pid ≡ p
    → IsQueue k.sched q
    → Blocked k.sched q (k.wait_queues (k.info p).pid)
    → (k' : Procs) × (proc_exit p code k ≡ some k') × Exited (k.info p).pid p code q k k'
unfolding proc_exit waitpid_finish
proc_exit-Exited k p code q nz small listed queue blocked =
    let pid = (k.info p).pid in
    let (s, run, queue', ready, same) =
      wake_tasks-IsQueue k.sched q (k.wait_queues pid) queue blocked in
    let after : Procs = record (mark_exited p code k) {
      sched = s;
      wait_queues = update k.wait_queues pid [];
    } in
    let here : (p == 0) ≡ false = ==-ne_of p 0 nz in
    let marked : after.info p ≡ record (k.info p) { exit_code = code; exited = true } =
      update_self k.info p (record (k.info p) { exit_code = code; exited = true }) in
    let reaped = reap-listed after pid small (λ e. nz (sym listed ∙ e)) in
    (
      after,
      rw (here, run, proc_exit) refl,
      record {
        queue = queue';
        woken = ready;
        nobody_waits = update_self k.wait_queues pid [];
        at_once = λ fuel.
            enter-exited after pid p fuel nz (get-listed after pid p small listed)
              (ap (λ (i : ProcInfo). i.exited) marked);
        status = ap (λ (i : ProcInfo). i.exit_code) marked;
        given_back = ap (λ (r : Procs). r.freed) reaped ∙ ap (λ (x : ℕ). x ∷ k.freed) listed;
        gone = λ fuel. enter-gone (proc_reap pid after) pid fuel (
            get-listed (proc_reap pid after) pid 0 small
              (ap (λ (r : Procs). r.proc_table pid) reaped ∙ update_self k.proc_table pid 0));
      },
    )
