-- ===== src/Sched/Guard.antt =====
-- The guard `in_sched` against switches from the timer.
use dev_os.Prelude.{ℕ, ◌+◌, ◌≡◌, refl, sym, true, ◌==◌, some, [], ==-eq_of, Bool-cases, inl, inr}
use dev_os.Word.{u64}
use dev_os.Sched.{
  Sched, sched_check_sleepers, wake_from, sched_pick_next, sched_do_switch, reschedule, sched_tick,
  sched_yield,
}

check_sleepers_none :
    (s : Sched) (tick : ℕ) → s.sleep_list ≡ [] → sched_check_sleepers tick s ≡ some s
unfolding sched_check_sleepers wake_from
check_sleepers_none s tick e = simp e

-- With the guard on and nobody asleep, a tick of the timer only counts.
sched_tick_guarded :
    (s : Sched) (fuel : ℕ)
    → s.in_sched ≡ true
    → s.sleep_list ≡ []
    → sched_tick fuel s ≡ some (record s { sched_tick_count = u64 (s.sched_tick_count + 1) })
unfolding sched_tick
sched_tick_guarded s fuel g e =
    let woken =
      check_sleepers_none (record s { sched_tick_count = u64 (s.sched_tick_count + 1) })
        (u64 (s.sched_tick_count + 1)) e in
    elim (Bool-cases (s.current_task == 0)) [
      | inl c ↦ simp woken (simp (c, g))
      | inr c ↦ simp woken (simp (c, g))
    ]

-- When the idle task yields and the queue is empty, the guard stays on, and then no tick of the
-- timer switches, whatever has been queued since: with nobody asleep it only counts.
pub sched_yield-sched_tick :
    (s : Sched) (fuel head : ℕ) (nx pv : ℕ → ℕ)
    → s.run_queue_head ≡ 0
    → s.current_task ≡ s.idle_task
    → s.sleep_list ≡ []
    → (s' : Sched) × (sched_yield fuel s ≡ some s')
      × (sched_tick fuel (record s' { run_queue_head = head; next = nx; prev = pv })
          ≡ some (record s' {
            run_queue_head = head;
            next = nx;
            prev = pv;
            sched_tick_count = u64 (s'.sched_tick_count + 1);
          }))
unfolding sched_yield reschedule sched_pick_next sched_do_switch
sched_yield-sched_tick s fuel head nx pv empty idle awake = (
  record s { in_sched = true },
  simp (empty, ==-eq_of s.idle_task s.current_task (sym idle)),
  sched_tick_guarded (record s { in_sched = true; run_queue_head = head; next = nx; prev = pv })
      fuel refl awake,
)
