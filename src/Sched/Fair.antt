-- ===== src/Sched/Fair.antt =====
-- Every queued task gets its turn.
use dev_os.Prelude.{
  ℕ, zero, suc, ◌≤◌, ◌≡◌, ◌≢◌, sym, arith, Option, some, List, [], ◌∷◌, ◌++◌, length, subst,
  length-append, append_assoc,
}
use dev_os.Sched.{Sched, ◌>>=◌, sched_yield}
use dev_os.Sched.Queue.{Absent}
use dev_os.Sched.Switch.{IsRunning, sched_yield-Rotates}

-- `n` calls of `sched_yield` in a row, each by the task that then runs.
unfoldable pub yields : ℕ → ℕ → Sched → Option Sched
yields fuel zero s = some s
yields fuel (suc n) s = sched_yield fuel s >>= yields fuel n

Absent-same :
    (i i' c c' : ℕ) (us : List ℕ) → i' ≡ i → c' ≡ c → Absent i (c ∷ us) → Absent i' (c' ∷ us)
Absent-same i i' c c' us ei ec h =
    subst (λ (j : ℕ). (j ≢ c') × Absent j us) (sym ei)
      (subst (λ (d : ℕ). (i ≢ d) × Absent i us) (sym ec) h)

-- The task `x` runs, after some calls of `sched_yield`.
abbrev pub Reaches : Option Sched → ℕ → Type 0
Reaches r x = (s' : Sched) × (r ≡ some s') × (s'.current_task ≡ x)

-- Round robin is fair: with every queued task ready and the idle task not before it, the task in
-- place `n` of the queue runs after exactly `n + 1` calls of `sched_yield`.
pub yields-Reaches :
    (us : List ℕ) (x : ℕ) (zs : List ℕ) (s : Sched) (fuel : ℕ)
    → IsRunning s (us ++ (x ∷ zs))
    → Absent s.idle_task (s.current_task ∷ us)
    → length (us ++ (x ∷ zs)) ≤ fuel
    → Reaches (yields fuel (suc (length us)) s) x
unfolding yields
yields-Reaches [] x zs s fuel r ab h =
    let done = sched_yield-Rotates s x zs fuel r (λ e. ab.0 (sym e)) h in
    (done.0, simp (done.1), done.3.current)
yields-Reaches (u ∷ us) x zs s fuel r ab h =
    let done = sched_yield-Rotates s u (us ++ (x ∷ zs)) fuel r (λ e. ab.0 (sym e)) h in
    let run : IsRunning done.0 (us ++ (x ∷ (zs ++ (s.current_task ∷ [])))) =
      subst (λ (l : List ℕ). IsRunning done.0 l) (append_assoc us (x ∷ zs) (s.current_task ∷ []))
        done.2 in
    let size : length (us ++ (x ∷ (zs ++ (s.current_task ∷ [])))) ≤ fuel =
      subst (λ (l : List ℕ). length l ≤ fuel) (append_assoc us (x ∷ zs) (s.current_task ∷ []))
        (omega (arith, length-append (us ++ (x ∷ zs)) (s.current_task ∷ []), h)) in
    let apart : Absent done.0.idle_task (done.0.current_task ∷ us) =
      Absent-same s.idle_task done.0.idle_task u done.0.current_task us done.3.idle done.3.current
        ab.1 in
    let next = yields-Reaches us x (zs ++ (s.current_task ∷ [])) done.0 fuel run apart size in
    (next.0, simp (done.1) next.1, next.2)
