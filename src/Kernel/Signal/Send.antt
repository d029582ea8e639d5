-- ===== src/Kernel/Signal/Send.antt =====
-- src/kernel/main.c: what sending a signal does to the tasks.
use yabro_os.Base.{
  zero, suc, ==ℤ→eq, ==ℤ_self, Code, ℕ, ◌<◌, ◌≤◌, ◌≡◌, ◌≢◌, refl, ◌⊎◌, inl, inr, true, false, ◌&&◌,
  ◌||◌, not, some, ◌==◌, if◌then◌else◌, arith, Bool-cases, ok, err, ℤ, pos, negsuc, ◌==ℤ◌,
}
use yabro_os.Kernel.Task.{Task, max_tasks, task_init_root}
use yabro_os.Kernel.Task.Root.{RootReady, task_init_root-RootReady}
use yabro_os.Kernel.Signal.{
  first_from, sig_valid, pend, sig_pending_set, kill_target, send_to, sys_kill,
}
use yabro_os.Kernel.Signal.Next.{first_from_lem}
use yabro_os.Kernel.Signal.Pending.{listed, listed-pend}

-- Task `i` has the signal `sig` pending besides what it had; the other tasks are as before.
pub record Sent (tasks tasks' : ℕ → Task) (i : ℕ) (sig : ℤ) : Type 0 where
  pub pending :
      (s : ℕ)
      → 1 ≤ s
      → s ≤ 64
      → listed (tasks' i) s ≡ (if sig ==ℤ pos s then true else listed (tasks i) s)
  pub same_blocked : (w : ℕ) → (tasks' i).sig_blocked w ≡ (tasks i).sig_blocked w
  pub others : (j : ℕ) → i ≢ j → tasks' j ≡ tasks j

send-Sent :
    (tasks : ℕ → Task) (i : ℕ) (sig : ℤ)
    → (sig_valid sig || sig ==ℤ pos 0) ≡ true
    → let (c, tasks') = send_to tasks sig (some i) in (c ≡ ok) × Sent tasks tasks' i sig
unfolding send_to sig_pending_set pend
send-Sent tasks i (negsuc s) v = absurd (ground arith)
send-Sent tasks i (pos s) v = elim (Bool-cases (s == 0)) [
  | inl e ↦ rw e (
    refl,
    record { pending = λ j lo hi. ground arith; same_blocked = λ w. refl; others = λ j ne. refl },
  )
  | inr e ↦
      let v' : sig_valid (pos s) ≡ true = ground arith in
      let self : (i == i) ≡ true = ground arith in
      rw (e, v')
        (
          refl,
          record {
            pending =
                λ j lo hi. rw self (listed-pend (tasks i) s j (ground arith) (ground arith) lo hi);
            same_blocked = λ w. rw self refl;
            others = λ j ne. ground arith;
          },
        )
]

-- A signal number that is accepted: 0 to 64.
pub IsNumber : ℤ → Type 0
IsNumber sig = (s : ℕ) × (sig ≡ pos s) × (s ≤ 64)

IsNumber-valid : (sig : ℤ) → (sig_valid sig || sig ==ℤ pos 0) ≡ true → IsNumber sig
unfolding IsNumber
IsNumber-valid (pos s) h = (s, refl, ground arith)
IsNumber-valid (negsuc s) h = absurd (ground arith)

valid-IsNumber : (sig : ℤ) → IsNumber sig → (sig_valid sig || sig ==ℤ pos 0) ≡ true
unfolding IsNumber
valid-IsNumber sig (s, e, le) = rw e (ground arith)

-- The process number `pid` addresses task `i`: a number above 0 its process or its group of
-- threads, the number 0 the group of the current task.
pub Addressed : (ℕ → Task) → ℕ → ℤ → ℕ → Type 0
Addressed ts current_task pid i =
    ((ts i).used ≡ true)
    × (((k : ℕ) × (pid ≡ pos (suc k)) × (((ts i).pid ≡ pid) ⊎ ((ts i).tgid ≡ pid)))
        ⊎ ((pid ≡ pos 0) × ((ts i).tgid ≡ (ts current_task).tgid)))

module _ (ts : ℕ → Task) (current_task : ℕ) where
  kill_target-Addressed :
      (pid : ℤ) (i : ℕ) → kill_target ts current_task pid i ≡ true → Addressed ts current_task pid i
  unfolding kill_target Addressed
  kill_target-Addressed (negsuc k) i h = absurd (ground arith)
  kill_target-Addressed (pos zero) i h =
      (ground arith, inr (refl, ==ℤ→eq (ts i).tgid (ts current_task).tgid (ground arith)))
  kill_target-Addressed (pos (suc k)) i h = elim (Bool-cases ((ts i).pid ==ℤ pos (suc k))) [
    | inl e ↦ (ground arith, inl (k, refl, inl (==ℤ→eq (ts i).pid (pos (suc k)) e)))
    | inr e ↦
        (ground arith, inl (k, refl, inr (==ℤ→eq (ts i).tgid (pos (suc k)) (ground (arith, e)))))
  ]

  Addressed-kill_target :
      (pid : ℤ) (i : ℕ) → Addressed ts current_task pid i → kill_target ts current_task pid i ≡ true
  unfolding kill_target Addressed
  Addressed-kill_target pid i (u, inl (k, e, inl p)) =
      let self = ==ℤ_self (pos (suc k)) in rw (u, p, e, self) (ground arith)
  Addressed-kill_target pid i (u, inl (k, e, inr p)) =
      let self = ==ℤ_self (pos (suc k)) in rw (u, p, e, self) (ground arith)
  Addressed-kill_target pid i (u, inr (e, p)) =
      let self = ==ℤ_self (ts current_task).tgid in rw (u, p, e, self) (ground arith)

  not-Addressed :
      (pid : ℤ) (i : ℕ)
      → kill_target ts current_task pid i ≡ false
      → ¬ Addressed ts current_task pid i
  not-Addressed pid i f a = let t = Addressed-kill_target pid i a in absurd (ground (arith, f, t))

-- The three results of `sys_kill` on the tasks `ts`.
pub KillResult : (ℕ → Task) → ℕ → ℤ → ℤ → Code → (ℕ → Task) → Type 0
KillResult ts current_task pid sig c tasks' =
    ((c ≡ err 22) × (¬ IsNumber sig) × (tasks' ≡ ts))
    ⊎ ((c ≡ err 3)
        × (tasks' ≡ ts)
        × IsNumber sig
        × ((j : ℕ) → j < 64 → ¬ Addressed ts current_task pid j))
    ⊎ ((i : ℕ) × (c ≡ ok)
        × IsNumber sig
        × (i < 64)
        × Addressed ts current_task pid i
        × ((j : ℕ) → j < i → ¬ Addressed ts current_task pid j)
        × Sent ts tasks' i sig)

kill_result :
    (ts : ℕ → Task) (current_task : ℕ) (pid sig : ℤ)
    → let (c, tasks') =
        if not (sig_valid sig) && not (sig ==ℤ pos 0)
        then (err 22, ts)
        else send_to ts sig (first_from (kill_target ts current_task pid) max_tasks 0) in
      KillResult ts current_task pid sig c tasks'
unfolding send_to KillResult
kill_result ts current_task pid sig = elim (Bool-cases (sig_valid sig || sig ==ℤ pos 0)) [
  | inr bad ↦
      let e : (not (sig_valid sig) && not (sig ==ℤ pos 0)) ≡ true = ground arith in
      rw e (inl (refl, λ n. let t = valid-IsNumber sig n in absurd (ground (arith, bad, t)), refl))
  | inl good ↦
      let e : (not (sig_valid sig) && not (sig ==ℤ pos 0)) ≡ false = ground arith in
      let number = IsNumber-valid sig good in
      rw e (elim (first_from_lem (kill_target ts current_task pid) max_tasks 0) [
        | inl (n, f) ↦ rw n (
            inr (
              inl (
                refl,
                refl,
                number,
                λ j lt. not-Addressed ts current_task pid j (f j (omega arith) (omega arith)),
              )))
        | inr (i, y, lo, hi, t, f) ↦
            let (c, sent) = send-Sent ts i sig good in
            rw y (
              inr (
                inr (
                  i,
                  c,
                  number,
                  omega arith,
                  kill_target-Addressed ts current_task pid i t,
                  λ j lt. not-Addressed ts current_task pid j (f j (omega arith) lt),
                  sent,
                )))
      ])
]

-- `sys_kill` first puts task 0 in use as the process 1 if it was not, and leaves the other tasks
-- and its signals as they were. Then it fails with -EINVAL for a number that is none of 0 to 64, and
-- with -ESRCH when no task is addressed, and changes nothing more; else it returns 0 and the signal
-- is pending in the first task that is addressed, besides those that were (the number 0 adds none),
-- and the other tasks are as before.
pub sys_kill-Sent :
    (tasks : ℕ → Task) (current_task : ℕ) (pid sig : ℤ)
    → let (c, tasks') = sys_kill tasks current_task pid sig in
      (ts : ℕ → Task) × RootReady tasks ts × KillResult ts current_task pid sig c tasks'
unfolding sys_kill
sys_kill-Sent tasks current_task pid sig = (
  task_init_root tasks,
  task_init_root-RootReady tasks,
  kill_result (task_init_root tasks) current_task pid sig,
)
