-- ===== src/Kernel/Task/Root.antt =====
-- src/kernel/main.c: what `task_init_root` promises.
use yabro_os.Base.{ℕ, ◌≡◌, ◌≢◌, refl, inl, inr, true, false, ◌==◌, pos, arith, Bool-cases, ne→==}
use yabro_os.Kernel.Task.{Task, running, task_init_root}

-- The tasks `ts` are the tasks `tasks` with task 0 in use: they are the same if it was, and else it
-- runs now as the process 1, with the signals it had.
pub record RootReady (tasks ts : ℕ → Task) : Type 0 where
  pub kept : (tasks 0).used ≡ true → ts ≡ tasks
  pub others : (j : ℕ) → 0 ≢ j → ts j ≡ tasks j
  pub root : (ts 0).used ≡ true
  pub fresh :
      (tasks 0).used ≡ false
      → ((ts 0).state ≡ running) × ((ts 0).pid ≡ pos 1) × ((ts 0).tgid ≡ pos 1)
  pub pending : (ts 0).sig_pending ≡ (tasks 0).sig_pending
  pub masks : (ts 0).sig_blocked ≡ (tasks 0).sig_blocked

module _ (tasks : ℕ → Task) where
  pub task_init_root-RootReady : RootReady tasks (task_init_root tasks)
  unfolding task_init_root
  task_init_root-RootReady = elim (Bool-cases (tasks 0).used) [
    | inl e ↦ rw e (record {
      kept = λ u. refl;
      others = λ j ne. refl;
      root = e;
      fresh = λ u. absurd (ground (arith, e, u));
      pending = refl;
      masks = refl;
    })
    | inr e ↦ rw e (record {
      kept = λ u. absurd (ground (arith, e, u));
      others = λ j ne. rw (ne→== 0 j ne) refl;
      root = refl;
      fresh = λ u. (refl, refl, refl);
      pending = refl;
      masks = refl;
    })
  ]

  -- The frame that a handler returns to is kept.
  pub init_root-saved :
      (i : ℕ)
      → ((task_init_root tasks i).sig_active ≡ (tasks i).sig_active)
        × ((task_init_root tasks i).sig_saved_valid ≡ (tasks i).sig_saved_valid)
        × ((task_init_root tasks i).sig_saved_frame ≡ (tasks i).sig_saved_frame)
  unfolding task_init_root
  init_root-saved i = elim (Bool-cases (tasks 0).used) [
    | inl e ↦ rw e (refl, refl, refl)
    | inr e ↦ rw e (elim (Bool-cases (0 == i)) [
      | inl z ↦ let z' : i ≡ 0 = ground (arith, z) in rw z' (refl, refl, refl)
      | inr n ↦ rw n (refl, refl, refl)
    ])
  ]

  -- A task in use is kept.
  pub init_root_used : (i : ℕ) → (tasks i).used ≡ true → task_init_root tasks i ≡ tasks i
  unfolding task_init_root
  init_root_used i u = elim (Bool-cases (tasks 0).used) [
    | inl e ↦ rw e refl
    | inr e ↦ rw e (elim (Bool-cases (0 == i)) [
      | inl z ↦
          let z' : i ≡ 0 = ground (arith, z) in
          let u' : (tasks 0).used ≡ true = rw (← z') u in absurd (ground (arith, e, u'))
      | inr n ↦ rw n refl
    ])
  ]
