-- ===== src/Kernel/Signal/Deliver.antt =====
-- src/kernel/main.c: the call of a signal handler and the return from it.
use yabro_os.Base.{
  ap, ◌∙◌, ℕ, ◌-◌, ◌<◌, ◌≤◌, ◌≡◌, refl, true, false, ◌==◌, if◌then◌else◌, arith, inl, inr, ok,
  Code-cases,
}
use yabro_os.Kernel.Task.{Frame, Task}
use yabro_os.Kernel.Task.Root.{init_root-saved, init_root_used}
use yabro_os.Kernel.UserCopy.{user_copy_to, le_bytes}
use yabro_os.Kernel.Signal.{
  Delivery, is_deliverable, sig_is_pending, sig_clear_pending, end_by_signal, enter_handler,
  deliver_signal, deliver_pending_signal_to_task, sys_rt_sigreturn,
}
use yabro_os.Kernel.Signal.Pending.{is_pending-clear}
use yabro_os.Kernel.Signal.Next.{sig_next_deliverable_lem}

-- The task and the frame before and after the call of the handler of `sig`.
pub record Entered (d d' : Delivery) (sig : ℕ) : Type 0 where
  pub valid : (1 ≤ sig) × (sig ≤ 64)
  pub was_deliverable : is_deliverable d.task sig ≡ true
  pub handler : d'.frame.user_rip ≡ (d.task.sig_actions sig).sa_handler
  pub argument : d'.frame.rdi ≡ sig
  pub stack : d'.frame.user_rsp ≡ d.frame.user_rsp - 8
  pub pending :
      (s : ℕ)
      → 1 ≤ s
      → s ≤ 64
      → sig_is_pending d'.task s ≡ (if sig == s then false else sig_is_pending d.task s)
  pub returns :
      (tasks : ℕ → Task) (i : ℕ) (f : Frame)
      → tasks i ≡ d'.task
      → let (c, tasks', f') = sys_rt_sigreturn tasks i f in
        (c ≡ ok)
        × (f' ≡ d.frame)
        × ((tasks' i).sig_active ≡ false)
        × ((tasks i).used ≡ true
            → tasks' i ≡ record d'.task { sig_saved_valid = false; sig_active = false })

-- The return from a handler, in any table that has the task.
sigreturn_lem :
    (t : Task) (tasks : ℕ → Task) (i : ℕ) (f : Frame)
    → t.sig_active ≡ true
    → t.sig_saved_valid ≡ true
    → tasks i ≡ t
    → let (c, tasks', f') = sys_rt_sigreturn tasks i f in
      (c ≡ ok)
      × (f' ≡ t.sig_saved_frame)
      × ((tasks' i).sig_active ≡ false)
      × ((tasks i).used ≡ true
          → tasks' i ≡ record t { sig_saved_valid = false; sig_active = false })
unfolding sys_rt_sigreturn
sigreturn_lem t tasks i f act valid at =
    let (a, v, fr) = init_root-saved tasks i in
    let a' = a ∙ ap (λ (x : Task). x.sig_active) at ∙ act in
    let v' = v ∙ ap (λ (x : Task). x.sig_saved_valid) at ∙ valid in
    let self : (i == i) ≡ true = ground arith in
    rw (a', v', self)
      (
        refl,
        fr ∙ ap (λ (x : Task). x.sig_saved_frame) at,
        refl,
        λ u.
            ap (λ (x : Task). record x { sig_saved_valid = false; sig_active = false })
              (init_root_used tasks i u ∙ at),
      )

-- What `enter_handler` makes of a task that runs no handler yet.
enter_handler-Entered :
    (c sig rest : ℕ) (d : Delivery)
    → d.task.sig_active ≡ false
    → (1 ≤ sig) × (sig ≤ 64)
    → is_deliverable d.task sig ≡ true
    → let d' = enter_handler c sig (d.task.sig_actions sig).sa_handler rest d in
      d'.task.sig_active ≡ true → Entered d d' sig
unfolding enter_handler sys_rt_sigreturn sig_is_pending sig_clear_pending
enter_handler-Entered c sig rest d idle v del =
    let copied = user_copy_to c (d.frame.user_rsp - 8) (le_bytes 8 rest) d.machine in
    elim (Code-cases copied.0) [
      | inr (n, e) ↦ rw (enter_handler, e) (λ act. absurd (ground arith))
      | inl e ↦
          rw (enter_handler, e)
            (λ act. record {
              valid = v;
              was_deliverable = del;
              handler = refl;
              argument = refl;
              stack = refl;
              pending = λ s lo hi.
                  is_pending-clear
                    (record d.task {
                      sig_saved_frame = d.frame;
                      sig_saved_valid = true;
                      sig_active = true;
                    })
                    sig s v.0 v.1 lo hi;
              returns = λ tasks i f at. sigreturn_lem _ tasks i f refl refl at;
            })
    ]

entered_only :
    (c sig : ℕ) (d : Delivery)
    → d.task.sig_active ≡ false
    → (deliver_signal c sig d).task.sig_active ≡ true
    → deliver_signal c sig d
      ≡ enter_handler c sig
          (d.task.sig_actions sig).sa_handler
          (d.task.sig_actions sig).sa_restorer
          d
unfolding deliver_signal end_by_signal sig_clear_pending
entered_only c sig d idle act = ground arith

-- When `deliver_pending_signal_to_task` makes a task that runs no handler run one, the signal is 1
-- to 64, was pending and not blocked, and no lower one was; the frame then leads to the handler
-- with the number of the signal and a stack lower by 8; this signal alone is no longer pending; and
-- `sys_rt_sigreturn`, whatever the frame is by then, gives back the frame that the task had.
pub deliver-Entered :
    (syscall_user_cr3 : ℕ) (d : Delivery)
    → d.task.sig_active ≡ false
    → let d' = deliver_pending_signal_to_task syscall_user_cr3 d in
      d'.task.sig_active ≡ true
      → (sig : ℕ) × Entered d d' sig × ((s : ℕ) → 1 ≤ s → s < sig → is_deliverable d.task s ≡ false)
unfolding deliver_pending_signal_to_task
deliver-Entered c d idle = elim (sig_next_deliverable_lem d.task) [
  | inl (e, f) ↦
      let same : deliver_pending_signal_to_task c d ≡ d = simp (idle, e) refl in
      rw same (λ act. absurd (ground arith))
  | inr (sig, e, lo, hi, del, low) ↦
      let same : deliver_pending_signal_to_task c d ≡ deliver_signal c sig d =
        simp (idle, e) refl in
      rw same (λ act.
        let enters = entered_only c sig d idle act in
        let act' : (enter_handler c sig (d.task.sig_actions sig).sa_handler
              (d.task.sig_actions sig).sa_restorer d).task.sig_active
            ≡ true =
          rw (← enters) act in
        (
          sig,
          rw enters (
              enter_handler-Entered c sig (d.task.sig_actions sig).sa_restorer d idle (lo, hi) del
                act'),
          low,
        ))
]
