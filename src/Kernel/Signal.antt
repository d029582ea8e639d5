-- ===== src/Kernel/Signal.antt =====
-- src/kernel/main.c: signals, from being sent to the return of their handler.
pub mod Next
pub mod Pending
pub mod Send
pub mod Deliver
pub mod Queue
pub mod Tests
use yabro_os.Base.{
  ℕ, zero, suc, ◌+◌, ◌-◌, ◌*◌, ◌/◌, ◌%◌, Bool, true, false, ◌&&◌, ◌||◌, not, Option, none, some,
  ltb, leb, ◌==◌, if◌then◌else◌, has, set_flag, clear_flag, update, Code, ok, err, ℤ, pos, negsuc,
  ◌==ℤ◌, is_positive,
}
use yabro_os.Pmm.State.{word_mod}
use yabro_os.Vmm.Machine.{Machine}
use yabro_os.Kernel.Mmap.Gap.{user_limit}
use yabro_os.Kernel.Task.{
  Task, TaskState, runnable, blocked, running, unused, zombie, Frame, Action, max_tasks,
  task_init_root,
}
use yabro_os.Kernel.UserCopy.{user_range_ok, user_copy_to, le_bytes}

abbrev pub sigint : ℕ
sigint = 2

abbrev pub sigchld : ℕ
sigchld = 17

abbrev pub sigwinch : ℕ
sigwinch = 28

abbrev pub sig_dfl : ℕ
sig_dfl = 0

abbrev pub sig_ign : ℕ
sig_ign = 1

-- `s>0&&s<=64`
abbrev pub sig_valid : ℤ → Bool
sig_valid (pos s) = ltb 0 s && leb s 64
sig_valid (negsuc s) = false

-- The number of the bit of `sig_bit`.
abbrev pub sig_bit : ℕ → ℕ
sig_bit s = (s - 1) % 64

abbrev pub sig_word : ℕ → ℕ
sig_word s = (s - 1) / 64

-- `t->sig_pending[sig_word(s)]|=sig_bit(s)`
unfoldable pub pend : Task → ℕ → Task
pend t s = record t {
  sig_pending =
      update t.sig_pending (sig_word s) (set_flag (sig_bit s) (t.sig_pending (sig_word s)));
}

unfoldable pub sig_pending_set : Task → ℤ → Code × Task
sig_pending_set t (negsuc s) = (err 22, t)
sig_pending_set t (pos s) = if sig_valid (pos s) then (ok, pend t s) else (err 22, t)

unfoldable pub sig_is_pending : Task → ℕ → Bool
sig_is_pending t s = has (sig_bit s) (t.sig_pending (sig_word s))

unfoldable pub sig_is_blocked : Task → ℕ → Bool
sig_is_blocked t s = has (sig_bit s) (t.sig_blocked (sig_word s))

unfoldable pub sig_clear_pending : Task → ℕ → Task
sig_clear_pending t s = record t {
  sig_pending =
      update t.sig_pending (sig_word s) (clear_flag (sig_bit s) (t.sig_pending (sig_word s)));
}

abbrev pub is_deliverable : Task → ℕ → Bool
is_deliverable t s = sig_is_pending t s && not (sig_is_blocked t s)

-- The first index from `i` on, of `left` many, that passes the test.
unfoldable pub first_from : (ℕ → Bool) → ℕ → ℕ → Option ℕ
first_from test zero i = none
first_from test (suc left) i =
    let rest = first_from test left (i + 1) in if test i then some i else rest

-- `none` is the return of 0.
unfoldable pub sig_next_deliverable : Task → Option ℕ
sig_next_deliverable t = first_from (is_deliverable t) 64 1

-- The test of the loop of `sys_kill`.
unfoldable pub kill_target : (ℕ → Task) → ℕ → ℤ → ℕ → Bool
kill_target tasks current_task pid i =
    let t = tasks i in
    t.used
    && (is_positive pid && (t.pid ==ℤ pid || t.tgid ==ℤ pid)
        || pid ==ℤ pos 0 && t.tgid ==ℤ (tasks current_task).tgid)

-- `if(sig==0)return 0;return sig_pending_set(&tasks[i],sig);`, or -ESRCH for no task.
unfoldable pub send_to : (ℕ → Task) → ℤ → Option ℕ → Code × (ℕ → Task)
send_to tasks sig none = (err 3, tasks)
send_to tasks sig (some i) =
    let sent = sig_pending_set (tasks i) sig in
    if sig ==ℤ pos 0 then (ok, tasks) else (sent.0, update tasks i sent.1)

unfoldable pub sys_kill : (ℕ → Task) → ℕ → ℤ → ℤ → Code × (ℕ → Task)
sys_kill tasks current_task pid sig =
    let ts = task_init_root tasks in
    if not (sig_valid sig) && not (sig ==ℤ pos 0)
    then (err 22, ts)
    else send_to ts sig (first_from (kill_target ts current_task pid) max_tasks 0)

unfoldable pub tgkill_target : (ℕ → Task) → ℤ → ℤ → ℕ → Bool
tgkill_target tasks tgid tid i = (tasks i).used && (tasks i).tgid ==ℤ tgid && (tasks i).pid ==ℤ tid

unfoldable pub sys_tgkill : (ℕ → Task) → ℤ → ℤ → ℤ → Code × (ℕ → Task)
sys_tgkill tasks tgid tid sig =
    let ts = task_init_root tasks in
    if not (sig_valid sig) && not (sig ==ℤ pos 0)
    then (err 22, ts)
    else send_to ts sig (first_from (tgkill_target ts tgid tid) max_tasks 0)

-- The state that `deliver_pending_signal_to_task` works on: the task, the frame of its system call
-- and the machine.
pub record Delivery : Type 0 where
  pub task : Task
  pub frame : Frame
  pub machine : Machine

abbrev pub with_task : Delivery → Task → Delivery
with_task d t = record d { task = t }

-- From `t->sig_saved_frame=*f` on: the call of the handler `h`, that returns to `rest`.
unfoldable pub enter_handler : ℕ → ℕ → ℕ → ℕ → Delivery → Delivery
enter_handler syscall_user_cr3 sig h rest d =
    let t = record d.task {
      sig_saved_frame = d.frame;
      sig_saved_valid = true;
      sig_active = true;
    } in
    let copied = user_copy_to syscall_user_cr3 (d.frame.user_rsp - 8) (le_bytes 8 rest) d.machine in
    elim copied.0 [
      | err _ ↦ record {
        task = record t { sig_saved_valid = false; sig_active = false };
        frame = d.frame;
        machine = copied.1;
      }
      | ok ↦ record {
        task = sig_clear_pending t sig;
        frame = record d.frame {
          user_rsp = d.frame.user_rsp - 8;
          user_rip = h;
          rdi = sig;
          rax = 0;
        };
        machine = copied.1;
      }
    ]

-- The default action: the task ends.
unfoldable pub end_by_signal : Task → ℕ → Task
end_by_signal t sig =
    let t1 = if sig == sigint then t else sig_clear_pending t sig in
    record t1 { exit_status = 128 + sig; state = zombie }

-- For the signal `sig` that is to be delivered.
unfoldable pub deliver_signal : ℕ → ℕ → Delivery → Delivery
deliver_signal syscall_user_cr3 sig d =
    let t = d.task in
    let h = (t.sig_actions sig).sa_handler in
    let rest = (t.sig_actions sig).sa_restorer in
    let rsp = d.frame.user_rsp in
    if h == sig_ign
    then with_task d (sig_clear_pending t sig)
    else (if h == sig_dfl && (sig == sigchld || sig == sigwinch)
        then with_task d (sig_clear_pending t sig)
        else (if h == sig_dfl || leb user_limit h
            then with_task d (end_by_signal t sig)
            else if rest == 0
            then d
            else if ltb rsp 8 || not (user_range_ok d.machine (rsp - 8) 8 true)
            then d
            else enter_handler syscall_user_cr3 sig h rest d))

unfoldable pub deliver_pending_signal_to_task : ℕ → Delivery → Delivery
deliver_pending_signal_to_task syscall_user_cr3 d =
    if d.task.sig_active then d else elim (sig_next_deliverable d.task) [
      | none ↦ d
      | some sig ↦ deliver_signal syscall_user_cr3 sig d
    ]

-- The tasks and the frame after `sys_rt_sigreturn`.
unfoldable pub sys_rt_sigreturn : (ℕ → Task) → ℕ → Frame → Code × (ℕ → Task) × Frame
sys_rt_sigreturn tasks current_task f =
    let ts = task_init_root tasks in
    let t = ts current_task in
    if not t.sig_active || not t.sig_saved_valid then (err 22, ts, f) else (
      ok,
      update ts current_task (record t { sig_saved_valid = false; sig_active = false }),
      t.sig_saved_frame,
    )
