-- ===== src/Kernel/Task.antt =====
-- src/kernel/main.c: a task, as far as signals, waits and memory are concerned.
pub mod Root
use yabro_os.Base.{ℕ, Bool, true, false, Option, none, ℤ, pos, negsuc, update, if◌then◌else◌}

abbrev pub max_tasks : ℕ
max_tasks = 64

-- `TASK_UNUSED` and the following
pub data TaskState : Type 0 where
  unused runnable running blocked zombie : TaskState

-- `syscall_frame_t`
pub record Frame : Type 0 where
  pub rax : ℕ
  pub rbx : ℕ
  pub rcx : ℕ
  pub rdx : ℕ
  pub rsi : ℕ
  pub rdi : ℕ
  pub rbp : ℕ
  pub r8 : ℕ
  pub r9 : ℕ
  pub r10 : ℕ
  pub r11 : ℕ
  pub r12 : ℕ
  pub r13 : ℕ
  pub r14 : ℕ
  pub r15 : ℕ
  pub user_rip : ℕ
  pub user_rflags : ℕ
  pub user_rsp : ℕ
  pub user_cr3 : ℕ

-- `sigaction_t`
pub record Action : Type 0 where
  pub sa_handler : ℕ
  pub sa_flags : ℕ
  pub sa_restorer : ℕ
  pub sa_mask : ℕ

-- The part of `task_t` that the functions of the children use. `pipe_wait_fd` is `none` for a
-- negative descriptor.
pub record Task : Type 0 where
  pub used : Bool
  pub state : TaskState
  pub pid : ℤ
  pub tgid : ℤ
  pub pgrp : ℤ
  pub session : ℤ
  pub exit_status : ℕ
  pub futex_addr : ℕ
  pub futex_cr3 : ℕ
  pub futex_deadline_ns : ℕ
  pub pipe_wait_fd : Option ℕ
  pub pipe_wait_buf : ℕ
  pub pipe_wait_count : ℕ
  pub io_wait_kind : ℕ
  pub io_wait_valid : Bool
  pub io_wait_nr : ℕ
  pub io_wait_deadline_ns : ℕ
  pub io_resume_valid : Bool
  pub io_resume_nr : ℕ
  pub wait4_active : Bool
  pub wait4_pid : ℤ
  pub wait4_status_ptr : ℕ
  pub ctx_rip : ℕ
  pub ctx_rax : ℕ
  pub sig_pending : ℕ → ℕ
  pub sig_blocked : ℕ → ℕ
  pub sig_actions : ℕ → Action
  pub sig_saved_frame : Frame
  pub sig_saved_valid : Bool
  pub sig_active : Bool

-- `task_init_root`, on the members that a `Task` has here.
unfoldable pub task_init_root : (ℕ → Task) → ℕ → Task
task_init_root tasks =
    if (tasks 0).used
    then tasks
    else update tasks 0 (record (tasks 0) {
      used = true;
      state = running;
      pid = pos 1;
      tgid = pos 1;
      pgrp = pos 1;
      session = pos 1;
      pipe_wait_fd = none;
      pipe_wait_buf = 0;
      pipe_wait_count = 0;
      wait4_active = false;
      wait4_pid = negsuc 0;
      wait4_status_ptr = 0;
      io_wait_kind = 0;
      io_wait_valid = false;
      io_wait_nr = 0;
      io_wait_deadline_ns = 0;
      io_resume_valid = false;
      io_resume_nr = 0;
    })
