-- ===== src/Kernel/Signal/Tests.antt =====
-- A task with a handler for the signal 15, and the theorems about signals at it.
use yabro_os.Base.{
  ℕ, ◌<◌, ◌≤◌, ◌≡◌, refl, ◌⊎◌, true, false, not, none, some, ◌==◌, if◌then◌else◌, arith, has, pos,
}
use yabro_os.Vmm.Machine.{table, addr_of, idx4, idx3, idx2, idx1}
use yabro_os.Vmm.Walk.{
  descend, leaf_table, vmm_user_translate, vmm_cr3_translate_direct, vmm_user_translate_cr3,
  translate_leaf, page_ok, range_loop, vmm_user_range_ok,
}
use yabro_os.Vmm.Map.{vmm_user_cr3}
use yabro_os.Vmm.Tests.{used_space}
use yabro_os.Pmm.State.{
  pmm_phys_to_virt, is_reserved, page_is_reserved_fast, map_test, page_is_allocated,
  page_set_allocated,
}
use yabro_os.Pmm.Alloc.{
  pmm_alloc_page, alloc_regions, alloc_region, next_scan, is_candidate, take_page,
}
use yabro_os.Kernel.Task.{Task, runnable, blocked, Frame, Action}
use yabro_os.Kernel.Task.Root.{RootReady}
use yabro_os.Kernel.UserCopy.{user_copy_to, user_copy_to_cr3, copy_to_loop, writable_page, le_bytes}
use yabro_os.Kernel.Signal.{
  Delivery, sig_is_pending, sig_is_blocked, is_deliverable, sig_next_deliverable, first_from,
  deliver_pending_signal_to_task, deliver_signal, enter_handler, sig_clear_pending, sys_kill,
}
use yabro_os.Kernel.Signal.Pending.{listed}
use yabro_os.Kernel.Signal.Next.{sig_next_deliverable_lem}
use yabro_os.Kernel.Signal.Send.{KillResult, sys_kill-Sent}
use yabro_os.Kernel.Signal.Deliver.{Entered, deliver-Entered}
use yabro_os.Kernel.Signal.Queue.{
  tty_queue_signal, tty_queue_signal_lem, drops, interrupts, minus_eintr,
}

abbrev zero_frame : Frame
zero_frame = record {
  rax = 0;
  rbx = 0;
  rcx = 0;
  rdx = 0;
  rsi = 0;
  rdi = 0;
  rbp = 0;
  r8 = 0;
  r9 = 0;
  r10 = 0;
  r11 = 0;
  r12 = 0;
  r13 = 0;
  r14 = 0;
  r15 = 0;
  user_rip = 0x0040_0010;
  user_rflags = 0x202;
  user_rsp = 0x0040_1108;
  user_cr3 = 0x0200_2000;
}

abbrev handler : Action
handler = record { sa_handler = 0x0040_0100; sa_flags = 0; sa_restorer = 0x0040_0200; sa_mask = 0 }

-- The signals 10 and 15 are pending, 10 is blocked.
abbrev pub one_task : Task
one_task = record {
  used = true;
  state = blocked;
  pid = pos 7;
  tgid = pos 7;
  pgrp = pos 7;
  session = pos 7;
  exit_status = 0;
  futex_addr = 0;
  futex_cr3 = 0;
  futex_deadline_ns = 0;
  pipe_wait_fd = none;
  pipe_wait_buf = 0;
  pipe_wait_count = 0;
  io_wait_kind = 1;
  io_wait_valid = true;
  io_wait_nr = 0;
  io_wait_deadline_ns = 0;
  io_resume_valid = false;
  io_resume_nr = 0;
  wait4_active = false;
  wait4_pid = pos 0;
  wait4_status_ptr = 0;
  ctx_rip = 0x0040_0010;
  ctx_rax = 0;
  sig_pending = λ w. if w == 0 then 0x4200 else 0;
  sig_blocked = λ w. if w == 0 then 0x200 else 0;
  sig_actions = λ s. handler;
  sig_saved_frame = zero_frame;
  sig_saved_valid = false;
  sig_active = false;
}

abbrev two_tasks : ℕ → Task
two_tasks i = if i == 1 then one_task else record one_task { used = i == 2 }

abbrev call : Delivery
call = record { task = one_task; frame = zero_frame; machine = used_space }

sig_next_deliverable_lem_example :
    ((sig_next_deliverable one_task ≡ none)
      × ((s : ℕ) → 1 ≤ s → s ≤ 64 → is_deliverable one_task s ≡ false))
    ⊎ ((sig : ℕ) × (sig_next_deliverable one_task ≡ some sig)
        × (1 ≤ sig)
        × (sig ≤ 64)
        × (is_deliverable one_task sig ≡ true)
        × ((s : ℕ) → 1 ≤ s → s < sig → is_deliverable one_task s ≡ false))
sig_next_deliverable_lem_example = sig_next_deliverable_lem one_task

next_is_15 : sig_next_deliverable one_task ≡ some 15
unfolding sig_next_deliverable first_from sig_is_pending sig_is_blocked has
next_is_15 = refl

sys_kill-Sent_example :
    let (c, tasks') = sys_kill two_tasks 1 (pos 7) (pos 2) in
    (ts : ℕ → Task) × RootReady two_tasks ts × KillResult ts 1 (pos 7) (pos 2) c tasks'
sys_kill-Sent_example = sys_kill-Sent two_tasks 1 (pos 7) (pos 2)

enters : (deliver_pending_signal_to_task 0 call).task.sig_active ≡ true
unfolding deliver_pending_signal_to_task sig_next_deliverable first_from sig_is_pending
    sig_is_blocked has deliver_signal enter_handler sig_clear_pending vmm_user_range_ok range_loop
    page_ok leaf_table descend table addr_of pmm_phys_to_virt idx4 idx3 idx2 idx1 user_copy_to
    user_copy_to_cr3 copy_to_loop writable_page le_bytes vmm_user_translate_cr3 translate_leaf
    vmm_user_cr3 vmm_user_translate vmm_cr3_translate_direct pmm_alloc_page alloc_regions
    alloc_region next_scan is_candidate is_reserved page_is_reserved_fast map_test page_is_allocated
    take_page page_set_allocated
enters = refl

deliver-Entered_example :
    (sig : ℕ) × Entered call (deliver_pending_signal_to_task 0 call) sig
    × ((s : ℕ) → 1 ≤ s → s < sig → is_deliverable one_task s ≡ false)
deliver-Entered_example = deliver-Entered 0 call refl enters

tty_queue_signal_lem_example :
    let t' = tty_queue_signal one_task (pos 2) in
    ((s : ℕ)
      → 1 ≤ s
      → s ≤ 64
      → listed t' s ≡ (if 2 == s then not (drops one_task 2) else listed one_task s))
    × (t'.state ≡ (if interrupts one_task 2 then runnable else blocked))
    × (t'.ctx_rax ≡ (if interrupts one_task 2 then minus_eintr else 0))
tty_queue_signal_lem_example = tty_queue_signal_lem one_task 2 (omega arith) (omega arith)
