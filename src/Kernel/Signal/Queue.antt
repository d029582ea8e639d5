-- ===== src/Kernel/Signal/Queue.antt =====
-- src/kernel/main.c: signals from a terminal, which interrupt a wait.
use yabro_os.Base.{
  refl, ℕ, ◌+◌, ◌-◌, ◌≤◌, ◌≡◌, Bool, true, false, ◌&&◌, ◌||◌, not, Option, none, some, ltb, leb,
  ◌==◌, if◌then◌else◌, arith, ℤ, pos, negsuc, Bool-cases, inl, inr, ◌/◌, ◌%◌, has,
}
use yabro_os.Pmm.State.{word_mod}
use yabro_os.Kernel.Task.{Task, TaskState, unused, runnable, running, blocked, zombie}
use yabro_os.Kernel.Signal.{
  sig_ign, sig_dfl, sigchld, sigwinch, sig_clear_pending, pend, sig_is_blocked,
}
use yabro_os.Kernel.Signal.Pending.{listed, listed-pend, listed-clear}

abbrev pub is_blocked_state : TaskState → Bool
is_blocked_state unused = false
is_blocked_state runnable = false
is_blocked_state running = false
is_blocked_state blocked = true
is_blocked_state zombie = false

-- `(uint64_t)(int64_t)-4`
abbrev pub minus_eintr : ℕ
minus_eintr = word_mod - 4

abbrev pub waits_on_fd : Option ℕ → Bool
waits_on_fd none = false
waits_on_fd (some n) = true

abbrev io_waits : Task → Bool
io_waits t = is_blocked_state t.state && not (t.io_wait_kind == 0) && t.io_wait_valid

-- The chain of tests that ends the wait of the task.
unfoldable pub interrupt : Task → Task
interrupt t =
    if io_waits t
    then record t {
      ctx_rip = if leb t.ctx_rip (word_mod - 3) then t.ctx_rip + 2 else t.ctx_rip;
      ctx_rax = minus_eintr;
      io_wait_kind = 0;
      io_wait_valid = false;
      io_wait_nr = 0;
      io_wait_deadline_ns = 0;
      io_resume_valid = false;
      io_resume_nr = 0;
      state = runnable;
    }
    else (if is_blocked_state t.state && t.wait4_active
        then record t {
          wait4_active = false;
          wait4_pid = negsuc 0;
          wait4_status_ptr = 0;
          ctx_rax = minus_eintr;
          state = runnable;
        }
        else (if is_blocked_state t.state && waits_on_fd t.pipe_wait_fd
            then record t {
              pipe_wait_fd = none;
              pipe_wait_buf = 0;
              pipe_wait_count = 0;
              ctx_rax = minus_eintr;
              state = runnable;
            }
            else (if is_blocked_state t.state && not (t.futex_addr == 0)
                then record t {
                  futex_addr = 0;
                  futex_cr3 = 0;
                  futex_deadline_ns = 0;
                  ctx_rax = minus_eintr;
                  state = runnable;
                }
                else t)))

-- The test by which the signal has no effect on the task.
abbrev is_ignored : Task → ℕ → Bool
is_ignored t sig =
    let handler = (t.sig_actions sig).sa_handler in
    handler == sig_ign || handler == sig_dfl && (sig == sigchld || sig == sigwinch)

unfoldable pub tty_queue_signal : Task → ℤ → Task
tty_queue_signal t (negsuc s) = t
tty_queue_signal t (pos sig) =
    if sig == 0 || ltb 64 sig
    then t
    else (if is_ignored t sig
        then sig_clear_pending t sig
        else if sig_is_blocked t sig
        then pend t sig
        else interrupt (pend t sig))

-- A task that sleeps in a wait: for input or output, for a child, for a pipe or for a futex.
pub waits : Task → Bool
waits t =
    is_blocked_state t.state
    && (not (t.io_wait_kind == 0) && t.io_wait_valid
        || t.wait4_active
        || waits_on_fd t.pipe_wait_fd
        || not (t.futex_addr == 0))

interrupt_lem :
    (t : Task)
    → ((interrupt t).sig_pending ≡ t.sig_pending)
      × ((interrupt t).state ≡ (if waits t then runnable else t.state))
      × ((interrupt t).ctx_rax ≡ (if waits t then minus_eintr else t.ctx_rax))
      × (waits (interrupt t) ≡ false)
unfolding interrupt waits
interrupt_lem t = (ground arith, ground arith, ground arith, ground arith)

-- The task drops the signal: its handler is `SIG_IGN`, 1, or it is `SIG_DFL`, 0, and the signal is
-- `SIGCHLD`, 17, or `SIGWINCH`, 28.
pub drops : Task → ℕ → Bool
drops t sig =
    (t.sig_actions sig).sa_handler == 1
    || (t.sig_actions sig).sa_handler == 0 && (sig == 17 || sig == 28)

-- The bit of the signal is set in the mask of the blocked signals.
pub masked : Task → ℕ → Bool
masked t sig = has (sig - 1) (t.sig_blocked 0)

is_blocked-masked : (t : Task) (sig : ℕ) → 1 ≤ sig → sig ≤ 64 → sig_is_blocked t sig ≡ masked t sig
unfolding sig_is_blocked masked
is_blocked-masked t sig lo hi =
    let word : (sig - 1) / 64 ≡ 0 = omega arith in
    let bit : (sig - 1) % 64 ≡ sig - 1 = omega arith in rw (word, bit) refl

-- Whether the signal ends a wait of the task.
pub interrupts : Task → ℕ → Bool
interrupts t sig = waits t && not (drops t sig) && not (masked t sig)

-- A signal 1 to 64 from a terminal is pending in the task afterwards exactly when the task does not
-- drop it, by the handler 1 or by the handler 0 of the signals 17 and 28, and the other signals are pending as before. The task
-- becomes runnable, its system call returning -EINTR, exactly when it sleeps in a wait and the
-- signal is neither dropped nor in its mask; else its state and the result of its call are as before.
pub tty_queue_signal_lem :
    (t : Task) (sig : ℕ)
    → 1 ≤ sig
    → sig ≤ 64
    → let t' = tty_queue_signal t (pos sig) in
      ((s : ℕ)
        → 1 ≤ s
        → s ≤ 64
        → listed t' s ≡ (if sig == s then not (drops t sig) else listed t s))
      × (t'.state ≡ (if interrupts t sig then runnable else t.state))
      × (t'.ctx_rax ≡ (if interrupts t sig then minus_eintr else t.ctx_rax))
unfolding tty_queue_signal listed waits pend sig_clear_pending interrupts drops
tty_queue_signal_lem t sig lo hi =
    let valid : (sig == 0 || ltb 64 sig) ≡ false = ground arith in
    let (p, st, rax, _) = interrupt_lem (pend t sig) in
    let mask = is_blocked-masked t sig lo hi in
    elim (Bool-cases (drops t sig)) [
      | inl e ↦ rw (valid, e) (λ s l h. listed-clear t sig s lo hi l h, ground arith, ground arith)
      | inr e ↦ elim (Bool-cases (masked t sig)) [
        | inl f ↦
            rw (valid, e, mask, f)
              (λ s l h. listed-pend t sig s lo hi l h, ground arith, ground arith)
        | inr f ↦
            rw (valid, e, mask, f)
              (
                λ s l h. rw p (listed-pend t sig s lo hi l h),
                ground (arith, st),
                ground (arith, rax),
              )
      ]
    ]
