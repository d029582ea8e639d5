-- ===== src/Kernel/Tty/Canon.antt =====
-- src/kernel/main.c: input to a pseudo-terminal, with line editing, flow control and signals.
use yabro_os.Base.{
  ℕ, ◌+◌, ◌-◌, Bool, true, false, ◌&&◌, ◌||◌, not, Option, none, some, List, [], ◌∷◌, leb, ◌==◌,
  if◌then◌else◌, has, pos, ◌==ℤ◌, is_positive, update, for_range, Code, ok, err,
}
use yabro_os.Kernel.Ring.{pty_cap, pty_ring_write}
use yabro_os.Kernel.Task.{Task, max_tasks}
use yabro_os.Kernel.Signal.{sigint}
use yabro_os.Kernel.Signal.Queue.{tty_queue_signal}
use yabro_os.Kernel.Tty.{
  Pty, tty_cc_match, tty_iflag, tty_lflag, icanon, echo, isig, inlcr, igncr, icrnl, ixany, ixon,
  echoe, echok, noflsh, echoctl, vintr, vquit, verase, vkill, veof, vstart, vstop, vsusp, sigquit,
  sigtstp,
}
use yabro_os.Kernel.Tty.Output.{pty_output_write, pty_echo_char, pty_flush_input, pty_flush_output}

-- The test of the loop of `tty_pgrp_signal`.
unfoldable pub in_group : Pty → Task → Bool
in_group p t =
    t.used && t.pgrp ==ℤ p.fg_pgrp && (not (is_positive p.session) || t.session ==ℤ p.session)

-- One round of the loop, with `sent`.
unfoldable pub signal_group_task : Pty → ℕ → ℕ → ℕ × (ℕ → Task) → ℕ × (ℕ → Task)
signal_group_task p sig i (sent, tasks) =
    if in_group p (tasks i)
    then (sent + 1, update tasks i (tty_queue_signal (tasks i) (pos sig)))
    else (sent, tasks)

unfoldable pub tty_pgrp_signal : Pty → ℕ → (ℕ → Task) → Code × (ℕ → Task)
tty_pgrp_signal p sig tasks =
    let after = for_range max_tasks 0 (signal_group_task p sig) (0, tasks) in
    if p.fg_pgrp ==ℤ pos 0 then (err 3, tasks) else (if after.0 == 0 then err 3 else ok, after.1)

-- What the loop of `pty_canon_feed` works on.
pub record Feed : Type 0 where
  pub pty : Pty
  pub tasks : ℕ → Task

abbrev pub with_pty : Feed → Pty → Feed
with_pty s p = record s { pty = p }

-- The byte after the translation of carriage returns, or `none` for one that is dropped.
unfoldable pub translated : ℕ → ℕ → Option ℕ
translated iflag c =
    if c == 13
    then (if has igncr iflag then none else if has icrnl iflag then some 10 else some c)
    else if c == 10 && has inlcr iflag
    then some 13
    else some c

-- The signal of a control character, or 0.
unfoldable pub signal_of : (ℕ → ℕ) → ℕ → ℕ
signal_of t c =
    if tty_cc_match t vintr c
    then sigint
    else if tty_cc_match t vquit c
    then sigquit
    else if tty_cc_match t vsusp c
    then sigtstp
    else 0

abbrev pub nl_if : Bool → Pty → Pty
nl_if test p = if test then (pty_output_write p (10 ∷ [])).1 else p

-- `if(sig){...}`
unfoldable pub feed_signal : ℕ → ℕ → ℕ → Feed → Feed
feed_signal lflag sig c s =
    let flushed = record (pty_flush_output (pty_flush_input s.pty)) { output_stopped = false } in
    let p = if has noflsh lflag then s.pty else flushed in
    let echoed = pty_echo_char p c lflag in
    let sent = tty_pgrp_signal echoed sig s.tasks in
    record { pty = nl_if (has echo lflag && has echoctl lflag) echoed; tasks = sent.1 }

abbrev pub put_canon : Pty → ℕ → Pty
put_canon p c = record p { canon = update p.canon p.canon_count c; canon_count = p.canon_count + 1 }

-- The character VERASE in canonical mode.
unfoldable pub feed_erase : ℕ → ℕ → Pty → Pty
feed_erase lflag c p =
    let shorter = record p { canon_count = p.canon_count - 1 } in
    if not (p.canon_count == 0)
    then (if has echo lflag
        then (if has echoe lflag
            then (pty_output_write shorter (8 ∷ 32 ∷ 8 ∷ [])).1
            else pty_echo_char shorter c lflag)
        else shorter)
    else if has echo lflag
    then pty_echo_char p c lflag
    else p

-- The character VKILL in canonical mode.
unfoldable pub feed_kill : ℕ → ℕ → Pty → Pty
feed_kill lflag c p =
    let cleared = record p { canon_count = 0 } in
    if has echok lflag
    then (pty_output_write cleared (10 ∷ [])).1
    else if has echo lflag
    then pty_echo_char cleared c lflag
    else cleared

-- `if(lflag&ICANON){...}`; `none` is the return before the byte is taken.
unfoldable pub feed_canonical : ℕ → ℕ → Pty → Option Pty
feed_canonical lflag c p =
    if tty_cc_match p.termios verase c
    then some (feed_erase lflag c p)
    else (if tty_cc_match p.termios vkill c
        then some (feed_kill lflag c p)
        else (if tty_cc_match p.termios veof c
            then (if leb pty_cap p.canon_count then none else some (put_canon p c))
            else if leb pty_cap p.canon_count
            then none
            else some (pty_echo_char (put_canon p c) c lflag)))

-- The `else` of it.
unfoldable pub feed_raw : ℕ → ℕ → Pty → Option Pty
feed_raw lflag c p =
    let written = pty_ring_write p.m2s (c ∷ []) in
    if leb pty_cap p.m2s.count
    then none
    else some (pty_echo_char (record p { m2s = written.1 }) c lflag)

-- From `if(lflag&ISIG)` on. The Boolean is false for a return from the function.
unfoldable pub feed_taken : ℕ → ℕ → Feed → Bool × Feed
feed_taken lflag c s =
    let sig = if has isig lflag then signal_of s.pty.termios c else 0 in
    let next = if has icanon lflag then feed_canonical lflag c s.pty else feed_raw lflag c s.pty in
    if not (sig == 0)
    then (true, feed_signal lflag sig c s)
    else elim next [ none ↦ (false, s) | some p ↦ (true, with_pty s p) ]

-- `task_wake_io_waiters` looks at the descriptors that tasks wait for, and is left open.
module _ (task_wake_io_waiters : Pty → (ℕ → Task) → ℕ → Task) where
  unfoldable pub start_output : Feed → Feed
  start_output s =
      let p = record s.pty { output_stopped = false } in
      record { pty = p; tasks = task_wake_io_waiters p s.tasks }

  -- From `if(iflag&IXON)` on.
  unfoldable pub feed_flow : ℕ → ℕ → ℕ → Feed → Bool × Feed
  feed_flow iflag lflag c s =
      let t = s.pty.termios in
      let s' = if s.pty.output_stopped && has ixany iflag then start_output s else s in
      if has ixon iflag
      then (if tty_cc_match t vstop c
          then (true, with_pty s (record s.pty { output_stopped = true }))
          else if tty_cc_match t vstart c
          then (true, start_output s)
          else feed_taken lflag c s')
      else feed_taken lflag c s

  -- One round of the loop.
  unfoldable pub feed_byte : ℕ → ℕ → ℕ → Feed → Bool × Feed
  feed_byte iflag lflag c s = elim (translated iflag c) [
    | none ↦ (true, s)
    | some c' ↦ feed_flow iflag lflag c' s
  ]

  -- The bytes left, the number of those taken.
  unfoldable pub feed_loop : ℕ → ℕ → List ℕ → ℕ → Feed → ℕ × Feed
  feed_loop iflag lflag [] i s = (i, s)
  feed_loop iflag lflag (c ∷ cs) i s =
      let r = feed_byte iflag lflag c s in
      let rest = feed_loop iflag lflag cs (i + 1) r.1 in if r.0 then rest else (i, r.1)

  unfoldable pub pty_canon_feed : List ℕ → Feed → ℕ × Feed
  pty_canon_feed src s = feed_loop (tty_iflag s.pty.termios) (tty_lflag s.pty.termios) src 0 s
