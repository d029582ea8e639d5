-- ===== src/Kernel/Tty/Bounds.antt =====
-- src/kernel/main.c: the rings and the line of a pseudo-terminal stay within their arrays.
use yabro_os.Base.{
  ℕ, suc, ◌+◌, ◌-◌, ◌≤◌, ◌≡◌, refl, ap, ◌⊎◌, inl, inr, Bool, true, false, ◌&&◌, not, Option, none,
  some, List, [], ◌∷◌, leb, ◌==◌, if◌then◌else◌, arith, has, length, if-both, if-cases,
}
use yabro_os.Kernel.Ring.{Ring, pty_cap}
use yabro_os.Kernel.Ring.Contents.{IsRing}
use yabro_os.Kernel.Ring.Refine.{pty_ring_write-Queue}
use yabro_os.Kernel.Task.{Task}
use yabro_os.Kernel.Tty.{
  Pty, tty_cc_match, icanon, echo, isig, ixon, ixany, echoe, echok, noflsh, echoctl, echonl, verase,
  vkill, veof, vstop, vstart, tty_iflag, tty_lflag,
}
use yabro_os.Kernel.Tty.Output.{pty_output_write, pty_echo_char, pty_flush_input, pty_flush_output}
use yabro_os.Kernel.Tty.Canon.{
  Feed, with_pty, translated, signal_of, feed_signal, put_canon, feed_erase, feed_kill,
  feed_canonical, feed_raw, feed_taken, start_output, feed_flow, feed_byte, feed_loop,
  pty_canon_feed,
}
use yabro_os.Kernel.Tty.Translate.{pty_output_write-OutputDone}

pub record IsPty (p : Pty) : Type 0 where
  pub to_slave : IsRing p.m2s
  pub to_master : IsRing p.s2m
  pub line : p.canon_count ≤ pty_cap

pub output-IsPty : (p : Pty) (src : List ℕ) → IsPty p → IsPty (pty_output_write p src).1
output-IsPty p src v =
    let w = pty_output_write-OutputDone p src v.to_master in
    let same_count : (pty_output_write p src).1.canon_count ≡ p.canon_count =
      ap (λ (q : Pty). q.canon_count) w.rest_same in
    let same_ring : (pty_output_write p src).1.m2s ≡ p.m2s = ap (λ (q : Pty). q.m2s) w.rest_same in
    record { to_slave = rw same_ring v.to_slave; to_master = w.ring; line = rw same_count v.line }

pub echo-IsPty : (p : Pty) (c lflag : ℕ) → IsPty p → IsPty (pty_echo_char p c lflag)
unfolding pty_echo_char
echo-IsPty p c lflag v = if-both IsPty (not p.master_open) v (
    if-both IsPty (not (has echo lflag))
      (if-both IsPty (c == 10 && has echonl lflag) (output-IsPty p (c ∷ []) v) v)
      (if-both IsPty _ (output-IsPty p _ v) (output-IsPty p (c ∷ []) v)))

empty-IsRing : (s : Ring) → IsRing (record s { r = 0; w = 0; count = 0 })
empty-IsRing s = record { read_index = omega arith; full = omega arith; write_index = omega arith }

flush-IsPty :
    (p : Pty)
    → IsPty p
    → IsPty (record (pty_flush_output (pty_flush_input p)) { output_stopped = false })
unfolding pty_flush_output pty_flush_input
flush-IsPty p v = record {
  to_slave = empty-IsRing p.m2s;
  to_master = empty-IsRing p.s2m;
  line = omega arith;
}

feed_signal-IsPty :
    (lflag sig c : ℕ) (s : Feed) → IsPty s.pty → IsPty (feed_signal lflag sig c s).pty
unfolding feed_signal
feed_signal-IsPty lflag sig c s v =
    let flushed = if-both IsPty (has noflsh lflag) v (flush-IsPty s.pty v) in
    let echoed = echo-IsPty _ c lflag flushed in
    if-both IsPty (has echo lflag && has echoctl lflag) (output-IsPty _ (10 ∷ []) echoed) echoed

shorter-IsPty :
    (p : Pty) (n : ℕ) → n ≤ p.canon_count → IsPty p → IsPty (record p { canon_count = n })
shorter-IsPty p n le v = record {
  to_slave = v.to_slave;
  to_master = v.to_master;
  line = omega (arith, v.line);
}

feed_erase-IsPty : (lflag c : ℕ) (p : Pty) → IsPty p → IsPty (feed_erase lflag c p)
unfolding feed_erase
feed_erase-IsPty lflag c p v =
    let shorter = shorter-IsPty p (p.canon_count - 1) (omega arith) v in
    if-both IsPty (not (p.canon_count == 0))
      (if-both IsPty (has echo lflag)
        (if-both IsPty (has echoe lflag) (output-IsPty _ _ shorter) (echo-IsPty _ c lflag shorter))
        shorter)
      (if-both IsPty (has echo lflag) (echo-IsPty p c lflag v) v)

feed_kill-IsPty : (lflag c : ℕ) (p : Pty) → IsPty p → IsPty (feed_kill lflag c p)
unfolding feed_kill
feed_kill-IsPty lflag c p v =
    let cleared = shorter-IsPty p 0 (omega arith) v in
    if-both IsPty (has echok lflag) (output-IsPty _ _ cleared)
      (if-both IsPty (has echo lflag) (echo-IsPty _ c lflag cleared) cleared)

put_canon-IsPty :
    (p : Pty) (c : ℕ) → leb pty_cap p.canon_count ≡ false → IsPty p → IsPty (put_canon p c)
put_canon-IsPty p c room v = record {
  to_slave = v.to_slave;
  to_master = v.to_master;
  line = ground arith;
}

-- There is no room for a byte of input.
pub Full : Pty → Type 0
Full p = (pty_cap ≤ p.canon_count) ⊎ (pty_cap ≤ p.m2s.count)

-- What `none` and `some` say of the terminal.
Fed : Pty → Option Pty → Type 0
Fed p none = Full p
Fed p (some p') = IsPty p'

feed_canonical-Fed : (lflag c : ℕ) (p : Pty) → IsPty p → Fed p (feed_canonical lflag c p)
unfolding feed_canonical Fed Full
feed_canonical-Fed lflag c p v =
    if-both (Fed p) (tty_cc_match p.termios verase c) (feed_erase-IsPty lflag c p v) (
      if-both (Fed p) (tty_cc_match p.termios vkill c) (feed_kill-IsPty lflag c p v) (
        if-both (Fed p) (tty_cc_match p.termios veof c)
          (if-cases (Fed p) (leb pty_cap p.canon_count) (λ f. inl (ground arith))
            (λ room. put_canon-IsPty p c room v))
          (if-cases (Fed p) (leb pty_cap p.canon_count) (λ f. inl (ground arith))
            (λ room. echo-IsPty _ c lflag (put_canon-IsPty p c room v)))))

feed_raw-Fed : (lflag c : ℕ) (p : Pty) → IsPty p → Fed p (feed_raw lflag c p)
unfolding feed_raw Fed Full
feed_raw-Fed lflag c p v =
    let (v', _, _) = pty_ring_write-Queue p.m2s (c ∷ []) v.to_slave in
    if-cases (Fed p) (leb pty_cap p.m2s.count) (λ f. inr (ground arith))
      (λ room.
        echo-IsPty _ c lflag (record { to_slave = v'; to_master = v.to_master; line = v.line }))

-- The outcome of a round: the terminal is well formed, and a round that ends the loop found it
-- full.
Went : Bool × Feed → Type 0
Went r = IsPty r.1.pty × ((r.0 ≡ true) ⊎ Full r.1.pty)

next-Went :
    (s : Feed) (next : Option Pty)
    → IsPty s.pty
    → Fed s.pty next
    → Went (elim next [ none ↦ (false, s) | some p ↦ (true, with_pty s p) ])
unfolding Fed Went
next-Went s none v f = (v, inr f)
next-Went s (some p) v f = (f, inl refl)

feed_taken-Went : (lflag c : ℕ) (s : Feed) → IsPty s.pty → Went (feed_taken lflag c s)
unfolding feed_taken Went
feed_taken-Went lflag c s v =
    let sig = if has isig lflag then signal_of s.pty.termios c else 0 in
    let fed =
      if-both (Fed s.pty) (has icanon lflag) (feed_canonical-Fed lflag c s.pty v)
        (feed_raw-Fed lflag c s.pty v) in
    if-both Went (not (sig == 0)) (feed_signal-IsPty lflag sig c s v, inl refl)
      (next-Went s _ v fed)

stopped-IsPty : (p : Pty) (b : Bool) → IsPty p → IsPty (record p { output_stopped = b })
stopped-IsPty p b v = record { to_slave = v.to_slave; to_master = v.to_master; line = v.line }

module _ (wake : Pty → (ℕ → Task) → ℕ → Task) where
  start-IsPty : (s : Feed) → IsPty s.pty → IsPty (start_output wake s).pty
  unfolding start_output
  start-IsPty s v = stopped-IsPty s.pty false v

  feed_flow-Went :
      (iflag lflag c : ℕ) (s : Feed) → IsPty s.pty → Went (feed_flow wake iflag lflag c s)
  unfolding feed_flow Went
  feed_flow-Went iflag lflag c s v =
      let started =
        if-both (λ (q : Feed). IsPty q.pty) (s.pty.output_stopped && has ixany iflag)
          (start-IsPty s v) v in
      if-both Went (has ixon iflag)
        (if-both Went (tty_cc_match s.pty.termios vstop c) (stopped-IsPty s.pty true v, inl refl)
          (if-both Went (tty_cc_match s.pty.termios vstart c) (start-IsPty s v, inl refl)
            (feed_taken-Went lflag c _ started)))
        (feed_taken-Went lflag c s v)

  feed_byte-Went :
      (iflag lflag c : ℕ) (s : Feed) → IsPty s.pty → Went (feed_byte wake iflag lflag c s)
  unfolding feed_byte
  feed_byte-Went iflag lflag c s v = go (translated iflag c)
    where
      go :
          (o : Option ℕ)
          → Went (elim o [ none ↦ (true, s) | some c' ↦ feed_flow wake iflag lflag c' s ])
      go none = unfold Went in (v, inl refl)
      go (some c') = feed_flow-Went iflag lflag c' s v

  feed_loop-IsPty :
      (iflag lflag : ℕ) (src : List ℕ) (i : ℕ) (s : Feed)
      → IsPty s.pty
      → let (taken, s') = feed_loop wake iflag lflag src i s in
        IsPty s'.pty × (taken ≤ i + length src) × ((taken ≡ i + length src) ⊎ Full s'.pty)
  unfolding feed_loop Went
  feed_loop-IsPty iflag lflag [] i s v = (v, omega arith, inl (omega arith))
  feed_loop-IsPty iflag lflag (c ∷ cs) i s v =
      let (v', how) = feed_byte-Went iflag lflag c s v in
      let (v2, le, done) =
        feed_loop-IsPty iflag lflag cs (i + 1) (feed_byte wake iflag lflag c s).1 v' in
      if-cases
        (λ (q : ℕ × Feed).
          IsPty q.1.pty
          × (q.0 ≤ i + suc (length cs))
          × ((q.0 ≡ i + suc (length cs)) ⊎ Full q.1.pty))
        (feed_byte wake iflag lflag c s).0
        (λ on.
          (v2, omega (arith, le), elim done [ inl e ↦ inl (omega (arith, e)) | inr f ↦ inr f ]))
        (λ off. (v', omega arith, elim how [ inl e ↦ absurd (ground arith) | inr f ↦ inr f ]))

-- From a terminal with well-formed rings and a line within its array, `pty_canon_feed`, whatever
-- task_wake_io_waiters does to the tasks, leaves such a terminal; it takes no more bytes than there
-- are, and fewer only when the line or the ring to the slave is full.
pub pty_canon_feed-IsPty :
    (task_wake_io_waiters : Pty → (ℕ → Task) → ℕ → Task) (src : List ℕ) (s : Feed)
    → IsPty s.pty
    → let (taken, s') = pty_canon_feed task_wake_io_waiters src s in
      IsPty s'.pty × (taken ≤ length src) × ((taken ≡ length src) ⊎ Full s'.pty)
unfolding pty_canon_feed
pty_canon_feed-IsPty wake src s v =
    let same : 0 + length src ≡ length src = omega arith in
    rw (← same) (feed_loop-IsPty wake (tty_iflag s.pty.termios) (tty_lflag s.pty.termios) src 0 s v)
