-- ===== src/Kernel/Input/Order.antt =====
-- src/kernel/main.c: readers see the events in the order in which they happened.
use yabro_os.Base.{
  ℕ, ◌+◌, ◌%◌, ◌<◌, ◌≤◌, ◌≡◌, refl, ap, ◌∙◌, ◌⊎◌, inl, inr, true, false, Option, none, some, ltb,
  ◌==◌, if◌then◌else◌, update, arith, Bool-cases, Option-cases,
}
use yabro_os.Pmm.State.{word_mod}
use yabro_os.Kernel.Input.{
  Event, EventQueue, input_event_cap, append_event, Reader, input_fd_seq, input_fd_seq_set,
  oldest_seq, fd_sync, fd_ready, pop_event_fd,
}

-- The queue holds the last events of all that happened, which `log` numbers from 0 on.
pub record Logged (log : ℕ → Event) (q : EventQueue) : Type 0 where
  pub held :
      (i : ℕ) → i < q.seq → q.seq ≤ i + input_event_cap → q.queue (i % input_event_cap) ≡ log i

push_slot :
    (log : ℕ → Event) (q : EventQueue) (e : Event)
    → Logged log q
    → (i : ℕ) → i < q.seq + 1
    → q.seq + 1 ≤ i + input_event_cap
    → update q.queue (q.seq % input_event_cap) e (i % input_event_cap) ≡ update log q.seq e i
push_slot log q e v i lt near = elim (Bool-cases (q.seq == i)) [
  | inl same ↦
      let slot : (q.seq % input_event_cap == i % input_event_cap) ≡ true = ground arith in
      rw (slot, same) refl
  | inr other ↦
      let less : i < q.seq = ground arith in
      let apart : (q.seq % input_event_cap == i % input_event_cap) ≡ false = ground arith in
      rw (apart, other) (v.held i less (omega (arith, near)))
]

-- One event more happens: the queue holds it as the last one, unless its number has wrapped.
pub append_event-Logged :
    (log : ℕ → Event) (q : EventQueue) (e : Event)
    → Logged log q
    → q.seq + 1 < word_mod
    → Logged (update log q.seq e) (append_event e q)
unfolding append_event
append_event-Logged log q e v small =
    let next : (q.seq + 1) % word_mod ≡ q.seq + 1 = omega arith in
    record {
      held =
          λ i lt near. push_slot log q e v i (omega (arith, lt, next)) (omega (arith, near, next));
    }

pub fd_seq-set : (seq : ℕ) (r : Reader) → input_fd_seq (input_fd_seq_set seq r) ≡ seq
unfolding input_fd_seq input_fd_seq_set
fd_seq-set seq r = elim (Option-cases r.fd.input_state) [
  | inl e ↦ rw e refl
  | inr (i, e) ↦ rw e (ground arith)
]

is_device-sync : (q : EventQueue) (r : Reader) → (fd_sync q r).fd.is_device ≡ r.fd.is_device
unfolding fd_sync input_fd_seq_set
is_device-sync q r = ground arith

-- The number of the event that a reader at `seq` gets.
pub next_seq : EventQueue → ℕ → ℕ
next_seq q seq = if ltb seq (oldest_seq q) then oldest_seq q else seq

fd_seq-sync :
    (q : EventQueue) (r : Reader)
    → r.fd.is_device ≡ true
    → input_fd_seq (fd_sync q r) ≡ next_seq q (input_fd_seq r)
unfolding fd_sync next_seq
fd_seq-sync q r dev = ground (arith, fd_seq-set (oldest_seq q) r)

-- What the result is, with the position after the first step.
abbrev popped : EventQueue → Reader → ℕ → Option Event × Reader
popped q r n =
    if ltb n q.seq
    then (some (q.queue (n % input_event_cap)), input_fd_seq_set ((n + 1) % word_mod) r)
    else (none, r)

pop_event_fd-popped :
    (q : EventQueue) (r : Reader)
    → r.fd.is_device ≡ true
    → pop_event_fd q r ≡ popped q (fd_sync q r) (next_seq q (input_fd_seq r))
unfolding pop_event_fd fd_ready
pop_event_fd-popped q r dev = let at = fd_seq-sync q r dev in ground (arith, at)

-- With a queue that holds the last 256 of the events of `log`, fewer than 2 ^ 64 in all, a
-- descriptor of the device whose position is not ahead of them gets nothing when it has seen the
-- last event; else it gets the event at its position, or the oldest one that is still held when
-- that one is newer, and its position is then behind that event.
pub pop_event_fd-next :
    (log : ℕ → Event) (q : EventQueue) (r : Reader)
    → Logged log q
    → q.seq < word_mod
    → r.fd.is_device ≡ true
    → input_fd_seq r ≤ q.seq
    → let (e, r') = pop_event_fd q r in
      ((e ≡ none) × (input_fd_seq r ≡ q.seq) × (input_fd_seq r' ≡ q.seq))
      ⊎ ((n : ℕ) × (e ≡ some (log n))
          × (n < q.seq)
          × (input_fd_seq r' ≡ n + 1)
          × ((n ≡ input_fd_seq r) ⊎ ((input_fd_seq r < n) × (q.seq ≡ n + input_event_cap))))
unfolding pop_event_fd fd_ready next_seq oldest_seq
pop_event_fd-next log q r v small dev le =
    let s = input_fd_seq r in
    let n = next_seq q s in
    let at : input_fd_seq (fd_sync q r) ≡ n = fd_seq-sync q r dev in
    rw (pop_event_fd-popped q r dev) (elim (Bool-cases (ltb n q.seq)) [
      | inr seen ↦ rw seen (inl (refl, ground arith, at ∙ ground arith))
      | inl left ↦
          let lt : n < q.seq = ground arith in
          rw left (
            inr (
              n,
              ap some (v.held n lt (ground arith)),
              lt,
              fd_seq-set ((n + 1) % word_mod) (fd_sync q r) ∙ omega arith,
              ground arith,
            ))
    ])
