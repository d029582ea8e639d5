-- ===== src/Kernel/Keyboard/Keys.antt =====
-- src/kernel/main.c: the events of a key and the set of keys that are down.
use yabro_os.Base.{
  ℕ, ◌+◌, ◌/◌, ◌%◌, ◌<◌, ◌≡◌, refl, ap, ◌∙◌, Bool, true, false, not, ltb, ◌==◌, if◌then◌else◌,
  has-set_flag, has-clear_flag, arith, Bool-cases, inl, inr, pos,
}
use yabro_os.Pmm.State.{word_mod}
use yabro_os.Kernel.Task.{Task}
use yabro_os.Kernel.Input.{
  Event, EventQueue, input_event_cap, append_event, stamped, ev_key, ev_syn,
}
use yabro_os.Kernel.Keyboard.{
  Keyboard, keyboard_key_is_down, note_key, input_push_event, keyboard_emit_key,
}

is_down-note :
    (code : ℕ) (up : Bool) (k : Keyboard) (c : ℕ)
    → code < 1024
    → c < 1024
    → keyboard_key_is_down (note_key code up k) c
      ≡ (if code == c then not up else keyboard_key_is_down k c)
unfolding keyboard_key_is_down note_key
is_down-note code up k c lt lc =
    let inside : ltb code 1024 ≡ true = ground arith in
    let inside_c : ltb c 1024 ≡ true = ground arith in
    elim (Bool-cases (code / 8 == c / 8)) [
      | inr other ↦
          let apart : (code == c) ≡ false = ground arith in rw (inside, inside_c, other, apart) refl
      | inl same ↦
          let byte : code / 8 ≡ c / 8 = ground arith in
          let bit : (code % 8 == c % 8) ≡ (code == c) = ground arith in
          ground (
            arith,
            byte,
            bit,
            has-set_flag (c % 8) (code % 8) (k.keyboard_key_state (c / 8)),
            has-clear_flag (c % 8) (code % 8) (k.keyboard_key_state (c / 8)),
          )
    ]

events-note : (code : ℕ) (up : Bool) (k : Keyboard) → (note_key code up k).events ≡ k.events
unfolding note_key
events-note code up k = ground arith

-- The two events of a key that is pressed, held or released.
pub record KeyEvents (k k' : Keyboard) (code : ℕ) (down : Bool) : Type 0 where
  pub two : k'.events.seq ≡ k.events.seq + 2
  pub kind : (k'.events.queue (k.events.seq % input_event_cap)).kind ≡ ev_key
  pub key : (k'.events.queue (k.events.seq % input_event_cap)).code ≡ code
  pub value :
      (k'.events.queue (k.events.seq % input_event_cap)).value
      ≡ pos (if down then (if keyboard_key_is_down k code then 2 else 1) else 0)
  pub report : (k'.events.queue ((k.events.seq + 1) % input_event_cap)).kind ≡ ev_syn
  pub keys :
      (c : ℕ)
      → c < 1024
      → keyboard_key_is_down k' c ≡ (if code == c then down else keyboard_key_is_down k c)

two_pushes :
    (e f : Event) (q : EventQueue)
    → q.seq + 2 < word_mod
    → let q' = append_event f (append_event e q) in
      (q'.seq ≡ q.seq + 2)
      × (q'.queue (q.seq % input_event_cap) ≡ e)
      × (q'.queue ((q.seq + 1) % input_event_cap) ≡ f)
unfolding append_event
two_pushes e f q small =
    let next : (q.seq + 1) % word_mod ≡ q.seq + 1 = omega arith in
    let apart : ((q.seq + 1) % input_event_cap == q.seq % input_event_cap) ≡ false = ground arith in
    let same : (q.seq % input_event_cap == q.seq % input_event_cap) ≡ true = ground arith in
    let same2 : ((q.seq + 1) % input_event_cap == (q.seq + 1) % input_event_cap) ≡ true =
      ground arith in
    rw next (omega arith, rw (apart, same) refl, rw same2 refl)

module _ (now : ℕ → ℕ) (wake : Keyboard → ℕ → Task) where
  events-append_event :
      (kind code value : ℕ) (k : Keyboard)
      → (input_push_event now wake kind code value k).events
        ≡ append_event (stamped (now k.events.seq) kind code (pos value)) k.events
  unfolding input_push_event
  events-append_event kind code value k = elim (Bool-cases (kind == ev_key)) [
    | inl e ↦ rw (e, events-note code (value == 0) k) refl
    | inr e ↦ rw e refl
  ]

  is_down-append_event :
      (code value : ℕ) (k : Keyboard) (c : ℕ)
      → code < 1024
      → c < 1024
      → keyboard_key_is_down (input_push_event now wake ev_key code value k) c
        ≡ (if code == c then not (value == 0) else keyboard_key_is_down k c)
  unfolding input_push_event keyboard_key_is_down
  is_down-append_event code value k c lt lc = is_down-note code (value == 0) k c lt lc

  is_down-report :
      (k : Keyboard) (c : ℕ)
      → keyboard_key_is_down (input_push_event now wake ev_syn 0 0 k) c ≡ keyboard_key_is_down k c
  unfolding input_push_event keyboard_key_is_down
  is_down-report k c = refl

-- For a key code of the table, and with room for two more event numbers, `keyboard_emit_key` pushes
-- an event for the key, with the value 1 for a key that goes down, 2 for one that was down already
-- and 0 for a release, and then a report; afterwards this key is down when it was pressed, and the
-- other keys are as before.
pub keyboard_emit_key-KeyEvents :
    (kernel_monotonic_ns : ℕ → ℕ) (task_wake_io_waiters : Keyboard → ℕ → Task) (code : ℕ)
    (down : Bool) (k : Keyboard)
    → code < 1024
    → k.events.seq + 2 < word_mod
    → KeyEvents k (keyboard_emit_key kernel_monotonic_ns task_wake_io_waiters code down k) code down
unfolding keyboard_emit_key
keyboard_emit_key-KeyEvents now wake code down k lt small =
    let value = if down then (if keyboard_key_is_down k code then 2 else 1) else 0 in
    let k1 = input_push_event now wake ev_key code value k in
    let e = stamped (now k.events.seq) ev_key code (pos value) in
    let first : k1.events ≡ append_event e k.events =
      events-append_event now wake ev_key code value k in
    let f = stamped (now (append_event e k.events).seq) ev_syn 0 (pos 0) in
    let both : (input_push_event now wake ev_syn 0 0 k1).events
        ≡ append_event f (append_event e k.events) =
      events-append_event now wake ev_syn 0 0 k1
      ∙ ap (λ (q : EventQueue). append_event (stamped (now q.seq) ev_syn 0 (pos 0)) q) first in
    let (n, a, b) = two_pushes e f k.events small in
    let pressed : not (value == 0) ≡ down = ground arith in
    record {
      two = rw both n;
      kind = rw both (ap (λ (x : Event). x.kind) a);
      key = rw both (ap (λ (x : Event). x.code) a);
      value = rw both (ap (λ (x : Event). x.value) a);
      report = rw both (ap (λ (x : Event). x.kind) b);
      keys = λ c lc.
          is_down-report now wake k1 c
          ∙ is_down-append_event now wake code value k c lt lc
          ∙ ap (λ (x : Bool). if code == c then x else keyboard_key_is_down k c) pressed;
    }
