-- ===== src/Kernel/Keyboard/Shift.antt =====
-- src/kernel/main.c: the state of the keyboard stays consistent, whatever bytes arrive.
use yabro_os.Base.{
  ℕ, ◌+◌, ◌%◌, ◌<◌, ◌≡◌, refl, Bool, true, false, ◌&&◌, ◌||◌, not, Option, none, some, ◌==◌,
  if◌then◌else◌, has, arith, if-both, Option-cases, inl, inr,
}
use yabro_os.Kernel.Task.{Task}
use yabro_os.Kernel.Input.{ev_key, ev_syn}
use yabro_os.Kernel.Keyboard.{
  Keyboard, key_queue_cap, note_key, console_tty_pgrp_signal, lookup, extended_codes,
  extended_tty_keys, letters, foreground_job, ctrl_pressed, get_key, input_push_event,
  keyboard_emit_key, enqueue_key,
}
use yabro_os.Kernel.Keyboard.Decode.{
  process_extended, queued_key, process_make, process_plain, keyboard_process_scancode,
}

-- The keyboard's shift is that of one of the two keys, and the indices of the queue of keys are in
-- its array.
pub record IsKeyboard (k : Keyboard) : Type 0 where
  pub shift : k.shift_pressed ≡ (k.shift_left_pressed || k.shift_right_pressed)
  pub head : k.key_head < key_queue_cap
  pub tail : k.key_tail < key_queue_cap

get_key-IsKeyboard : (k : Keyboard) → IsKeyboard k → IsKeyboard (get_key k).1
unfolding get_key
get_key-IsKeyboard k v = record {
  shift = ground (arith, v.shift);
  head = ground (arith, v.head);
  tail = ground (arith, v.tail);
}

note-IsKeyboard :
    (code : ℕ) (up : Bool) (k : Keyboard) → IsKeyboard k → IsKeyboard (note_key code up k)
unfolding note_key
note-IsKeyboard code up k v = record {
  shift = ground (arith, v.shift);
  head = ground (arith, v.head);
  tail = ground (arith, v.tail);
}

signal-IsKeyboard :
    (sig : ℕ) (k : Keyboard) → IsKeyboard k → IsKeyboard (console_tty_pgrp_signal sig k)
unfolding console_tty_pgrp_signal
signal-IsKeyboard sig k v = record {
  shift = ground (arith, v.shift);
  head = ground (arith, v.head);
  tail = ground (arith, v.tail);
}

module _ (now : ℕ → ℕ) (wake : Keyboard → ℕ → Task) where
  push-IsKeyboard :
      (kind code value : ℕ) (k : Keyboard)
      → IsKeyboard k
      → IsKeyboard (input_push_event now wake kind code value k)
  unfolding input_push_event
  push-IsKeyboard kind code value k v =
      let noted = if-both IsKeyboard (kind == ev_key) (note-IsKeyboard code (value == 0) k v) v in
      record { shift = noted.shift; head = noted.head; tail = noted.tail }

  emit-IsKeyboard :
      (code : ℕ) (down : Bool) (k : Keyboard)
      → IsKeyboard k
      → IsKeyboard (keyboard_emit_key now wake code down k)
  unfolding keyboard_emit_key
  emit-IsKeyboard code down k v = push-IsKeyboard ev_syn 0 0 _ (push-IsKeyboard ev_key code _ k v)

  enqueue-IsKeyboard :
      (key : ℕ) (k : Keyboard) → IsKeyboard k → IsKeyboard (enqueue_key now wake key k)
  unfolding enqueue_key
  enqueue-IsKeyboard key k v = record {
    shift = ground (arith, v.shift);
    head = ground (arith, v.head);
    tail = ground (arith, v.tail);
  }

  queue_some :
      (o : Option ℕ) (k : Keyboard)
      → IsKeyboard k
      → IsKeyboard (elim o [ none ↦ k | some key ↦ enqueue_key now wake key k ])
  queue_some none k v = v
  queue_some (some key) k v = enqueue-IsKeyboard key k v

  extended-IsKeyboard :
      (scancode : ℕ) (k : Keyboard)
      → IsKeyboard k
      → IsKeyboard (process_extended now wake scancode k)
  unfolding process_extended
  extended-IsKeyboard scancode k v =
      let b = scancode % 128 in
      elim (Option-cases (lookup extended_codes b)) [
        | inl e ↦
            rw (process_extended, e) (record { shift = v.shift; head = v.head; tail = v.tail })
        | inr (kc, e) ↦
            let v2 =
              emit-IsKeyboard kc (not (has 7 scancode))
                (record k {
                  e0_prefix = false;
                  ctrl_right_pressed =
                      if b == 0x1D then not (has 7 scancode) else k.ctrl_right_pressed;
                })
                (record { shift = v.shift; head = v.head; tail = v.tail }) in
            rw (process_extended, e)
              (if-both IsKeyboard (has 7 scancode) v2
                (queue_some (lookup extended_tty_keys b) _ v2))
      ]

  letter_IsKeyboard :
      (o : Option ℕ) (scancode : ℕ) (k : Keyboard)
      → IsKeyboard k
      → IsKeyboard
          (elim o as (λ _. Option ℕ × Keyboard) [
            | none ↦ (some scancode, k)
            | some letter ↦ (some (0xA0 + letter), k)
          ]).1
  letter_IsKeyboard none scancode k v = v
  letter_IsKeyboard (some l) scancode k v = v

  queued-IsKeyboard :
      (scancode : ℕ) (k : Keyboard) → IsKeyboard k → IsKeyboard (queued_key now wake scancode k).1
  unfolding queued_key
  queued-IsKeyboard scancode k v =
      let P = λ (r : Option ℕ × Keyboard). IsKeyboard r.1 in
      if-both P (ctrl_pressed k && scancode == 0x2E)
        (if-both P (not k.framebuffer_console_active) v
          (if-both P (foreground_job k) (signal-IsKeyboard 2 k v) v))
        (if-both P (ctrl_pressed k && k.framebuffer_console_active && foreground_job k)
          (letter_IsKeyboard (lookup letters scancode) scancode k v) v)

  make-IsKeyboard :
      (scancode : ℕ) (k : Keyboard) → IsKeyboard k → IsKeyboard (process_make now wake scancode k)
  unfolding process_make
  make-IsKeyboard scancode k v =
      let k1 = keyboard_emit_key now wake scancode true k in
      let v2 = queued-IsKeyboard scancode k1 (emit-IsKeyboard scancode true k v) in
      if-both IsKeyboard (scancode == 0) v (queue_some (queued_key now wake scancode k1).0 _ v2)

  plain-IsKeyboard :
      (scancode : ℕ) (k : Keyboard) → IsKeyboard k → IsKeyboard (process_plain now wake scancode k)
  unfolding process_plain
  plain-IsKeyboard scancode k v =
      let emitted = λ (code : ℕ) (down : Bool). emit-IsKeyboard code down k v in
      if-both IsKeyboard (scancode == 0x1D)
        (emit-IsKeyboard 29 true _ (record { shift = v.shift; head = v.head; tail = v.tail }))
        (if-both IsKeyboard (scancode == 0x9D)
          (emit-IsKeyboard 29 false _ (record { shift = v.shift; head = v.head; tail = v.tail }))
          (if-both IsKeyboard (scancode == 0x2A)
            (record { shift = refl; head = (emitted 42 true).head; tail = (emitted 42 true).tail })
            (if-both IsKeyboard (scancode == 0x36)
              (record {
                shift = ground arith;
                head = (emitted 54 true).head;
                tail = (emitted 54 true).tail;
              })
              (if-both IsKeyboard (scancode == 0xAA)
                (record {
                  shift = refl;
                  head = (emitted 42 false).head;
                  tail = (emitted 42 false).tail;
                })
                (if-both IsKeyboard (scancode == 0xB6)
                  (record {
                    shift = ground arith;
                    head = (emitted 54 false).head;
                    tail = (emitted 54 false).tail;
                  })
                  (if-both IsKeyboard (scancode == 0x3A)
                    (emit-IsKeyboard 58 true _
                      (record { shift = v.shift; head = v.head; tail = v.tail }))
                    (if-both IsKeyboard (has 7 scancode)
                      (if-both IsKeyboard (scancode % 128 == 0x2A || scancode % 128 == 0x36) v
                        (emitted (scancode % 128) false))
                      (make-IsKeyboard scancode k v))))))))

  -- A byte of the keyboard, whichever it is and whatever the clock and task_wake_io_waiters do,
  -- keeps a consistent state consistent: shift is pressed when one of its two keys is, and the
  -- indices of the queue of keys are within its array.
  pub keyboard_process_scancode-IsKeyboard :
      (scancode : ℕ) (k : Keyboard)
      → IsKeyboard k
      → IsKeyboard (keyboard_process_scancode now wake scancode k)
  unfolding keyboard_process_scancode
  keyboard_process_scancode-IsKeyboard scancode k v =
      if-both IsKeyboard (scancode == 0xE0)
        (record { shift = v.shift; head = v.head; tail = v.tail })
        (if-both IsKeyboard k.e0_prefix (extended-IsKeyboard scancode k v)
          (plain-IsKeyboard scancode k v))
