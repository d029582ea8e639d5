-- ===== src/Kernel/Keyboard/Decode.antt =====
-- src/kernel/main.c: what each byte of the keyboard does.
use yabro_os.Base.{
  ℕ, ◌+◌, ◌%◌, true, false, ◌&&◌, ◌||◌, not, Option, none, some, ◌==◌, if◌then◌else◌, has,
}
use yabro_os.Kernel.Task.{Task}
use yabro_os.Kernel.Keyboard.{
  Keyboard, keyboard_key_is_down, console_tty_pgrp_signal, lookup, extended_codes,
  extended_tty_keys, letters, foreground_job, ctrl_pressed, keyboard_emit_key, enqueue_key,
}

-- The clock `now` and the wake-up `wake` are those of the parent.
module _ (now : ℕ → ℕ) (wake : Keyboard → ℕ → Task) where
  -- The byte after the prefix 0xE0.
  unfoldable pub process_extended : ℕ → Keyboard → Keyboard
  process_extended scancode k =
      let rel = has 7 scancode in
      let b = scancode % 128 in
      let k1 = record k {
        e0_prefix = false;
        ctrl_right_pressed = if b == 0x1D then not rel else k.ctrl_right_pressed;
      } in
      elim (lookup extended_codes b) [
        | none ↦ k1
        | some kc ↦
            let k2 = keyboard_emit_key now wake kc (not rel) k1 in
            if rel then k2 else elim (lookup extended_tty_keys b) [
              | none ↦ k2
              | some key ↦ enqueue_key now wake key k2
            ]
      ]

  -- The key that the console gets, or `none` for a `goto done`, with the keyboard by then.
  unfoldable pub queued_key : ℕ → Keyboard → Option ℕ × Keyboard
  queued_key scancode k =
      if ctrl_pressed k && scancode == 0x2E
      then (if not k.framebuffer_console_active
          then (none, k)
          else if foreground_job k
          then (none, console_tty_pgrp_signal 2 k)
          else (some 0x84, k))
      else (if ctrl_pressed k && k.framebuffer_console_active && foreground_job k
          then elim (lookup letters scancode) [
            | none ↦ (some scancode, k)
            | some letter ↦ (some (0xA0 + letter), k)
          ]
          else (some scancode, k))

  -- A key that is pressed and is none of those with a case of their own.
  unfoldable pub process_make : ℕ → Keyboard → Keyboard
  process_make scancode k =
      let (key, k2) = queued_key scancode (keyboard_emit_key now wake scancode true k) in
      if scancode == 0 then k else elim key [ none ↦ k2 | some q ↦ enqueue_key now wake q k2 ]

  -- A byte without the prefix.
  unfoldable pub process_plain : ℕ → Keyboard → Keyboard
  process_plain scancode k =
      let base = scancode % 128 in
      if scancode == 0x1D
      then keyboard_emit_key now wake 29 true (record k { ctrl_left_pressed = true })
      else (if scancode == 0x9D
          then keyboard_emit_key now wake 29 false (record k { ctrl_left_pressed = false })
          else (if scancode == 0x2A
              then record (keyboard_emit_key now wake 42 true k) {
                shift_left_pressed = true;
                shift_pressed = true;
              }
              else (if scancode == 0x36
                  then record (keyboard_emit_key now wake 54 true k) {
                    shift_right_pressed = true;
                    shift_pressed = true;
                  }
                  else (if scancode == 0xAA
                      then (let k1 = keyboard_emit_key now wake 42 false k in
                          record k1 {
                            shift_left_pressed = false;
                            shift_pressed = k1.shift_right_pressed;
                          })
                      else (if scancode == 0xB6
                          then (let k1 = keyboard_emit_key now wake 54 false k in
                              record k1 {
                                shift_right_pressed = false;
                                shift_pressed = k1.shift_left_pressed;
                              })
                          else (if scancode == 0x3A
                              then keyboard_emit_key now wake 58 true (record k {
                                caps_lock =
                                    if keyboard_key_is_down k 58
                                    then k.caps_lock
                                    else not k.caps_lock;
                              })
                              else (if has 7 scancode
                                  then (if base == 0x2A || base == 0x36
                                      then k
                                      else keyboard_emit_key now wake base false k)
                                  else process_make scancode k)))))))

  unfoldable pub keyboard_process_scancode : ℕ → Keyboard → Keyboard
  keyboard_process_scancode scancode k =
      if scancode == 0xE0
      then record k { e0_prefix = true }
      else if k.e0_prefix
      then process_extended scancode k
      else process_plain scancode k
