-- ===== src/Kernel/Keyboard/Tests.antt =====
-- A keyboard, and the theorems about its bytes.
use yabro_os.Base.{refl, true, false, arith, pos, ◌==◌, if◌then◌else◌}
use yabro_os.Kernel.Signal.Tests.{one_task}
use yabro_os.Kernel.Input.Tests.{late_queue}
use yabro_os.Kernel.Keyboard.{Keyboard, keyboard_emit_key}
use yabro_os.Kernel.Keyboard.Decode.{keyboard_process_scancode}
use yabro_os.Kernel.Keyboard.Shift.{IsKeyboard, keyboard_process_scancode-IsKeyboard}
use yabro_os.Kernel.Keyboard.Keys.{KeyEvents, keyboard_emit_key-KeyEvents}

-- The left shift is down.
abbrev shifted : Keyboard
shifted = record {
  keyboard_key_state = λ i. if i == 5 then 4 else 0;
  events = late_queue;
  e0_prefix = false;
  ctrl_left_pressed = false;
  ctrl_right_pressed = false;
  shift_left_pressed = true;
  shift_right_pressed = false;
  shift_pressed = true;
  caps_lock = false;
  key_queue = λ i. 0;
  key_head = 3;
  key_tail = 127;
  framebuffer_console_active = true;
  console_fg_pgrp = pos 7;
  console_shell_pgrp = pos 2;
  tasks = λ i. one_task;
  current_task = 0;
}

shifted-IsKeyboard : IsKeyboard shifted
shifted-IsKeyboard = record { shift = refl; head = omega arith; tail = omega arith }

keyboard_process_scancode-IsKeyboard_example :
    IsKeyboard (keyboard_process_scancode (λ n. n) (λ k. k.tasks) 0xAA shifted)
keyboard_process_scancode-IsKeyboard_example =
    keyboard_process_scancode-IsKeyboard (λ n. n) (λ k. k.tasks) 0xAA shifted shifted-IsKeyboard

keyboard_emit_key-KeyEvents_example :
    KeyEvents shifted (keyboard_emit_key (λ n. n) (λ k. k.tasks) 42 true shifted) 42 true
keyboard_emit_key-KeyEvents_example =
    keyboard_emit_key-KeyEvents (λ n. n) (λ k. k.tasks) 42 true shifted (omega arith) (omega arith)
