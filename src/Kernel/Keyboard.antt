-- ===== src/Kernel/Keyboard.antt =====
-- src/kernel/main.c: the decoding of the bytes of the keyboard.
pub mod Decode
pub mod Keys
pub mod Shift
pub mod Tests
use yabro_os.Base.{
  ℕ, zero, suc, ◌+◌, ◌-◌, ◌*◌, ◌/◌, ◌%◌, Bool, true, false, ◌&&◌, ◌||◌, not, Option, none, some,
  List, [], ◌∷◌, ltb, leb, ◌==◌, if◌then◌else◌, has, set_flag, clear_flag, update, for_range, ℤ,
  pos, negsuc, ◌==ℤ◌, is_positive,
}
use yabro_os.Kernel.Task.{Task, max_tasks}
use yabro_os.Kernel.Signal.Queue.{tty_queue_signal}
use yabro_os.Kernel.Input.{EventQueue, append_event, stamped, ev_key, ev_syn}

abbrev pub key_queue_cap : ℕ
key_queue_cap = 128

-- The variables that the functions below work on.
pub record Keyboard : Type 0 where
  pub keyboard_key_state : ℕ → ℕ
  pub events : EventQueue
  pub e0_prefix : Bool
  pub ctrl_left_pressed : Bool
  pub ctrl_right_pressed : Bool
  pub shift_left_pressed : Bool
  pub shift_right_pressed : Bool
  pub shift_pressed : Bool
  pub caps_lock : Bool
  pub key_queue : ℕ → ℕ
  pub key_head : ℕ
  pub key_tail : ℕ
  pub framebuffer_console_active : Bool
  pub console_fg_pgrp : ℤ
  pub console_shell_pgrp : ℤ
  pub tasks : ℕ → Task
  pub current_task : ℕ

unfoldable pub keyboard_key_is_down : Keyboard → ℕ → Bool
keyboard_key_is_down k code = ltb code 1024 && has (code % 8) (k.keyboard_key_state (code / 8))

-- The update of `keyboard_key_state` in `input_push_event`.
unfoldable pub note_key : ℕ → Bool → Keyboard → Keyboard
note_key code up k =
    let word = k.keyboard_key_state (code / 8) in
    let word' = if up then clear_flag (code % 8) word else set_flag (code % 8) word in
    if ltb code 1024
    then record k { keyboard_key_state = update k.keyboard_key_state (code / 8) word' }
    else k

-- The test of the loop of `console_tty_pgrp_signal`.
unfoldable pub in_console_group : ℤ → ℤ → Task → Bool
in_console_group pg session t = t.used && t.pgrp ==ℤ pg && t.session ==ℤ session

abbrev pub signal_console_task : ℤ → ℤ → ℕ → ℕ → (ℕ → Task) → ℕ → Task
signal_console_task pg session sig i tasks =
    if in_console_group pg session (tasks i)
    then update tasks i (tty_queue_signal (tasks i) (pos sig))
    else tasks

-- The tasks after it; no caller here looks at the result.
unfoldable pub console_tty_pgrp_signal : ℕ → Keyboard → Keyboard
console_tty_pgrp_signal sig k =
    let current = k.tasks k.current_task in
    let pg = if is_positive k.console_fg_pgrp then k.console_fg_pgrp else current.pgrp in
    if not (is_positive pg) then k else record k {
      tasks = for_range max_tasks 0 (signal_console_task pg current.session sig) k.tasks;
    }

-- The value that a table has for a key.
unfoldable pub lookup : List (ℕ × ℕ) → ℕ → Option ℕ
lookup [] b = none
lookup ((key, value) ∷ rest) b = let later = lookup rest b in if b == key then some value else later

-- The codes of the keys with the prefix 0xE0.
abbrev pub extended_codes : List (ℕ × ℕ)
extended_codes =
    (0x1C, 96)
    ∷ (0x1D, 97)
    ∷ (0x35, 98)
    ∷ (0x38, 100)
    ∷ (0x47, 102)
    ∷ (0x48, 103)
    ∷ (0x49, 104)
    ∷ (0x4B, 105)
    ∷ (0x4D, 106)
    ∷ (0x4F, 107)
    ∷ (0x50, 108)
    ∷ (0x51, 109)
    ∷ (0x52, 110)
    ∷ (0x53, 111)
    ∷ (0x5B, 125)
    ∷ (0x5C, 126)
    ∷ (0x5D, 127)
    ∷ []

-- What such a key sends to the console.
abbrev pub extended_tty_keys : List (ℕ × ℕ)
extended_tty_keys =
    (0x48, 0x80)
    ∷ (0x50, 0x81)
    ∷ (0x4B, 0x82)
    ∷ (0x4D, 0x83)
    ∷ (0x47, 0x85)
    ∷ (0x4F, 0x86)
    ∷ (0x53, 0x87)
    ∷ (0x49, 0x88)
    ∷ (0x51, 0x89)
    ∷ (0x52, 0x8A)
    ∷ []

-- The letters of the keys, by their place in the alphabet.
abbrev pub letters : List (ℕ × ℕ)
letters =
    (0x10, 16)
    ∷ (0x11, 22)
    ∷ (0x12, 4)
    ∷ (0x13, 17)
    ∷ (0x14, 19)
    ∷ (0x15, 24)
    ∷ (0x16, 20)
    ∷ (0x17, 8)
    ∷ (0x18, 14)
    ∷ (0x19, 15)
    ∷ (0x1E, 0)
    ∷ (0x1F, 18)
    ∷ (0x20, 3)
    ∷ (0x21, 5)
    ∷ (0x22, 6)
    ∷ (0x23, 7)
    ∷ (0x24, 9)
    ∷ (0x25, 10)
    ∷ (0x26, 11)
    ∷ (0x2C, 25)
    ∷ (0x2D, 23)
    ∷ (0x2E, 2)
    ∷ (0x2F, 21)
    ∷ (0x30, 1)
    ∷ (0x31, 13)
    ∷ (0x32, 12)
    ∷ []

abbrev pub foreground_job : Keyboard → Bool
foreground_job k =
    is_positive k.console_fg_pgrp
    && is_positive k.console_shell_pgrp
    && not (k.console_fg_pgrp ==ℤ k.console_shell_pgrp)

abbrev pub ctrl_pressed : Keyboard → Bool
ctrl_pressed k = k.ctrl_left_pressed || k.ctrl_right_pressed

-- `get_key`
unfoldable pub get_key : Keyboard → ℕ × Keyboard
get_key k =
    if k.key_head == k.key_tail
    then (0, k)
    else (k.key_queue k.key_head, record k { key_head = (k.key_head + 1) % key_queue_cap })

-- The time at which the event with a number happens, and the tasks after `task_wake_io_waiters`,
-- which looks at the descriptors that they wait for, are left open.
module _ (kernel_monotonic_ns : ℕ → ℕ) (task_wake_io_waiters : Keyboard → ℕ → Task) where
  abbrev pub woken : Keyboard → Keyboard
  woken k = record k { tasks = task_wake_io_waiters k }

  unfoldable pub input_push_event : ℕ → ℕ → ℕ → Keyboard → Keyboard
  input_push_event kind code value k =
      let k1 = if kind == ev_key then note_key code (value == 0) k else k in
      let e = stamped (kernel_monotonic_ns k1.events.seq) kind code (pos value) in
      woken (record k1 { events = append_event e k1.events })

  unfoldable pub keyboard_emit_key : ℕ → Bool → Keyboard → Keyboard
  keyboard_emit_key code down k =
      let value = if down then (if keyboard_key_is_down k code then 2 else 1) else 0 in
      input_push_event ev_syn 0 0 (input_push_event ev_key code value k)

  -- `key_queue[key_tail]=...; key_tail=next;`, unless the queue is full.
  unfoldable pub enqueue_key : ℕ → Keyboard → Keyboard
  enqueue_key key k =
      let next = (k.key_tail + 1) % key_queue_cap in
      if next == k.key_head
      then k
      else woken (record k { key_queue = update k.key_queue k.key_tail key; key_tail = next })
