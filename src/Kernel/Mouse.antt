-- ===== src/Kernel/Mouse.antt =====
-- src/kernel/main.c: the decoding of the packets of the mouse. What the wake-up of waiting tasks at
-- the end of a packet does to the tasks is not part of this state, nor are the counters of traces.
pub mod Packet
pub mod Tests
use yabro_os.Base.{
  ℕ, zero, suc, ◌+◌, ◌-◌, ◌*◌, ◌/◌, ◌%◌, Bool, true, false, ◌&&◌, ◌||◌, not, Option, none, some,
  ltb, leb, ◌==◌, if◌then◌else◌, has, update, ℤ, pos, negsuc, ◌==ℤ◌,
}
use yabro_os.Kernel.Input.{EventQueue, append_event, stamped, ev_key, ev_syn, ev_rel}

abbrev pub btn_left : ℕ
btn_left = 0x110

pub record Mouse : Type 0 where
  pub events : EventQueue
  pub mouse_packet : ℕ → ℕ
  pub mouse_packet_pos : ℕ
  pub mouse_buttons : ℕ
  pub mouse_sync_rejects : ℕ
  pub mouse_bad_packets : ℕ
  pub mouse_packets : ℕ

-- `(int8_t)b`
abbrev pub signed_byte : ℕ → ℤ
signed_byte b = if ltb b 128 then pos b else negsuc (255 - b)

-- `-(int8_t)b`
abbrev pub minus_signed_byte : ℕ → ℤ
minus_signed_byte b = if b == 0 then pos 0 else if ltb b 128 then negsuc (b - 1) else pos (256 - b)

-- The time at which the event with a number happens is left open.
module _ (kernel_monotonic_ns : ℕ → ℕ) where
  unfoldable pub mouse_push_event : ℕ → ℕ → ℤ → Mouse → Mouse
  mouse_push_event kind code value m =
      let e = stamped (kernel_monotonic_ns m.events.seq) kind code value in
      record m { events = append_event e m.events }

  -- `if(dx) mouse_push_event(EV_REL,REL_X,dx)` and the same for `dy`
  unfoldable pub push_motion : ℕ → ℤ → Mouse → Mouse
  push_motion code d m = if d ==ℤ pos 0 then m else mouse_push_event ev_rel code d m

  -- One round of the loop on the buttons.
  unfoldable pub push_button : ℕ → ℕ → Mouse → Mouse
  push_button buttons bit m =
      let value = if has bit buttons then pos 1 else pos 0 in
      if has bit buttons
      then (if has bit m.mouse_buttons then m else mouse_push_event ev_key (btn_left + bit) value m)
      else if has bit m.mouse_buttons
      then mouse_push_event ev_key (btn_left + bit) value m
      else m

  unfoldable pub push_packet : Mouse → Mouse
  push_packet m =
      let buttons = m.mouse_packet 0 % 8 in
      let m1 = push_motion 0 (signed_byte (m.mouse_packet 1)) m in
      let m2 = push_motion 1 (minus_signed_byte (m.mouse_packet 2)) m1 in
      let m3 = push_button buttons 2 (push_button buttons 1 (push_button buttons 0 m2)) in
      mouse_push_event ev_syn 0 (pos 0)
        (record m3 { mouse_buttons = buttons; mouse_packets = m3.mouse_packets + 1 })

  -- A whole packet: `flags&0xC0` marks an overflow.
  unfoldable pub process_packet : Mouse → Mouse
  process_packet m =
      if has 6 (m.mouse_packet 0) || has 7 (m.mouse_packet 0)
      then mouse_push_event ev_syn 0 (pos 0)
          (record m { mouse_bad_packets = m.mouse_bad_packets + 1 })
      else push_packet m

  unfoldable pub mouse_process_byte : ℕ → Mouse → Mouse
  mouse_process_byte b m =
      let m1 = record m {
        mouse_packet = update m.mouse_packet m.mouse_packet_pos b;
        mouse_packet_pos = m.mouse_packet_pos + 1;
      } in
      if m.mouse_packet_pos == 0 && not (has 3 b)
      then record m { mouse_sync_rejects = m.mouse_sync_rejects + 1 }
      else if ltb m1.mouse_packet_pos 3
      then m1
      else process_packet (record m1 { mouse_packet_pos = 0 })
