-- ===== src/Kernel/Mouse/Tests.antt =====
-- A mouse at the start of a packet, and the theorem about it.
use yabro_os.Base.{◌+◌, ◌%◌, ◌≡◌, refl, pos, negsuc, arith}
use yabro_os.Base.{has}
use yabro_os.Kernel.Input.Tests.{late_queue}
use yabro_os.Kernel.Mouse.{Mouse, mouse_process_byte}
use yabro_os.Kernel.Mouse.Packet.{
  Signed, minus, EventsFrom, packet_events, mouse_process_byte-packet_events,
}

abbrev idle_mouse : Mouse
idle_mouse = record {
  events = late_queue;
  mouse_packet = λ i. 0;
  mouse_packet_pos = 0;
  mouse_buttons = 2;
  mouse_sync_rejects = 0;
  mouse_bad_packets = 0;
  mouse_packets = 5;
}

-- The left button goes down and the right one up, while the mouse moves left.
mouse_process_byte-packet_events_example :
    let m' =
      mouse_process_byte
        (λ n. n)
        0
        (mouse_process_byte (λ n. n) 255 (mouse_process_byte (λ n. n) 9 idle_mouse)) in
    EventsFrom m'.events late_queue.seq (packet_events 2 (9 % 8) (negsuc 0) (minus (pos 0)))
    × (m'.mouse_buttons ≡ 9 % 8)
    × (m'.mouse_packets ≡ 5 + 1)
    × (m'.mouse_packet_pos ≡ 0)
unfolding has Signed
mouse_process_byte-packet_events_example =
    mouse_process_byte-packet_events (λ n. n) 9 255 0 (negsuc 0) (pos 0) idle_mouse refl refl refl
      (omega arith, omega arith) (omega arith, omega arith) (omega arith)
