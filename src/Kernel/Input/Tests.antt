-- ===== src/Kernel/Input/Tests.antt =====
-- A queue that has lost its first events, and the theorems about it.
use yabro_os.Base.{
  ℕ, ◌+◌, ◌<◌, ◌≡◌, refl, ◌⊎◌, true, none, some, arith, update, ltb, if◌then◌else◌, pos,
}
use yabro_os.Kernel.Input.{
  Event, EventQueue, input_event_cap, append_event, stamped, ev_key, Reader, input_fd_seq,
  pop_event_fd,
}
use yabro_os.Kernel.Input.Order.{Logged, append_event-Logged, pop_event_fd-next}

abbrev all_events : ℕ → Event
all_events n = stamped n ev_key 30 (pos 1)

-- After 300 events, of which the first 44 are overwritten.
abbrev pub late_queue : EventQueue
late_queue = record {
  queue = λ i. if ltb i 44 then all_events (256 + i) else all_events i;
  seq = 300;
}

late_queue-Logged : Logged all_events late_queue
late_queue-Logged = record { held = λ i lt near. ground arith }

append_event-Logged_example :
    Logged (update all_events 300 (all_events 7)) (append_event (all_events 7) late_queue)
append_event-Logged_example =
    append_event-Logged all_events late_queue (all_events 7) late_queue-Logged (omega arith)

abbrev slow_reader : Reader
slow_reader = record {
  fd = record { is_device = true; input_seq = 0; input_state = some 3 };
  states = λ i. record { used = true; refs = 1; kind = 8; seq = 10 };
}

at_ten : input_fd_seq slow_reader ≡ 10
unfolding input_fd_seq
at_ten = refl

pop_event_fd-next_example :
    let (e, r') = pop_event_fd late_queue slow_reader in
    ((e ≡ none) × (input_fd_seq slow_reader ≡ 300) × (input_fd_seq r' ≡ 300))
    ⊎ ((n : ℕ) × (e ≡ some (all_events n))
        × (n < 300)
        × (input_fd_seq r' ≡ n + 1)
        × ((n ≡ input_fd_seq slow_reader)
            ⊎ ((input_fd_seq slow_reader < n) × (300 ≡ n + input_event_cap))))
pop_event_fd-next_example =
    pop_event_fd-next all_events late_queue slow_reader late_queue-Logged (omega arith) refl
      (omega (arith, at_ten))
