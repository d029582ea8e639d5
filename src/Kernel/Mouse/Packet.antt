-- ===== src/Kernel/Mouse/Packet.antt =====
-- src/kernel/main.c: what a packet of the mouse does, and how the decoding finds the packets.
use yabro_os.Base.{
  ◌^◌, zero, suc, ◌-◌, ◌<◌, ◌≤◌, negsuc, ◌==◌, ◌∙◌, ap, length, length-append, update, if-both,
  arith, lt→ltb, ge→ltb, ℕ, ◌+◌, ◌%◌, ◌≡◌, refl, true, false, ◌||◌, if◌then◌else◌, has, pos, ℤ,
  ◌==ℤ◌, List, [], ◌∷◌, ◌++◌, Bool-cases, inl, inr,
}
use yabro_os.Pmm.State.{word_mod}
use yabro_os.Kernel.Input.{EventQueue, Event, append_event, stamped}
use yabro_os.Kernel.Mouse.{
  Mouse, signed_byte, minus_signed_byte, mouse_push_event, push_motion, push_button, push_packet,
  process_packet, mouse_process_byte,
}

-- The number that a byte stands for in two's complement.
unfoldable pub Signed : ℕ → ℤ → Type 0
Signed b (pos n) = (b < 128) × (n ≡ b)
Signed b (negsuc n) = (128 ≤ b) × (n + b ≡ 255)

pub minus : ℤ → ℤ
minus (pos zero) = pos 0
minus (pos (suc n)) = negsuc n
minus (negsuc n) = pos (suc n)

signed_byte_lem : (b : ℕ) (d : ℤ) → Signed b d → signed_byte b ≡ d
unfolding Signed
signed_byte_lem b (pos n) (lt, e) = rw (e, lt→ltb b 128 lt) refl
signed_byte_lem b (negsuc n) (ge, e) =
    let value : 255 - b ≡ n = omega arith in rw (ge→ltb b 128 ge, value) refl

minus_signed_byte_lem : (b : ℕ) (d : ℤ) → Signed b d → minus_signed_byte b ≡ minus d
unfolding Signed minus
minus_signed_byte_lem b (pos zero) (lt, e) = let z : b ≡ 0 = omega arith in rw z refl
minus_signed_byte_lem b (pos (suc n)) (lt, e) =
    let ne : (b == 0) ≡ false = ground arith in
    let value : b - 1 ≡ n = omega arith in rw (ne, lt→ltb b 128 lt, value) refl
minus_signed_byte_lem b (negsuc n) (ge, e) =
    let ne : (b == 0) ≡ false = ground arith in
    let value : 256 - b ≡ suc n = omega arith in rw (ne, ge→ltb b 128 ge, value) refl

-- The events of a motion along one axis (`EV_REL`, 2), and of a button (`EV_KEY`, 1, from `BTN_LEFT`,
-- 272, on): their type, code and value.
pub motion_events : ℕ → ℤ → List (ℕ × ℕ × ℤ)
motion_events code d = if d ==ℤ pos 0 then [] else (2, code, d) ∷ []

pub button_events : ℕ → ℕ → ℕ → List (ℕ × ℕ × ℤ)
button_events old new bit =
    if has bit new
    then (if has bit old then [] else (1, 272 + bit, pos 1) ∷ [])
    else if has bit old
    then (1, 272 + bit, pos 0) ∷ []
    else []

-- The events of a packet, when the buttons were `old`, for the motion by `dx` to the right and by
-- `dy` down.
pub packet_events : ℕ → ℕ → ℤ → ℤ → List (ℕ × ℕ × ℤ)
packet_events old new dx dy =
    motion_events 0 dx
    ++ motion_events 1 dy
    ++ button_events old new 0
    ++ button_events old new 1
    ++ button_events old new 2
    ++ (0, 0, pos 0) ∷ []

length-motion_events : (code : ℕ) (d : ℤ) → length (motion_events code d) ≤ 1
unfolding motion_events
length-motion_events code d = elim (Bool-cases (d ==ℤ pos 0)) [
  | inl e ↦ rw e (omega arith)
  | inr e ↦ rw e (omega arith)
]

length-button_events : (old new bit : ℕ) → length (button_events old new bit) ≤ 1
unfolding button_events
length-button_events old new bit =
    if-both (λ (es : List (ℕ × ℕ × ℤ)). length es ≤ 1) (has bit new)
      (if-both (λ (es : List (ℕ × ℕ × ℤ)). length es ≤ 1) (has bit old) (omega arith) (omega arith))
      (if-both (λ (es : List (ℕ × ℕ × ℤ)). length es ≤ 1) (has bit old) (omega arith) (omega arith))

length-packet_events : (old new : ℕ) (dx dy : ℤ) → length (packet_events old new dx dy) ≤ 6
unfolding packet_events
length-packet_events old new dx dy = simp (length-append) (
    omega (
      arith,
      length-motion_events 0 dx,
      length-motion_events 1 dy,
      length-button_events old new 0,
      length-button_events old new 1,
      length-button_events old new 2,
    ))

-- The events that the queue received from number `n` on, in their order, and no other since.
pub EventsFrom : EventQueue → ℕ → List (ℕ × ℕ × ℤ) → Type 0
EventsFrom q n [] = q.seq ≡ n
EventsFrom q n ((kind, code, value) ∷ es) =
    ((q.queue (n % 256)).kind ≡ kind)
    × ((q.queue (n % 256)).code ≡ code)
    × ((q.queue (n % 256)).value ≡ value)
    × EventsFrom q (n + 1) es

module _ (now : ℕ → ℕ) where
  -- Pushing events in their order.
  push_all : List (ℕ × ℕ × ℤ) → EventQueue → EventQueue
  push_all [] q = q
  push_all ((kind, code, value) ∷ es) q =
      push_all es (append_event (stamped (now q.seq) kind code value) q)

  push_all-append :
      (xs ys : List (ℕ × ℕ × ℤ)) (q : EventQueue)
      → push_all (xs ++ ys) q ≡ push_all ys (push_all xs q)
  unfolding push_all
  push_all-append [] ys q = refl
  push_all-append ((kind, code, value) ∷ xs) ys q = push_all-append xs ys _

  -- The mouse after some events.
  abbrev with_events : Mouse → List (ℕ × ℕ × ℤ) → Mouse
  with_events m es = record m { events = push_all es m.events }

  push_motion_lem :
      (code : ℕ) (d : ℤ) (m : Mouse)
      → push_motion now code d m ≡ with_events m (motion_events code d)
  unfolding push_motion mouse_push_event motion_events push_all
  push_motion_lem code d m = elim (Bool-cases (d ==ℤ pos 0)) [
    | inl e ↦ rw e refl
    | inr e ↦ rw e refl
  ]

  push_button_lem :
      (new bit : ℕ) (m : Mouse)
      → push_button now new bit m ≡ with_events m (button_events m.mouse_buttons new bit)
  unfolding push_button mouse_push_event button_events push_all
  push_button_lem new bit m = elim (Bool-cases (has bit new)) [
    | inl e ↦ elim (Bool-cases (has bit m.mouse_buttons)) [
      | inl f ↦ rw (e, f) refl
      | inr f ↦ rw (e, f) refl
    ]
    | inr e ↦ elim (Bool-cases (has bit m.mouse_buttons)) [
      | inl f ↦ rw (e, f) refl
      | inr f ↦ rw (e, f) refl
    ]
  ]

  -- An event that is among the last 256 keeps its place.
  push_all-queue :
      (es : List (ℕ × ℕ × ℤ)) (q : EventQueue) (n : ℕ)
      → n < q.seq
      → q.seq + length es ≤ n + 256
      → q.seq + length es < word_mod
      → (push_all es q).queue (n % 256) ≡ q.queue (n % 256)
  unfolding push_all append_event
  push_all-queue [] q n old held small = refl
  push_all-queue ((kind, code, value) ∷ es) q n old held small =
      let next : (q.seq + 1) % word_mod ≡ q.seq + 1 = omega arith in
      let apart : (q.seq % 256 == n % 256) ≡ false = ground arith in
      let rest =
        push_all-queue es (append_event (stamped (now q.seq) kind code value) q) n
          (omega (arith, next)) (omega (arith, next)) (omega (arith, next)) in
      rest ∙ rw apart refl

  push_all-EventsFrom :
      (es : List (ℕ × ℕ × ℤ)) (q : EventQueue)
      → length es ≤ 256
      → q.seq + length es < word_mod
      → EventsFrom (push_all es q) q.seq es
  unfolding push_all EventsFrom append_event
  push_all-EventsFrom [] q few small = refl
  push_all-EventsFrom ((kind, code, value) ∷ es) q few small =
      let e = stamped (now q.seq) kind code value in
      let q1 = append_event e q in
      let next : (q.seq + 1) % word_mod ≡ q.seq + 1 = omega arith in
      let same : (q.seq % 256 == q.seq % 256) ≡ true = ground arith in
      let kept : (push_all es q1).queue (q.seq % 256) ≡ e =
        push_all-queue es q1 q.seq (omega (arith, next)) (omega (arith, next)) (omega (arith, next))
        ∙ rw same refl in
      (
        ap (λ (x : Event). x.kind) kept,
        ap (λ (x : Event). x.code) kept,
        ap (λ (x : Event). x.value) kept,
        rw (← next) (push_all-EventsFrom es q1 (omega arith) (omega (arith, next))),
      )

  push_packet_lem :
      (m : Mouse) (dx dy : ℤ)
      → Signed (m.mouse_packet 1) dx
      → Signed (m.mouse_packet 2) dy
      → push_packet now m ≡ record m {
        events =
            push_all (packet_events m.mouse_buttons (m.mouse_packet 0 % 8) dx (minus dy)) m.events;
        mouse_buttons = m.mouse_packet 0 % 8;
        mouse_packets = m.mouse_packets + 1;
      }
  unfolding push_packet mouse_push_event packet_events push_all
  push_packet_lem m dx dy x y =
      simp
        (
          signed_byte_lem (m.mouse_packet 1) dx x,
          minus_signed_byte_lem (m.mouse_packet 2) dy y,
          push_motion_lem,
          push_button_lem,
          push_all-append,
        )
        refl

  -- Three bytes that arrive at the start of a packet, of which the first has the bit 3 set and
  -- neither of the bits 6 and 7, and the others are `dx` and `dy` in two's complement, add to the
  -- queue, when its number does not wrap around, the motions that are not zero, by `dx` and `-dy`,
  -- the buttons that changed and a report, in this order and no other event; the buttons are then
  -- those of the first byte, one packet more is counted, and the next byte starts a packet.
  pub mouse_process_byte-packet_events :
      (b0 b1 b2 : ℕ) (dx dy : ℤ) (m : Mouse)
      → m.mouse_packet_pos ≡ 0
      → has 3 b0 ≡ true
      → (has 6 b0 || has 7 b0) ≡ false
      → Signed b1 dx
      → Signed b2 dy
      → m.events.seq + 6 < 2 ^ 64
      → let m' =
          mouse_process_byte now b2 (mouse_process_byte now b1 (mouse_process_byte now b0 m)) in
        EventsFrom m'.events m.events.seq (packet_events m.mouse_buttons (b0 % 8) dx (minus dy))
        × (m'.mouse_buttons ≡ b0 % 8)
        × (m'.mouse_packets ≡ m.mouse_packets + 1)
        × (m'.mouse_packet_pos ≡ 0)
  unfolding mouse_process_byte process_packet
  mouse_process_byte-packet_events b0 b1 b2 dx dy m start sync whole x y small =
      let es = packet_events m.mouse_buttons (b0 % 8) dx (minus dy) in
      let few = length-packet_events m.mouse_buttons (b0 % 8) dx (minus dy) in
      let added = push_all-EventsFrom es m.events (omega (arith, few)) (omega (arith, few)) in
      let m3 = record m {
        mouse_packet = update (update (update m.mouse_packet 0 b0) 1 b1) 2 b2;
        mouse_packet_pos = 0;
      } in
      rw (start, sync, whole, push_packet_lem m3 dx dy x y) (added, refl, refl, refl)
