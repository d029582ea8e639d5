-- ===== src/Kernel/Input.antt =====
-- src/kernel/main.c: the queues of input events and the descriptors that read them.
pub mod Order
pub mod Tests
use yabro_os.Base.{
  ℕ, zero, suc, ◌+◌, ◌-◌, ◌*◌, ◌/◌, ◌%◌, ◌^◌, Bool, true, false, ◌&&◌, ◌||◌, not, Option, none,
  some, ltb, leb, ◌==◌, if◌then◌else◌, update, ℤ, pos, negsuc,
}
use yabro_os.Pmm.State.{word_mod}

-- `struct input_event_k`; `kind` is its member `type`.
pub record Event : Type 0 where
  pub tv_sec : ℕ
  pub tv_usec : ℕ
  pub kind : ℕ
  pub code : ℕ
  pub value : ℤ

abbrev pub ev_syn : ℕ
ev_syn = 0

abbrev pub ev_key : ℕ
ev_key = 1

abbrev pub ev_rel : ℕ
ev_rel = 2

-- `INPUT_EVENT_CAP`, and `MOUSE_EVENT_CAP` alike.
abbrev pub input_event_cap : ℕ
input_event_cap = 256

-- `input_event_queue` with `keyboard_event_seq`, or `mouse_event_queue` with `mouse_event_seq`.
pub record EventQueue : Type 0 where
  pub queue : ℕ → Event
  pub seq : ℕ

-- `input_event_stamp`
abbrev pub stamped : ℕ → ℕ → ℕ → ℤ → Event
stamped ns kind code value = record {
  tv_sec = ns / 1000000000;
  tv_usec = ns % 1000000000 / 1000;
  kind = kind;
  code = code;
  value = value;
}

-- `queue[seq % CAP]=e; seq++`
unfoldable pub append_event : Event → EventQueue → EventQueue
append_event e q = record {
  queue = update q.queue (q.seq % input_event_cap) e;
  seq = (q.seq + 1) % word_mod;
}

-- `struct input_open_state`
pub record OpenState : Type 0 where
  pub used : Bool
  pub refs : ℕ
  pub kind : ℕ
  pub seq : ℕ

-- `INPUT_OPEN_STATE_CAP`
abbrev pub input_open_state_cap : ℕ
input_open_state_cap = 64 * 512

-- The first slot that is not in use, of `left` many from `i` on.
unfoldable pub free_state : (ℕ → OpenState) → ℕ → ℕ → Option ℕ
free_state states zero i = none
free_state states (suc left) i =
    let rest = free_state states left (i + 1) in if (states i).used then rest else some i

unfoldable pub input_state_alloc : (ℕ → OpenState) → ℕ → ℕ → Option ℕ × (ℕ → OpenState)
input_state_alloc states kind seq = elim (free_state states input_open_state_cap 0) [
  | none ↦ (none, states)
  | some i ↦ (some i, update states i (record { used = true; refs = 1; kind = kind; seq = seq }))
]

unfoldable pub input_state_retain : (ℕ → OpenState) → Option ℕ → ℕ → OpenState
input_state_retain states none = states
input_state_retain states (some i) =
    let st = states i in
    if st.used && ltb st.refs (2 ^ 32 - 1)
    then update states i (record st { refs = st.refs + 1 })
    else states

unfoldable pub input_state_release : (ℕ → OpenState) → Option ℕ → ℕ → OpenState
input_state_release states none = states
input_state_release states (some i) =
    let st = states i in
    if not st.used
    then states
    else (if ltb 1 st.refs
        then update states i (record st { refs = st.refs - 1 })
        else update states i (record { used = false; refs = 0; kind = 0; seq = 0 }))

-- `struct file_desc`, as far as input is concerned: whether it is the device of the queue
-- (`type==FD_PSEUDO` and `private_data==DEV_INPUT`, or `DEV_INPUT_MOUSE`), its own position, and
-- the state that it shares with its duplicates.
pub record InputFd : Type 0 where
  pub is_device : Bool
  pub input_seq : ℕ
  pub input_state : Option ℕ

-- A descriptor with the states that descriptors share.
pub record Reader : Type 0 where
  pub fd : InputFd
  pub states : ℕ → OpenState

unfoldable pub input_fd_seq : Reader → ℕ
input_fd_seq r = elim r.fd.input_state [
  | none ↦ r.fd.input_seq
  | some i ↦ if (r.states i).used then (r.states i).seq else r.fd.input_seq
]

unfoldable pub input_fd_seq_set : ℕ → Reader → Reader
input_fd_seq_set seq r = record {
  fd = record r.fd { input_seq = seq };
  states = elim r.fd.input_state [
    | none ↦ r.states
    | some i ↦
        if (r.states i).used
        then update r.states i (record (r.states i) { seq = seq })
        else r.states
  ];
}

-- `keyboard_event_oldest_seq`, `mouse_event_oldest_seq`
unfoldable pub oldest_seq : EventQueue → ℕ
oldest_seq q = if ltb input_event_cap q.seq then q.seq - input_event_cap else 0

-- `keyboard_fd_sync`, `mouse_fd_sync`
unfoldable pub fd_sync : EventQueue → Reader → Reader
fd_sync q r =
    if not r.fd.is_device
    then r
    else if ltb (input_fd_seq r) (oldest_seq q)
    then input_fd_seq_set (oldest_seq q) r
    else r

-- `keyboard_fd_ready`, `mouse_fd_ready`
unfoldable pub fd_ready : EventQueue → Reader → Bool × Reader
fd_ready q r =
    let r' = fd_sync q r in
    if not r.fd.is_device then (false, r) else (ltb (input_fd_seq r') q.seq, r')

-- `keyboard_pop_event_fd`, `mouse_pop_event_fd`: the event that is stored at `out`.
unfoldable pub pop_event_fd : EventQueue → Reader → Option Event × Reader
pop_event_fd q r =
    let (ready, r') = fd_ready q r in
    let seq = input_fd_seq r' in
    if ready
    then (some (q.queue (seq % input_event_cap)), input_fd_seq_set ((seq + 1) % word_mod) r')
    else (none, r')
