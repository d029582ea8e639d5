-- ===== src/Kernel/Files.antt =====
-- src/kernel/main.c: the table of descriptors of the current task and what its descriptors share.
pub mod Refs
pub mod Calls
pub mod Endpoint
pub mod Dup
pub mod Offsets
pub mod Tests
use yabro_os.Base.{
  ℕ, zero, suc, ◌+◌, ◌-◌, ◌*◌, ◌/◌, ◌%◌, ◌^◌, Bool, true, false, ◌&&◌, ◌||◌, not, Option, none,
  some, List, [], ◌∷◌, ltb, leb, ◌==◌, if◌then◌else◌, has, set_flag, clear_flag, update, ℤ, pos,
  negsuc, Code, ok, err,
}
use yabro_os.Vmm.Machine.{Machine}
use yabro_os.Kernel.Ring.{Ring}
use yabro_os.Kernel.Tty.{Pty}
use yabro_os.Kernel.Input.{OpenState, input_state_retain}
use yabro_os.Kernel.Signal.{first_from}
use yabro_os.Kernel.UserCopy.{user_copy_to, le_bytes}

abbrev pub max_files : ℕ
max_files = 512

-- The bit of the flag 0x80000
abbrev pub cloexec : ℕ
cloexec = 19

-- `FD_FILE` and the following
abbrev pub fd_file : ℕ
fd_file = 1

abbrev pub fd_pipe_r : ℕ
fd_pipe_r = 2

abbrev pub fd_pipe_w : ℕ
fd_pipe_w = 3

abbrev pub fd_pseudo : ℕ
fd_pseudo = 4

abbrev pub fd_socket : ℕ
fd_socket = 5

abbrev pub fd_eventfd : ℕ
fd_eventfd = 6

abbrev pub fd_timerfd : ℕ
fd_timerfd = 7

abbrev pub fd_pty_master : ℕ
fd_pty_master = 8

abbrev pub fd_pty_slave : ℕ
fd_pty_slave = 9

abbrev pub fd_epoll : ℕ
fd_epoll = 10

-- `private_data`: a null pointer, a number of a device, or a pointer into one of the tables, for a
-- socket with its side.
pub data Target : Type 0 where
  no_data : Target
  device pipe pty eventfd timerfd epoll : ℕ → Target
  sock : ℕ → ℕ → Target

-- `struct file_desc`, without the pointers `data` and `name`.
pub record FileDesc : Type 0 where
  pub in_use : Bool
  pub fd_type : ℕ
  pub flags : ℕ
  pub offset : ℕ
  pub size : ℕ
  pub boot_path : List ℕ
  pub private_data : Target
  pub vnode : Option ℕ
  pub shared_offset : Option ℕ
  pub input_state : Option ℕ
  pub input_seq : ℕ

-- `struct open_desc_state`
pub record OpenDesc : Type 0 where
  pub offset : ℕ
  pub refs : ℕ
  pub used : Bool

-- `struct pipe_state`
pub record Pipe : Type 0 where
  pub bytes : Ring
  pub readers : ℕ
  pub writers : ℕ

-- The counts of `struct unix_socket_state`.
pub record SocketRefs : Type 0 where
  pub refs : ℕ
  pub side_refs : ℕ → ℕ

-- The counts of `struct epoll_state_k`.
pub record EpollRefs : Type 0 where
  pub used : Bool
  pub refs : ℕ

pub record Files : Type 0 where
  pub files : ℕ → FileDesc
  pub open_descs : ℕ → OpenDesc
  pub input_states : ℕ → OpenState
  pub pipes : ℕ → Pipe
  pub pty_slots : ℕ → Pty
  pub sockets : ℕ → SocketRefs
  pub epolls : ℕ → EpollRefs

-- A result that is not negative, or the negative number `-n`.
pub data Returned : Type 0 where
  value failed : ℕ → Returned

abbrev pub word32 : ℕ
word32 = 2 ^ 32
