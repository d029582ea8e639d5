-- ===== src/Kernel/Files/Refs.antt =====
-- src/kernel/main.c: the counts of references to what descriptors share.
use yabro_os.Base.{ℕ, ◌+◌, ◌-◌, ◌%◌, true, ◌&&◌, ltb, ◌==◌, if◌then◌else◌, update}
use yabro_os.Kernel.Tty.{Pty}
use yabro_os.Kernel.Files.{
  fd_pipe_r, fd_pipe_w, fd_socket, fd_pty_master, fd_pty_slave, Target, FileDesc, Pipe, SocketRefs,
  EpollRefs, Files, word32, no_data, device, pipe, pty, eventfd, timerfd, epoll, sock,
}

-- `epoll_retain_file`, for the state `epoll_state_for_file` finds.
unfoldable pub epoll_retain_file : FileDesc → (ℕ → EpollRefs) → ℕ → EpollRefs
epoll_retain_file f epolls = elim f.private_data [
  | epoll i ↦
      if (epolls i).used && ltb (epolls i).refs (word32 - 1)
      then update epolls i (record (epolls i) { refs = (epolls i).refs + 1 })
      else epolls
  | _ ↦ epolls
]

unfoldable pub retain_pipe : ℕ → Pipe → Pipe
retain_pipe fd_type p =
    if fd_type == fd_pipe_r
    then record p { readers = (p.readers + 1) % word32 }
    else if fd_type == fd_pipe_w
    then record p { writers = (p.writers + 1) % word32 }
    else p

unfoldable pub retain_pty : ℕ → Pty → Pty
retain_pty fd_type p =
    if fd_type == fd_pty_master
    then record p { master_refs = (p.master_refs + 1) % word32; master_open = true }
    else (if fd_type == fd_pty_slave
        then record p { slave_refs = (p.slave_refs + 1) % word32; slave_open = true }
        else p)

unfoldable pub retain_socket : ℕ → ℕ → SocketRefs → SocketRefs
retain_socket fd_type side k =
    if fd_type == fd_socket
    then record {
      refs = (k.refs + 1) % word32;
      side_refs = update k.side_refs side ((k.side_refs side + 1) % word32);
    }
    else k

-- The end of a pipe, a pseudo-terminal or a socket that a descriptor in use is.
unfoldable pub retain_endpoint : ℕ → Target → Files → Files
retain_endpoint t no_data s = s
retain_endpoint t (device i) s = s
retain_endpoint t (pipe i) s = record s { pipes = update s.pipes i (retain_pipe t (s.pipes i)) }
retain_endpoint t (pty i) s = record s {
  pty_slots = update s.pty_slots i (retain_pty t (s.pty_slots i));
}
retain_endpoint t (eventfd i) s = s
retain_endpoint t (timerfd i) s = s
retain_endpoint t (epoll i) s = s
retain_endpoint t (sock i side) s = record s {
  sockets = update s.sockets i (retain_socket t side (s.sockets i));
}
