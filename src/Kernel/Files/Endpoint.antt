-- ===== src/Kernel/Files/Endpoint.antt =====
-- src/kernel/main.c: what the reference that a duplicate holds to the end of a pipe, a
-- pseudo-terminal or a socket is.
use yabro_os.Base.{ℕ, ◌+◌, ◌%◌, ◌^◌, ◌≡◌, true, ◌==◌, if◌then◌else◌, arith}
use yabro_os.Kernel.Files.{Files, Target, no_data, device, pipe, pty, eventfd, timerfd, epoll, sock}
use yabro_os.Kernel.Files.Refs.{retain_endpoint, retain_pipe, retain_pty, retain_socket}

-- One reference more, in 32 bits.
pub one_more : ℕ → ℕ
one_more n = (n + 1) % 2 ^ 32

-- The end that a descriptor of the type `t` is has one reference more: of a pipe the reading end (the
-- type 2) or the writing end (3), of a pseudo-terminal the master (8) or the slave (9), which is
-- open, and of a socket (5) the socket and its side. For any other target no pipe changes.
pub EndpointRef : Files → Files → ℕ → Target → Type 0
EndpointRef s s' t (pipe i) =
    ((s'.pipes i).readers ≡ (if t == 2 then one_more (s.pipes i).readers else (s.pipes i).readers))
    × ((s'.pipes i).writers
        ≡ (if t == 3 then one_more (s.pipes i).writers else (s.pipes i).writers))
EndpointRef s s' t (pty i) =
    let p = s.pty_slots i in
    let p' = s'.pty_slots i in
    (p'.master_refs ≡ (if t == 8 then one_more p.master_refs else p.master_refs))
    × (p'.master_open ≡ (if t == 8 then true else p.master_open))
    × (p'.slave_refs ≡ (if t == 9 then one_more p.slave_refs else p.slave_refs))
    × (p'.slave_open ≡ (if t == 9 then true else p.slave_open))
EndpointRef s s' t (sock i side) =
    let k = s.sockets i in
    let k' = s'.sockets i in
    (k'.refs ≡ (if t == 5 then one_more k.refs else k.refs))
    × (k'.side_refs side ≡ (if t == 5 then one_more (k.side_refs side) else k.side_refs side))
EndpointRef s s' t no_data = s'.pipes ≡ s.pipes
EndpointRef s s' t (device i) = s'.pipes ≡ s.pipes
EndpointRef s s' t (eventfd i) = s'.pipes ≡ s.pipes
EndpointRef s s' t (timerfd i) = s'.pipes ≡ s.pipes
EndpointRef s s' t (epoll i) = s'.pipes ≡ s.pipes

-- The end is retained in a state that has the pipes, pseudo-terminals and sockets of `s`.
pub retain_endpoint-EndpointRef :
    (t : ℕ) (d : Target) (s q : Files)
    → q.pipes ≡ s.pipes
    → q.pty_slots ≡ s.pty_slots
    → q.sockets ≡ s.sockets
    → EndpointRef s (retain_endpoint t d q) t d
unfolding retain_endpoint retain_pipe retain_pty retain_socket EndpointRef one_more
retain_endpoint-EndpointRef t no_data s q p y k = p
retain_endpoint-EndpointRef t (device i) s q p y k = p
retain_endpoint-EndpointRef t (pipe i) s q p y k =
    let same : (i == i) ≡ true = ground arith in rw (same, p) (ground arith, ground arith)
retain_endpoint-EndpointRef t (pty i) s q p y k =
    let same : (i == i) ≡ true = ground arith in
    rw (same, y) (ground arith, ground arith, ground arith, ground arith)
retain_endpoint-EndpointRef t (eventfd i) s q p y k = p
retain_endpoint-EndpointRef t (timerfd i) s q p y k = p
retain_endpoint-EndpointRef t (epoll i) s q p y k = p
retain_endpoint-EndpointRef t (sock i side) s q p y k =
    let same : (i == i) ≡ true = ground arith in rw (same, k) (ground arith, ground arith)
