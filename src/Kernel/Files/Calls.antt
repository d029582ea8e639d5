-- ===== src/Kernel/Files/Calls.antt =====
-- src/kernel/main.c: the operations on the table of descriptors.
use yabro_os.Base.{
  ℕ, ◌+◌, ◌-◌, ◌%◌, Bool, true, false, ◌&&◌, not, Option, none, some, ltb, ◌==◌, if◌then◌else◌, has,
  set_flag, clear_flag, update, ℤ, pos, negsuc,
}
use yabro_os.Kernel.Input.{input_state_retain}
use yabro_os.Kernel.Signal.{first_from}
use yabro_os.Kernel.Files.{
  max_files, cloexec, fd_epoll, OpenDesc, Files, Returned, word32, value, failed,
}
use yabro_os.Kernel.Files.Refs.{epoll_retain_file, retain_endpoint}

abbrev pub is_free : Files → ℕ → Bool
is_free s i = not (s.files i).in_use

-- `none` is the return of -1.
unfoldable pub find_free_fd : Files → Option ℕ
find_free_fd s = first_from (is_free s) max_files 0

-- The place in `open_descs` that `&open_descs[i].offset` points to.
unfoldable pub alloc_open_offset : Files → Option ℕ × Files
alloc_open_offset s = elim (first_from (λ i. not (s.open_descs i).used) max_files 0) [
  | none ↦ (none, s)
  | some i ↦ (
    some i,
    record s { open_descs = update s.open_descs i (record { offset = 0; refs = 1; used = true }) },
  )
]

unfoldable pub retain_open_offset : Option ℕ → (ℕ → OpenDesc) → ℕ → OpenDesc
retain_open_offset none descs = descs
retain_open_offset (some i) descs =
    update descs i (record (descs i) { refs = ((descs i).refs + 1) % word32 })

unfoldable pub release_open_offset : Option ℕ → (ℕ → OpenDesc) → ℕ → OpenDesc
release_open_offset none descs = descs
release_open_offset (some i) descs =
    let d = descs i in
    if d.refs == 0
    then descs
    else update descs i
        (record d { refs = d.refs - 1; used = if d.refs == 1 then false else d.used })

unfoldable pub fd_offset_get : Files → ℕ → ℕ
fd_offset_get s fd = elim (s.files fd).shared_offset [
  | none ↦ (s.files fd).offset
  | some i ↦ (s.open_descs i).offset
]

abbrev pub set_offset : Option ℕ → ℕ → (ℕ → OpenDesc) → ℕ → OpenDesc
set_offset none v descs = descs
set_offset (some i) v descs = update descs i (record (descs i) { offset = v })

unfoldable pub fd_offset_set : ℕ → ℕ → Files → Files
fd_offset_set fd v s = record s {
  files = update s.files fd (record (s.files fd) { offset = v });
  open_descs = set_offset (s.files fd).shared_offset v s.open_descs;
}

unfoldable pub fd_drop_resources : ℕ → Files → Files
fd_drop_resources fd s = record s {
  files = update s.files fd (record (s.files fd) { shared_offset = none });
  open_descs = release_open_offset (s.files fd).shared_offset s.open_descs;
}

-- `fd_copy_scalar(&files[dst], &files[src])`
unfoldable pub fd_copy_scalar : ℕ → ℕ → Files → Files
fd_copy_scalar dst src s =
    let f = s.files src in
    record s {
      files = update s.files dst f;
      open_descs = retain_open_offset f.shared_offset s.open_descs;
      input_states = input_state_retain s.input_states f.input_state;
      epolls = if f.in_use && f.fd_type == fd_epoll then epoll_retain_file f s.epolls else s.epolls;
    }

unfoldable pub fd_retain_endpoint_ref : ℕ → Files → Files
fd_retain_endpoint_ref fd s =
    let f = s.files fd in if f.in_use then retain_endpoint f.fd_type f.private_data s else s

-- `files[fd].flags &= ~0x80000; if(set) files[fd].flags |= 0x80000;`
unfoldable pub set_cloexec : ℕ → Bool → Files → Files
set_cloexec fd set s =
    let f = s.files fd in
    let plain = clear_flag cloexec f.flags in
    record s {
      files =
          update s.files fd (record f { flags = if set then set_flag cloexec plain else plain });
    }

-- `fd<0||fd>=MAX_FILES||!files[fd].in_use` gives `none`.
unfoldable pub used_fd : Files → ℤ → Option ℕ
used_fd s (negsuc n) = none
used_fd s (pos n) = if ltb n max_files && (s.files n).in_use then some n else none

-- From the search on.
unfoldable pub dup_to : ℕ → Bool → Files → Option ℕ → Returned × Files
dup_to old cloexec_set s none = (failed 24, s)
dup_to old cloexec_set s (some n) =
    (value n, fd_retain_endpoint_ref n (set_cloexec n cloexec_set (fd_copy_scalar n old s)))

-- From the test of the descriptor on.
abbrev pub dup_used : ℕ → Bool → Files → Option ℕ → Returned × Files
dup_used minfd cloexec_set s none = (failed 9, s)
dup_used minfd cloexec_set s (some old) =
    dup_to old cloexec_set s (first_from (is_free s) (max_files - minfd) minfd)

-- For a `minfd` that is not negative.
unfoldable pub sys_dup_internal : ℤ → ℕ → Bool → Files → Returned × Files
sys_dup_internal oldfd minfd cloexec_set s = dup_used minfd cloexec_set s (used_fd s oldfd)

unfoldable pub sys_dup : ℤ → Files → Returned × Files
sys_dup oldfd s = sys_dup_internal oldfd 0 false s

-- For a number `arg` below 2 ^ 31.
unfoldable pub sys_fcntl : ℤ → ℕ → ℕ → Files → Returned × Files
sys_fcntl fd cmd arg s = elim (used_fd s fd) [
  | none ↦ (failed 9, s)
  | some n ↦
      let f = s.files n in
      if cmd == 0
      then sys_dup_internal fd arg false s
      else (if cmd == 1
          then (value (if has cloexec f.flags then 1 else 0), s)
          else (if cmd == 2
              then (value 0, set_cloexec n (arg % 2 == 1) s)
              else (if cmd == 3
                  then (value f.flags, s)
                  else (if cmd == 4
                      then (
                        value 0,
                        record s {
                          files = update s.files n (record f {
                            flags =
                                if has cloexec f.flags
                                then set_flag cloexec arg
                                else clear_flag cloexec arg;
                          });
                        },
                      )
                      else if cmd == 1030
                      then sys_dup_internal fd arg true s
                      else (failed 38, s)))))
]
