-- ===== src/Kernel/Files/Tests.antt =====
-- A table with an open file, and the theorems about descriptors at it.
use yabro_os.Base.{
  ℕ, ◌<◌, ◌≤◌, ◌≡◌, ◌⊎◌, true, false, none, some, [], ltb, ◌==◌, if◌then◌else◌, pos,
}
use yabro_os.Kernel.Tty.{zero_pty, empty_ring}
use yabro_os.Kernel.Files.{Files, FileDesc, no_data, fd_file, value, failed, max_files}
use yabro_os.Kernel.Files.Calls.{is_free, used_fd, sys_dup_internal}
use yabro_os.Kernel.Files.Dup.{Dupped, sys_dup_internal-Dupped}

abbrev closed_fd : FileDesc
closed_fd = record {
  in_use = false;
  fd_type = 0;
  flags = 0;
  offset = 0;
  size = 0;
  boot_path = [];
  private_data = no_data;
  vnode = none;
  shared_offset = none;
  input_state = none;
  input_seq = 0;
}

-- The descriptors 0 and 1 are the same open file.
abbrev open_files : Files
open_files = record {
  files = λ i.
      if ltb i 2
      then record closed_fd {
        in_use = true;
        fd_type = fd_file;
        vnode = some 4;
        shared_offset = some 9;
      }
      else closed_fd;
  open_descs = λ i. record { offset = 0; refs = 2; used = i == 9 };
  input_states = λ i. record { used = false; refs = 0; kind = 0; seq = 0 };
  pipes = λ i. record { bytes = empty_ring; readers = 0; writers = 0 };
  pty_slots = λ i. zero_pty;
  sockets = λ i. record { refs = 0; side_refs = λ j. 0 };
  epolls = λ i. record { used = false; refs = 0 };
}

sys_dup_internal-Dupped_example :
    let (r, s') = sys_dup_internal (pos 1) 0 true open_files in
    ((r ≡ failed 9) × (used_fd open_files (pos 1) ≡ none) × (s' ≡ open_files))
    ⊎ ((r ≡ failed 24)
        × (s' ≡ open_files)
        × ((j : ℕ) → 0 ≤ j → j < max_files → is_free open_files j ≡ false))
    ⊎ ((old : ℕ) × (n : ℕ) × (r ≡ value n)
        × (used_fd open_files (pos 1) ≡ some old)
        × Dupped open_files s' old 0 n true)
sys_dup_internal-Dupped_example = sys_dup_internal-Dupped (pos 1) 0 true open_files
