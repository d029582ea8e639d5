-- ===== src/Kernel/Files/Offsets.antt =====
-- src/kernel/main.c: the position that descriptors share.
use yabro_os.Base.{ℕ, ◌≡◌, refl, true, some, ◌==◌, update, arith, ℤ, pos, negsuc}
use yabro_os.Kernel.Files.{Files}
use yabro_os.Kernel.Files.Calls.{fd_offset_get, fd_offset_set, used_fd}

pub fd_offset_get-fd_offset_set :
    (s : Files) (a b i v : ℕ)
    → (s.files a).shared_offset ≡ some i
    → (s.files b).shared_offset ≡ some i
    → fd_offset_get (fd_offset_set a v s) b ≡ v
unfolding fd_offset_get fd_offset_set
fd_offset_get-fd_offset_set s a b i v ea eb =
    let same : (i == i) ≡ true = ground arith in
    let shared : (update s.files a (record (s.files a) { offset = v }) b).shared_offset ≡ some i =
      ground (arith, ea, eb) in
    rw (fd_offset_get, shared, ea, same) refl

pub used_fd_used :
    (s : Files) (fd : ℤ) (old : ℕ) → used_fd s fd ≡ some old → (s.files old).in_use ≡ true
unfolding used_fd
used_fd_used s (pos n) old h = ground (arith, h)
used_fd_used s (negsuc n) old h = absurd (ground (arith, h))
