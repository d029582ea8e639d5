-- ===== src/Kernel/Files/Dup.antt =====
-- src/kernel/main.c: what a duplicate of a descriptor is.
use yabro_os.Base.{
  ℕ, ◌+◌, ◌-◌, ◌%◌, ◌<◌, ◌≤◌, ◌≡◌, ◌≢◌, refl, ap, ◌∙◌, ◌⊎◌, inl, inr, Bool, true, false, Option,
  none, some, ◌==◌, if◌then◌else◌, set_flag, clear_flag, arith, ℤ, ne→==, Option-cases,
}
use yabro_os.Kernel.Signal.{first_from}
use yabro_os.Kernel.Signal.Next.{first_from_lem}
use yabro_os.Kernel.Files.Offsets.{fd_offset_get-fd_offset_set, used_fd_used}
use yabro_os.Kernel.Files.{
  Files, FileDesc, Target, no_data, device, pipe, pty, eventfd, timerfd, epoll, sock, value, failed,
  max_files, cloexec, word32,
}
use yabro_os.Kernel.Files.Endpoint.{EndpointRef, retain_endpoint-EndpointRef}
use yabro_os.Kernel.Files.Refs.{retain_endpoint}
use yabro_os.Kernel.Files.Calls.{
  is_free, retain_open_offset, fd_copy_scalar, fd_retain_endpoint_ref, set_cloexec, used_fd,
  fd_offset_get, fd_offset_set, dup_to, dup_used, sys_dup_internal,
}

retain_endpoint-files :
    (t : ℕ) (d : Target) (s : Files)
    → ((retain_endpoint t d s).files ≡ s.files)
      × ((retain_endpoint t d s).open_descs ≡ s.open_descs)
unfolding retain_endpoint
retain_endpoint-files t no_data s = (refl, refl)
retain_endpoint-files t (device i) s = (refl, refl)
retain_endpoint-files t (pipe i) s = (refl, refl)
retain_endpoint-files t (pty i) s = (refl, refl)
retain_endpoint-files t (eventfd i) s = (refl, refl)
retain_endpoint-files t (timerfd i) s = (refl, refl)
retain_endpoint-files t (epoll i) s = (refl, refl)
retain_endpoint-files t (sock i side) s = (refl, refl)

retain_ref-files :
    (fd : ℕ) (s : Files)
    → ((fd_retain_endpoint_ref fd s).files ≡ s.files)
      × ((fd_retain_endpoint_ref fd s).open_descs ≡ s.open_descs)
unfolding fd_retain_endpoint_ref
retain_ref-files fd s =
    ground (arith, retain_endpoint-files (s.files fd).fd_type (s.files fd).private_data s)

-- The flags of a duplicate.
pub dup_flags : Bool → ℕ → ℕ
dup_flags set flags =
    let plain = clear_flag cloexec flags in if set then set_flag cloexec plain else plain

-- `n` is the lowest free descriptor from `minfd` on, and a duplicate of `old` but for its flags;
-- the other descriptors are as before; a position that the two share has one reference more, and
-- what one of the two makes it is what the other finds; so has the end of a pipe, a pseudo-terminal
-- or a socket that they are.
pub record Dupped (s s' : Files) (old minfd n : ℕ) (set : Bool) : Type 0 where
  pub from : minfd ≤ n
  pub below : n < max_files
  pub free : is_free s n ≡ true
  pub lowest : (j : ℕ) → minfd ≤ j → j < n → is_free s j ≡ false
  pub copy : s'.files n ≡ record (s.files old) { flags = dup_flags set (s.files old).flags }
  pub others : (j : ℕ) → n ≢ j → s'.files j ≡ s.files j
  pub shared :
      (i : ℕ)
      → (s.files old).shared_offset ≡ some i
      → s'.open_descs i ≡ record (s.open_descs i) { refs = ((s.open_descs i).refs + 1) % word32 }
  pub position :
      (i : ℕ)
      → (s.files old).shared_offset ≡ some i
      → (v : ℕ)
      → (fd_offset_get (fd_offset_set n v s') old ≡ v)
        × (fd_offset_get (fd_offset_set old v s') n ≡ v)
  pub endpoint : EndpointRef s s' (s.files old).fd_type (s.files old).private_data

module _ (s : Files) (old n : ℕ) (set : Bool) where
  abbrev after : Files
  after = fd_retain_endpoint_ref n (set_cloexec n set (fd_copy_scalar n old s))

  after-copy : after.files n ≡ record (s.files old) { flags = dup_flags set (s.files old).flags }
  unfolding set_cloexec fd_copy_scalar dup_flags
  after-copy =
      let same : (n == n) ≡ true = ground arith in
      let kept = (retain_ref-files n (set_cloexec n set (fd_copy_scalar n old s))).0 in
      rw (kept, same) refl

  after-others : (j : ℕ) → n ≢ j → after.files j ≡ s.files j
  unfolding set_cloexec fd_copy_scalar
  after-others j ne =
      let kept = (retain_ref-files n (set_cloexec n set (fd_copy_scalar n old s))).0 in
      rw (kept, ne→== n j ne) refl

  after-shared :
      (i : ℕ)
      → (s.files old).shared_offset ≡ some i
      → after.open_descs i ≡ record (s.open_descs i) { refs = ((s.open_descs i).refs + 1) % word32 }
  unfolding set_cloexec fd_copy_scalar retain_open_offset
  after-shared i e =
      let same : (i == i) ≡ true = ground arith in
      let kept = (retain_ref-files n (set_cloexec n set (fd_copy_scalar n old s))).1 in
      rw (kept, e, same) refl

  after-retain_endpoint :
      (s.files old).in_use ≡ true
      → after
        ≡ retain_endpoint
            (s.files old).fd_type
            (s.files old).private_data
            (set_cloexec n set (fd_copy_scalar n old s))
  unfolding fd_retain_endpoint_ref set_cloexec fd_copy_scalar
  after-retain_endpoint used = let same : (n == n) ≡ true = ground arith in rw (same, used) refl

  after-endpoint :
      (s.files old).in_use ≡ true
      → EndpointRef s after (s.files old).fd_type (s.files old).private_data
  unfolding set_cloexec fd_copy_scalar
  after-endpoint used = rw (after-retain_endpoint used) (
      retain_endpoint-EndpointRef (s.files old).fd_type (s.files old).private_data s
        (set_cloexec n set (fd_copy_scalar n old s)) refl refl refl)

  after-position :
      n ≢ old
      → (i : ℕ) → (s.files old).shared_offset ≡ some i
      → (v : ℕ)
      → (fd_offset_get (fd_offset_set n v after) old ≡ v)
        × (fd_offset_get (fd_offset_set old v after) n ≡ v)
  after-position apart i e v =
      let en : (after.files n).shared_offset ≡ some i =
        ap (λ (x : FileDesc). x.shared_offset) after-copy ∙ e in
      let eo : (after.files old).shared_offset ≡ some i =
        ap (λ (x : FileDesc). x.shared_offset) (after-others old apart) ∙ e in
      (
        fd_offset_get-fd_offset_set after n old i v en eo,
        fd_offset_get-fd_offset_set after old n i v eo en,
      )

dup_fails :
    (oldfd : ℤ) (minfd : ℕ) (set : Bool) (s : Files)
    → used_fd s oldfd ≡ none
    → sys_dup_internal oldfd minfd set s ≡ (failed 9, s)
unfolding sys_dup_internal
dup_fails oldfd minfd set s e = ap (dup_used minfd set s) e

dup_goes :
    (oldfd : ℤ) (minfd : ℕ) (set : Bool) (s : Files) (old : ℕ) (o : Option ℕ)
    → used_fd s oldfd ≡ some old
    → first_from (is_free s) (max_files - minfd) minfd ≡ o
    → sys_dup_internal oldfd minfd set s ≡ dup_to old set s o
unfolding sys_dup_internal
dup_goes oldfd minfd set s old o e f = ap (dup_used minfd set s) e ∙ ap (dup_to old set s) f

-- `sys_dup_internal`, from a lowest number that is not negative, fails with -EBADF for a descriptor
-- that is not in use and with -EMFILE when no descriptor from there on is free, and then changes
-- nothing; else the result is the lowest free descriptor from there on, now a duplicate whose flag
-- close-on-exec is as asked; a position that it shares has one reference more, and what either of
-- the two descriptors makes it is what the other finds; and the end of a pipe, a pseudo-terminal or
-- a socket that it is has one reference more.
pub sys_dup_internal-Dupped :
    (oldfd : ℤ) (minfd : ℕ) (set : Bool) (s : Files)
    → let (r, s') = sys_dup_internal oldfd minfd set s in
      ((r ≡ failed 9) × (used_fd s oldfd ≡ none) × (s' ≡ s))
      ⊎ ((r ≡ failed 24) × (s' ≡ s) × ((j : ℕ) → minfd ≤ j → j < max_files → is_free s j ≡ false))
      ⊎ ((old : ℕ) × (n : ℕ) × (r ≡ value n)
          × (used_fd s oldfd ≡ some old)
          × Dupped s s' old minfd n set)
unfolding dup_to
sys_dup_internal-Dupped oldfd minfd set s = elim (Option-cases (used_fd s oldfd)) [
  | inl e ↦ rw (dup_fails oldfd minfd set s e) (inl (refl, e, refl))
  | inr (old, e) ↦ elim (first_from_lem (is_free s) (max_files - minfd) minfd) [
    | inl (f, full) ↦
        rw (dup_goes oldfd minfd set s old none e f)
          (inr (inl (refl, refl, λ j lo hi. full j lo (omega arith))))
    | inr (n, f, lo, hi, free, low) ↦ rw (dup_goes oldfd minfd set s old (some n) e f) (
        inr (
          inr (
            old,
            n,
            refl,
            e,
            record {
              from = lo;
              below = omega arith;
              free = free;
              lowest = low;
              copy = after-copy s old n set;
              others = after-others s old n set;
              shared = after-shared s old n set;
              position = after-position s old n set (apart old n e free);
              endpoint = after-endpoint s old n set (used_fd_used s oldfd old e);
            },
          )))
  ]
]
  where
    apart : (old n : ℕ) → used_fd s oldfd ≡ some old → is_free s n ≡ true → n ≢ old
    apart old n e free same =
        let used = used_fd_used s oldfd old e in
        let used' : (s.files n).in_use ≡ true = rw same used in absurd (ground arith)
