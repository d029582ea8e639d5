-- ===== src/Kernel/Signal/Pending.antt =====
-- src/kernel/main.c: the set of pending signals after one is added or taken out.
use yabro_os.Base.{
  Bool, has, ℕ, ◌-◌, ◌/◌, ◌%◌, ◌≤◌, ◌≡◌, refl, true, false, ◌==◌, if◌then◌else◌, arith,
  has-set_flag, has-clear_flag,
}
use yabro_os.Kernel.Task.{Task}
use yabro_os.Kernel.Signal.{sig_is_pending, pend, sig_clear_pending}

same_bit : (s j : ℕ) → 1 ≤ s → 1 ≤ j → (s - 1 == j - 1) ≡ (s == j)
same_bit s j a b = ground arith

pub is_pending-pend :
    (t : Task) (s j : ℕ)
    → 1 ≤ s
    → s ≤ 64
    → 1 ≤ j
    → j ≤ 64
    → sig_is_pending (pend t s) j ≡ (if s == j then true else sig_is_pending t j)
unfolding sig_is_pending pend
is_pending-pend t s j a b c d =
    let word_s : (s - 1) / 64 ≡ 0 = omega arith in
    let word_j : (j - 1) / 64 ≡ 0 = omega arith in
    let bit_s : (s - 1) % 64 ≡ s - 1 = omega arith in
    let bit_j : (j - 1) % 64 ≡ j - 1 = omega arith in
    rw (word_s, word_j, bit_s, bit_j, has-set_flag (j - 1) (s - 1), same_bit s j a c) refl

pub is_pending-clear :
    (t : Task) (s j : ℕ)
    → 1 ≤ s
    → s ≤ 64
    → 1 ≤ j
    → j ≤ 64
    → sig_is_pending (sig_clear_pending t s) j ≡ (if s == j then false else sig_is_pending t j)
unfolding sig_is_pending sig_clear_pending
is_pending-clear t s j a b c d =
    let word_s : (s - 1) / 64 ≡ 0 = omega arith in
    let word_j : (j - 1) / 64 ≡ 0 = omega arith in
    let bit_s : (s - 1) % 64 ≡ s - 1 = omega arith in
    let bit_j : (j - 1) % 64 ≡ j - 1 = omega arith in
    rw (word_s, word_j, bit_s, bit_j, has-clear_flag (j - 1) (s - 1), same_bit s j a c) refl

-- The signal is in the set of pending signals, whose lowest bit is the signal 1.
unfoldable pub listed : Task → ℕ → Bool
listed t s = has (s - 1) (t.sig_pending 0)

is_pending-listed : (t : Task) (s : ℕ) → 1 ≤ s → s ≤ 64 → sig_is_pending t s ≡ listed t s
unfolding sig_is_pending listed
is_pending-listed t s lo hi =
    let word : (s - 1) / 64 ≡ 0 = omega arith in
    let bit : (s - 1) % 64 ≡ s - 1 = omega arith in rw (word, bit) refl

module _ (t : Task) (s j : ℕ) (a : 1 ≤ s) (b : s ≤ 64) (c : 1 ≤ j) (d : j ≤ 64) where
  pub listed-pend : listed (pend t s) j ≡ (if s == j then true else listed t j)
  listed-pend =
      rw (← is_pending-listed (pend t s) j c d, ← is_pending-listed t j c d)
        (is_pending-pend t s j a b c d)

  pub listed-clear : listed (sig_clear_pending t s) j ≡ (if s == j then false else listed t j)
  listed-clear =
      rw (← is_pending-listed (sig_clear_pending t s) j c d, ← is_pending-listed t j c d)
        (is_pending-clear t s j a b c d)
