-- ===== src/Kernel/Signal/Next.antt =====
-- src/kernel/main.c: which signal is delivered next.
use yabro_os.Base.{
  ℕ, zero, suc, ◌+◌, ◌<◌, ◌≤◌, ◌≡◌, refl, ◌⊎◌, inl, inr, Bool, true, false, none, some, arith,
  Bool-cases,
}
use yabro_os.Kernel.Task.{Task}
use yabro_os.Kernel.Signal.{is_deliverable, first_from, sig_next_deliverable}

-- The search gives the first index that passes the test, or there is none.
pub first_from_lem :
    (test : ℕ → Bool) (left i : ℕ)
    → ((first_from test left i ≡ none) × ((j : ℕ) → i ≤ j → j < i + left → test j ≡ false))
      ⊎ ((k : ℕ) × (first_from test left i ≡ some k)
          × (i ≤ k)
          × (k < i + left)
          × (test k ≡ true)
          × ((j : ℕ) → i ≤ j → j < k → test j ≡ false))
unfolding first_from
first_from_lem test zero i = inl (refl, λ j lo hi. absurd (omega arith))
first_from_lem test (suc left) i = elim (Bool-cases (test i)) [
  | inl passed ↦
      inr (i, rw passed refl, omega arith, omega arith, passed, λ j lo hi. absurd (omega arith))
  | inr failed ↦ elim (first_from_lem test left (i + 1)) [
    | inl (e, f) ↦ inl (rw failed e, λ j lo hi. ground (arith, f j))
    | inr (k, e, lo, hi, t, f) ↦
        inr (k, rw failed e, omega arith, omega arith, t, λ j l h. ground (arith, f j))
  ]
]

-- `sig_next_deliverable` gives the lowest of the signals 1 to 64 that is pending and not blocked,
-- or none when each of them is blocked or not pending.
pub sig_next_deliverable_lem :
    (t : Task)
    → ((sig_next_deliverable t ≡ none) × ((s : ℕ) → 1 ≤ s → s ≤ 64 → is_deliverable t s ≡ false))
      ⊎ ((sig : ℕ) × (sig_next_deliverable t ≡ some sig)
          × (1 ≤ sig)
          × (sig ≤ 64)
          × (is_deliverable t sig ≡ true)
          × ((s : ℕ) → 1 ≤ s → s < sig → is_deliverable t s ≡ false))
unfolding sig_next_deliverable
sig_next_deliverable_lem t = elim (first_from_lem (is_deliverable t) 64 1) [
  | inl (e, f) ↦ inl (e, λ s lo hi. f s lo (omega arith))
  | inr (k, e, lo, hi, d, f) ↦ inr (k, e, lo, omega arith, d, f)
]
