-- ===== src/Base/Bits.antt =====
-- Bits of machine words. `(w >> k) & 1`, `w |= 1 << k` and `w &= ~(1 << k)` are written by division,
-- so that the arithmetic tactics read them at every numeral `k`; the laws hold at every `k`.
use Prim.Native.Nat.{ℕ, zero, suc, ◌+◌, ◌-◌, ◌*◌, ◌/◌, ◌%◌, ◌^◌, ◌≤◌}
use mathlib.Core.Path.{◌≡◌, refl, sym, ap, ◌∙◌}
use mathlib.Core.Bool.{Bool, true, false}
use native.Mathlib.Nat.{pow-succ', div-div-eq-div-mul}
use native.Mathlib.Omega.{arith}
use yabro_os.Base.Tests.{◌==◌, if◌then◌else◌}

-- `(w >> k) & 1`
unfoldable pub has : ℕ → ℕ → Bool
has k w = w / 2 ^ k % 2 == 1

-- `w | (1 << k)`
unfoldable pub set_flag : ℕ → ℕ → ℕ
set_flag k w = if has k w then w else w + 2 ^ k

-- `w & ~(1 << k)`
unfoldable pub clear_flag : ℕ → ℕ → ℕ
clear_flag k w = if has k w then w - 2 ^ k else w

has-suc : (k w : ℕ) → has (suc k) w ≡ has k (w / 2)
unfolding has
has-suc k w = ap (λ (t : ℕ). t % 2 == 1) (ap (λ (t : ℕ). w / t) (pow-succ' 2 k) ∙ halves)
  where
    halves : w / (2 * 2 ^ k) ≡ w / 2 / 2 ^ k
    halves = sym (div-div-eq-div-mul w 2 (2 ^ k))

has-zero : (w : ℕ) → has 0 w ≡ (w % 2 == 1)
unfolding has
has-zero w = ap (λ (t : ℕ). t % 2 == 1) (omega arith)

has-pow-le : (k w : ℕ) → has k w ≡ true → 2 ^ k ≤ w
has-pow-le zero w h = ground (arith, has-zero w)
has-pow-le (suc k) w h = omega (arith, has-pow-le k (w / 2) (sym (has-suc k w) ∙ h), pow-succ' 2 k)

set_flag-suc : (k w : ℕ) → set_flag (suc k) w ≡ w % 2 + 2 * set_flag k (w / 2)
unfolding set_flag
set_flag-suc k w = ground (arith, has-suc k w, pow-succ' 2 k)

clear_flag-suc : (k w : ℕ) → clear_flag (suc k) w ≡ w % 2 + 2 * clear_flag k (w / 2)
unfolding clear_flag
clear_flag-suc k w = ground (arith, has-suc k w, pow-succ' 2 k, has-pow-le k (w / 2))

half_of_double : (a b : ℕ) → (a % 2 + 2 * b) / 2 ≡ b
half_of_double a b = omega arith

set_flag-half : (w : ℕ) → set_flag 0 w / 2 ≡ w / 2
unfolding set_flag has
set_flag-half w = ground arith

clear_flag-half : (w : ℕ) → clear_flag 0 w / 2 ≡ w / 2
unfolding clear_flag has
clear_flag-half w = ground arith

suc-==-suc : (k j : ℕ) → (suc k == suc j) ≡ (k == j)
suc-==-suc k j = ground arith

-- Bit `j` of `w | (1 << k)`.
pub has-set_flag : (j k w : ℕ) → has j (set_flag k w) ≡ (if k == j then true else has j w)
has-set_flag zero zero w = unfold has set_flag in ground arith
has-set_flag zero (suc k) w =
    ground (arith, has-zero w, has-zero (set_flag (suc k) w), set_flag-suc k w)
has-set_flag (suc j) zero w = rw (has-suc, set_flag-half, ← has-suc) (ground arith)
has-set_flag (suc j) (suc k) w =
    rw (has-suc, set_flag-suc, half_of_double, has-set_flag j k (w / 2), suc-==-suc)
      (ground (arith, has-suc j w))

-- Bit `j` of `w & ~(1 << k)`.
pub has-clear_flag : (j k w : ℕ) → has j (clear_flag k w) ≡ (if k == j then false else has j w)
has-clear_flag zero zero w = unfold has clear_flag in ground arith
has-clear_flag zero (suc k) w =
    ground (arith, has-zero w, has-zero (clear_flag (suc k) w), clear_flag-suc k w)
has-clear_flag (suc j) zero w = rw (has-suc, clear_flag-half, ← has-suc) (ground arith)
has-clear_flag (suc j) (suc k) w =
    rw (has-suc, clear_flag-suc, half_of_double, has-clear_flag j k (w / 2), suc-==-suc)
      (ground (arith, has-suc j w))

-- The zero word has no bit.
pub has_empty : (k : ℕ) → has k 0 ≡ false
has_empty zero = unfold has in refl
has_empty (suc k) = has-suc k 0 ∙ has_empty k
