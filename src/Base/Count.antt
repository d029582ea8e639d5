-- ===== src/Base/Count.antt =====
-- Counting the indices below a bound that pass a test.
use Prim.Native.Nat.{ℕ, zero, suc, ◌+◌, ◌-◌, ◌≤◌, ◌<◌, min}
use mathlib.Core.Path.{◌≡◌, refl}
use mathlib.Core.Bool.{Bool, true, false, ◌&&◌}
use native.Mathlib.Omega.{arith}
use yabro_os.Base.Tests.{ltb, leb, ◌==◌, if◌then◌else◌}

unfoldable pub count_below : (ℕ → Bool) → ℕ → ℕ
count_below f zero = 0
count_below f (suc n) = count_below f n + (if f n then 1 else 0)

module _ (f g : ℕ → Bool) (m : ℕ) (h : (q : ℕ) → g q ≡ (if q == m then false else f q)) where
  count_same : (n : ℕ) → n ≤ m → count_below f n ≡ count_below g n
  unfolding count_below
  count_same zero le = refl
  count_same (suc n) le = ground (arith, h n, count_same n)

  -- Taking one index out lowers the count by one.
  pub count_taken : (n : ℕ) → m < n → f m ≡ true → count_below f n ≡ count_below g n + 1
  unfolding count_below
  count_taken zero lt e = absurd (omega arith)
  count_taken (suc n) lt e = ground (arith, h n, count_same n, count_taken n)

-- Putting one index in raises it by one.
pub count_put :
    (f g : ℕ → Bool) (m : ℕ)
    → ((q : ℕ) → g q ≡ (if q == m then true else f q))
    → (n : ℕ) → m < n
    → f m ≡ false
    → count_below g n ≡ count_below f n + 1
count_put f g m h n lt e = count_taken g f m (λ q. ground (arith, h q)) n lt (ground (arith, h m))

pub count_ext :
    (f g : ℕ → Bool) → ((q : ℕ) → g q ≡ f q) → (n : ℕ) → count_below g n ≡ count_below f n
unfolding count_below
count_ext f g h zero = refl
count_ext f g h (suc n) = ground (arith, h n, count_ext f g h n)

pub count_none : (f : ℕ → Bool) (n : ℕ) → ((q : ℕ) → q < n → f q ≡ false) → count_below f n ≡ 0
unfolding count_below
count_none f zero h = refl
count_none f (suc n) h = ground (arith, h n, count_none f n (λ q lt. h q (omega arith)))

-- Of an interval of indices.
pub count_interval :
    (f : ℕ → Bool) (lo hi : ℕ)
    → lo ≤ hi
    → ((q : ℕ) → f q ≡ (leb lo q && ltb q hi))
    → (n : ℕ) → count_below f n ≡ min n hi - lo
unfolding count_below
count_interval f lo hi le h zero = omega arith
count_interval f lo hi le h (suc n) = ground (arith, h n, count_interval f lo hi le h n)
