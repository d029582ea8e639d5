-- ===== src/Base/Int.antt =====
-- A C `int`, by its value.
use Prim.Native.Nat.{ℕ}
use mathlib.Core.Path.{◌≡◌, ap}
use mathlib.Core.Bool.{Bool, true, false}
use native.Mathlib.Omega.{arith}
use yabro_os.Base.Tests.{ltb, ◌==◌, ==→eq, ==_self}

-- `negsuc n` is `-1 - n`.
pub data ℤ : Type 0 where
  pos : ℕ → ℤ
  negsuc : ℕ → ℤ

infix 50 ◌==ℤ◌
abbrev pub ◌==ℤ◌ : ℤ → ℤ → Bool
pos a ==ℤ pos b = a == b
pos a ==ℤ negsuc b = false
negsuc a ==ℤ pos b = false
negsuc a ==ℤ negsuc b = a == b

pub ==ℤ→eq : (a b : ℤ) → (a ==ℤ b) ≡ true → a ≡ b
==ℤ→eq (pos a) (pos b) h = ap pos (==→eq a b h)
==ℤ→eq (pos a) (negsuc b) h = absurd (ground arith)
==ℤ→eq (negsuc a) (pos b) h = absurd (ground arith)
==ℤ→eq (negsuc a) (negsuc b) h = ap negsuc (==→eq a b h)

pub ==ℤ_self : (a : ℤ) → (a ==ℤ a) ≡ true
==ℤ_self (pos a) = ==_self a
==ℤ_self (negsuc a) = ==_self a

-- `i > 0`
abbrev pub is_positive : ℤ → Bool
is_positive (pos n) = ltb 0 n
is_positive (negsuc n) = false
