-- ===== src/Base/Loop.antt =====
-- Counted loops: the rounds left and the index of the next one.
use Prim.Native.Nat.{ℕ, zero, suc, ◌+◌}
use mathlib.Core.Path.{◌≡◌, refl}
use mathlib.Core.Logic.{◌⊎◌, inl, inr}

-- The result of a C function: 0, or the negative number `-n`.
pub data Code : Type 0 where
  ok : Code
  err : ℕ → Code

pub Code-cases : (c : Code) → (c ≡ ok) ⊎ ((n : ℕ) × (c ≡ err n))
Code-cases ok = inl refl
Code-cases (err n) = inr (n, refl)

-- `step` at `first`, `first + 1` and so on, `left` times.
unfoldable pub for_range {ℓ} : {State : Type ℓ} → ℕ → ℕ → (ℕ → State → State) → State → State
for_range zero first step = λ state. state
for_range (suc left) first step = λ state. for_range left (first + 1) step (step first state)

-- The same with an early return: a round that does not end with `ok` ends the loop.
unfoldable pub for_each {ℓ} : {S : Type ℓ} → ℕ → ℕ → (ℕ → S → Code × S) → S → Code × S
for_each zero i body s = (ok, s)
for_each (suc n) i body s =
    let r = body i s in let rest = for_each n (i + 1) body r.1 in elim r.0 [ ok ↦ rest | err c ↦ r ]
