-- ===== src/Vfs/Decimal.antt =====
-- src/kernel/vfs.c: the text that `proc_put_u64` writes is the number in decimal.
use yabro_os.Base.{
  ◌≢◌, ◌≤◌, Bool, true, false, ◌&&◌, not, leb, ℕ, zero, suc, ◌+◌, ◌-◌, ◌*◌, ◌/◌, ◌%◌, ◌^◌, ◌<◌, ◌≡◌,
  refl, ap, ◌∙◌, inl, inr, List, [], ◌∷◌, ◌==◌, update, length, arith, Bool-cases,
}
use native.Mathlib.Nat.{pow-succ'}
use yabro_os.Vfs.Text.{Out, proc_putc, put_all, tmp_digits, proc_put_u64}

-- The number that a string of digits stands for, after the digits of `acc`.
unfoldable pub number : ℕ → List ℕ → ℕ
number acc [] = acc
number acc (c ∷ cs) = number (acc * 10 + (c - 48)) cs

-- The characters of the string are '0' to '9', and '0' is the first of no longer string.
unfoldable pub all_digits : List ℕ → Bool
all_digits [] = true
all_digits (c ∷ cs) = leb 48 c && leb c 57 && all_digits cs

unfoldable pub no_leading_zero : List ℕ → Bool
no_leading_zero [] = false
no_leading_zero (c ∷ []) = true
no_leading_zero (c ∷ d ∷ ds) = not (c == 48)

all_digits-tmp_digits :
    (room v : ℕ) (tmp : List ℕ) → all_digits tmp ≡ true → all_digits (tmp_digits room v tmp) ≡ true
unfolding tmp_digits all_digits
all_digits-tmp_digits zero v tmp h = h
all_digits-tmp_digits (suc room) v tmp h =
    let rest = all_digits-tmp_digits room (v / 10) ((48 + v % 10) ∷ tmp) (ground (arith, h)) in
    elim (Bool-cases (v == 0)) [ inl e ↦ rw e h | inr e ↦ rw e rest ]

tmp_digits_zero : (room : ℕ) (tmp : List ℕ) → tmp_digits room 0 tmp ≡ tmp
unfolding tmp_digits
tmp_digits_zero zero tmp = refl
tmp_digits_zero (suc room) tmp = refl

-- The first digit of a number above 0 is not 0.
tmp_digits_first :
    (room v : ℕ) (tmp : List ℕ)
    → v < 10 ^ room
    → v ≢ 0
    → (c : ℕ) × (cs : List ℕ) × (tmp_digits room v tmp ≡ c ∷ cs) × (c ≢ 48)
unfolding tmp_digits
tmp_digits_first zero v tmp h ne = absurd (omega arith)
tmp_digits_first (suc room) v tmp h ne =
    let small : v / 10 < 10 ^ room = omega (arith, h, pow-succ' 10 room) in
    let some_left : (v == 0) ≡ false = ground arith in
    elim (Bool-cases (v / 10 == 0)) [
      | inl e ↦
          let last : v / 10 ≡ 0 = ground arith in
          (
            48 + v % 10,
            tmp,
            rw (some_left, last) (tmp_digits_zero room ((48 + v % 10) ∷ tmp)),
            omega arith,
          )
      | inr e ↦
          let (c, cs, t, n) =
            tmp_digits_first room (v / 10) ((48 + v % 10) ∷ tmp) small (ground arith) in
          (c, cs, rw some_left t, n)
    ]

no_leading_zero-first : (c : ℕ) (cs : List ℕ) → c ≢ 48 → no_leading_zero (c ∷ cs) ≡ true
unfolding no_leading_zero
no_leading_zero-first c [] ne = refl
no_leading_zero-first c (d ∷ ds) ne = ground arith

length-tmp_digits :
    (room d v : ℕ) (tmp : List ℕ) → v < 10 ^ d → length (tmp_digits room v tmp) ≤ d + length tmp
unfolding tmp_digits
length-tmp_digits zero d v tmp h = omega arith
length-tmp_digits (suc room) zero v tmp h =
    let none' : (v == 0) ≡ true = ground arith in rw none' (omega arith)
length-tmp_digits (suc room) (suc d) v tmp h =
    let small : v / 10 < 10 ^ d = omega (arith, h, pow-succ' 10 d) in
    let rest = length-tmp_digits room d (v / 10) ((48 + v % 10) ∷ tmp) small in
    elim (Bool-cases (v == 0)) [ inl e ↦ rw e (omega arith) | inr e ↦ rw e (omega (arith, rest)) ]

-- The buffer holds the string from `i` on.
unfoldable pub Holds : (ℕ → ℕ) → ℕ → List ℕ → Type 0
Holds buf i [] = buf i ≡ 0
Holds buf i (c ∷ cs) = (buf i ≡ c) × Holds buf (i + 1) cs

number-tmp_digits :
    (room v : ℕ) (tmp : List ℕ) → v < 10 ^ room → number 0 (tmp_digits room v tmp) ≡ number v tmp
unfolding number tmp_digits
number-tmp_digits zero v tmp h = let e : v ≡ 0 = omega arith in rw e refl
number-tmp_digits (suc room) v tmp h =
    let small : v / 10 < 10 ^ room = omega (arith, h, pow-succ' 10 room) in
    let rest = number-tmp_digits room (v / 10) ((48 + v % 10) ∷ tmp) small in
    elim (Bool-cases (v == 0)) [
      | inl e ↦ let z : v ≡ 0 = ground arith in rw z refl
      | inr e ↦
          let back : v / 10 * 10 + (48 + v % 10 - 48) ≡ v = omega arith in
          rw e (rest ∙ ap (λ (t : ℕ). number t tmp) back)
    ]

-- What `put_all` leaves when the string fits.
pub record Printed (o : Out) (s : List ℕ) (o' : Out) : Type 0 where
  pub pos : o'.pos ≡ o.pos + length s
  pub before : (j : ℕ) → j < o.pos → o'.buf j ≡ o.buf j
  pub holds : Holds o'.buf o.pos s

putc_value :
    (cap c : ℕ) (o : Out)
    → o.pos + 1 < cap
    → proc_putc cap c o
      ≡ record { buf = update (update o.buf o.pos c) (o.pos + 1) 0; pos = o.pos + 1 }
unfolding proc_putc
putc_value cap c o h = ground arith

put_all-Printed :
    (cap : ℕ) (s : List ℕ) (o : Out)
    → o.pos + length s < cap
    → o.buf o.pos ≡ 0
    → Printed o s (put_all cap s o)
unfolding put_all Holds
put_all-Printed cap [] o h z = record { pos = omega arith; before = λ j l. refl; holds = z }
put_all-Printed cap (c ∷ cs) o h z =
    let value = putc_value cap c o (omega arith) in
    let o1 : Out = record { buf = update (update o.buf o.pos c) (o.pos + 1) 0; pos = o.pos + 1 } in
    let p = put_all-Printed cap cs o1 (omega arith) (ground arith) in
    rw value (record {
      pos = omega (arith, p.pos);
      before = λ j l. ground (arith, p.before j);
      holds = (ground (arith, p.before o.pos), p.holds);
    })

-- When the buffer ends in a 0 at the position and has room for `d` characters and a final 0 from
-- there on, for a number of at most `d` digits, `proc_put_u64` writes at the position, before a final
-- 0, the number in decimal: digits '0' to '9' without a leading zero, that stand for the number. It
-- changes nothing before the position.
pub proc_put_u64-Printed :
    (cap d v : ℕ) (o : Out)
    → v < 2 ^ 64
    → 1 ≤ d
    → v < 10 ^ d
    → o.pos + d < cap
    → o.buf o.pos ≡ 0
    → (s : List ℕ) × Printed o s (proc_put_u64 cap v o)
      × (all_digits s ≡ true)
      × (no_leading_zero s ≡ true)
      × (number 0 s ≡ v)
unfolding proc_put_u64
proc_put_u64-Printed cap d v o small pos short fits z = elim (Bool-cases (v == 0)) [
  | inl e ↦
      let none' : v ≡ 0 = ground arith in
      let p = put_all-Printed cap (48 ∷ []) o (omega arith) z in
      (
        48 ∷ [],
        unfold put_all in rw e p,
        unfold all_digits in refl,
        unfold no_leading_zero in refl,
        rw none' (unfold number in refl),
      )
  | inr e ↦
      let ne : v ≢ 0 = ground arith in
      let p =
        put_all-Printed cap (tmp_digits 32 v []) o
          (omega (arith, length-tmp_digits 32 d v [] short)) z in
      let (c, cs, first, nz) = tmp_digits_first 32 v [] (omega arith) ne in
      (
        tmp_digits 32 v [],
        rw e p,
        all_digits-tmp_digits 32 v [] (unfold all_digits in refl),
        rw first (no_leading_zero-first c cs nz),
        number-tmp_digits 32 v [] (omega arith) ∙ unfold number in refl,
      )
]
