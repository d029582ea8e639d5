-- ===== src/Kernel/Ring/Contents.antt =====
-- src/kernel/main.c: the bytes that a ring holds, in order, and what one byte more or less does.
use yabro_os.Base.{
  ℕ, zero, suc, ◌+◌, ◌-◌, ◌%◌, ◌<◌, ◌≤◌, ◌≡◌, refl, ap, ◌∙◌, List, [], ◌∷◌, ◌++◌, arith, update,
}
use yabro_os.Kernel.Ring.{Ring, pty_cap, put_byte, drop_byte}

-- `n` bytes from index `i` on, around the end of the array.
unfoldable pub bytes_from : (ℕ → ℕ) → ℕ → ℕ → List ℕ
bytes_from buf i zero = []
bytes_from buf i (suc n) = buf i ∷ bytes_from buf ((i + 1) % pty_cap) n

unfoldable pub contents : Ring → List ℕ
contents s = bytes_from s.buf s.r s.count

-- The indices are in the array and the next byte is written behind the last one held.
pub record IsRing (s : Ring) : Type 0 where
  pub read_index : s.r < pty_cap
  pub full : s.count ≤ pty_cap
  pub write_index : s.w ≡ (s.r + s.count) % pty_cap

bytes_from-update :
    (buf : ℕ → ℕ) (w x i n : ℕ)
    → i < pty_cap
    → n < pty_cap
    → w ≡ (i + n) % pty_cap
    → bytes_from (update buf w x) i n ≡ bytes_from buf i n
unfolding bytes_from
bytes_from-update buf w x i zero lt small e = refl
bytes_from-update buf w x i (suc n) lt small e =
    let next : (i + 1) % pty_cap < pty_cap = omega arith in
    let same = bytes_from-update buf w x ((i + 1) % pty_cap) n next (omega arith) (omega arith) in
    let other : update buf w x i ≡ buf i = ground arith in rw (same, other) refl

bytes_from-suc :
    (buf : ℕ → ℕ) (i n : ℕ)
    → i < pty_cap
    → bytes_from buf i (suc n) ≡ bytes_from buf i n ++ buf ((i + n) % pty_cap) ∷ []
unfolding bytes_from
bytes_from-suc buf i zero lt = let same : (i + 0) % pty_cap ≡ i = omega arith in rw same refl
bytes_from-suc buf i (suc n) lt =
    let same : (i + suc n) % pty_cap ≡ ((i + 1) % pty_cap + n) % pty_cap = omega arith in
    rw same (ap (λ l. buf i ∷ l) (bytes_from-suc buf ((i + 1) % pty_cap) n (omega arith)))

pub put_byte-IsRing : (s : Ring) (x : ℕ) → IsRing s → s.count < pty_cap → IsRing (put_byte s x)
unfolding put_byte
put_byte-IsRing s x v lt = record {
  read_index = v.read_index;
  full = omega arith;
  write_index = omega (arith, v.write_index, v.read_index);
}

pub contents-put_byte :
    (s : Ring) (x : ℕ)
    → IsRing s
    → s.count < pty_cap
    → contents (put_byte s x) ≡ contents s ++ x ∷ []
unfolding contents put_byte
contents-put_byte s x v lt =
    let more = bytes_from-suc (update s.buf s.w x) s.r s.count v.read_index in
    let same = bytes_from-update s.buf s.w x s.r s.count v.read_index lt v.write_index in
    let here : update s.buf s.w x ((s.r + s.count) % pty_cap) ≡ x = ground (arith, v.write_index) in
    let next : s.count + 1 ≡ suc s.count = omega arith in rw next (more ∙ rw (same, here) refl)

pub drop_byte-IsRing : (s : Ring) → IsRing s → 0 < s.count → IsRing (drop_byte s)
unfolding drop_byte
drop_byte-IsRing s v lt = record {
  read_index = omega arith;
  full = omega (arith, v.full);
  write_index = omega (arith, v.write_index, v.read_index);
}

bytes_from-first :
    (buf : ℕ → ℕ) (i n : ℕ)
    → 0 < n
    → bytes_from buf i n ≡ buf i ∷ bytes_from buf ((i + 1) % pty_cap) (n - 1)
unfolding bytes_from
bytes_from-first buf i zero lt = absurd (omega arith)
bytes_from-first buf i (suc n) lt = let less : suc n - 1 ≡ n = omega arith in rw less refl

pub contents-drop_byte : (s : Ring) → 0 < s.count → contents s ≡ s.buf s.r ∷ contents (drop_byte s)
unfolding contents drop_byte
contents-drop_byte s lt = bytes_from-first s.buf s.r s.count lt

pub contents-empty : (s : Ring) → s.count ≡ 0 → contents s ≡ []
unfolding contents bytes_from
contents-empty s e = rw e refl
